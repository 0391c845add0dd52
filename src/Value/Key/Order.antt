-- ===== src/Value/Key/Order.antt =====
-- Keys of integers and of texts are ordered as the values are: src/types/value.rs.
use kip_sql.Prelude.{
  ℕ, suc, ◌+◌, ◌-◌, ◌*◌, ◌%◌, ◌^◌, ◌≤◌, ◌<◌, ◌≡◌, ◌∙◌, ◌++◌, arith, length, compare,
}
use native.Mathlib.Nat.{mod-eq_of_lt, pow-suc}
use kip_sql.Prelude.Int.{ℤ, pos, negsuc, IsSigned, to_bits, compare_ℤ}
use kip_sql.Prelude.Bits.{bit_xor_set, bit_xor_clear}
use Prim.Native.Nat.{bit_xor}
use kip_sql.Prelude.Bytes.{Bytes, be_bytes, compare_bytes, compare_bytes-append, compare-be_bytes}
use kip_sql.Value.Key.{encode_bytes, realloc_bytes, realloc_size}
use kip_sql.Value.Key.Groups.{compare-grouped, encode_bytes_lem}

-- The pattern of a signed integer with its sign bit flipped is the integer moved up by half.
sign_flipped : (w : ℕ) (v : ℤ) → ℕ
sign_flipped w v = bit_xor (to_bits (2 ^ w) v) (2 ^ w)

small_mod : (half n : ℕ) → n < half → n % (2 * half) ≡ n
small_mod half n h = mod-eq_of_lt (omega arith)

sign_flipped-pos : (w n : ℕ) → n < 2 ^ w → sign_flipped w (pos n) ≡ n + 2 ^ w
unfolding sign_flipped to_bits
sign_flipped-pos w n h = rw (small_mod (2 ^ w) n h) (bit_xor_set w n h)

sign_flipped-negsuc : (w n : ℕ) → n < 2 ^ w → sign_flipped w (negsuc n) ≡ 2 ^ w - 1 - n
unfolding sign_flipped to_bits
sign_flipped-negsuc w n h =
    let e : 2 * 2 ^ w - 1 - n ≡ 2 ^ w - 1 - n + 2 ^ w = omega arith in
    rw (small_mod (2 ^ w) n h, e) (bit_xor_clear w (2 ^ w - 1 - n) (omega arith))

compare-sign_flipped :
    (w : ℕ) (a b : ℤ)
    → IsSigned (2 ^ w) a
    → IsSigned (2 ^ w) b
    → compare (sign_flipped w a) (sign_flipped w b) ≡ compare_ℤ a b
compare-sign_flipped w (pos a) (pos b) h k =
    rw (sign_flipped-pos w a h, sign_flipped-pos w b k) (ground arith)
compare-sign_flipped w (pos a) (negsuc b) h k =
    rw (sign_flipped-pos w a h, sign_flipped-negsuc w b k) (ground arith)
compare-sign_flipped w (negsuc a) (pos b) h k =
    rw (sign_flipped-negsuc w a h, sign_flipped-pos w b k) (ground arith)
compare-sign_flipped w (negsuc a) (negsuc b) h k =
    rw (sign_flipped-negsuc w a h, sign_flipped-negsuc w b k) (ground arith)

sign_flipped-lt : (w : ℕ) (v : ℤ) → IsSigned (2 ^ w) v → sign_flipped w v < 2 ^ suc w
sign_flipped-lt w (pos n) h = omega (arith, sign_flipped-pos w n h, pow-suc 2 w)
sign_flipped-lt w (negsuc n) h = omega (arith, sign_flipped-negsuc w n h, pow-suc 2 w)

-- The key of a signed integer of k bytes.
pub signed_key :
    (k w : ℕ) (b : Bytes) (u v : ℤ)
    → 2 ^ suc w ≡ 256 ^ k
    → IsSigned (2 ^ w) u
    → IsSigned (2 ^ w) v
    → compare_bytes
        (b ++ be_bytes k (bit_xor (to_bits (2 ^ w) u) (2 ^ w)))
        (b ++ be_bytes k (bit_xor (to_bits (2 ^ w) v) (2 ^ w)))
      ≡ compare_ℤ u v
unfolding sign_flipped
signed_key k w b u v e hu hv =
    compare_bytes-append b _ _
    ∙ compare-be_bytes k (sign_flipped w u) (sign_flipped w v)
        (omega (arith, sign_flipped-lt w u hu)) (omega (arith, sign_flipped-lt w v hv))
    ∙ compare-sign_flipped w u v hu hv

pub unsigned_key :
    (k : ℕ) (b : Bytes) (u v : ℕ)
    → u < 256 ^ k
    → v < 256 ^ k
    → compare_bytes (b ++ be_bytes k u) (b ++ be_bytes k v) ≡ compare u v
unsigned_key k b u v hu hv = compare_bytes-append b _ _ ∙ compare-be_bytes k u v hu hv

realloc_bytes_keep : (b : Bytes) (size : ℕ) → size ≤ length b → realloc_bytes b size ≡ b
unfolding realloc_bytes
realloc_bytes_keep b size h = ground arith

-- The key of a text, behind a prefix that `realloc_bytes` need not lengthen.
pub text_key :
    (b u v : Bytes)
    → realloc_size u ≤ length b
    → realloc_size v ≤ length b
    → compare_bytes (encode_bytes b u) (encode_bytes b v) ≡ compare_bytes u v
text_key b u v hu hv =
    rw
      (
        encode_bytes_lem b u,
        encode_bytes_lem b v,
        realloc_bytes_keep b (realloc_size u) hu,
        realloc_bytes_keep b (realloc_size v) hv,
      )
      (compare_bytes-append b _ _ ∙ compare-grouped 7 u v (omega arith))
