-- ===== src/Value/Key/Padding.antt =====
-- Where `encode_bytes` of src/types/value.rs does not keep the order: its vector is lengthened to a
-- size that depends on the text, so a prefix shorter than that is followed by zeros.
use kip_sql.Prelude.{
  ℕ, zero, suc, ◌+◌, ◌-◌, ◌≤◌, ◌<◌, ◌≡◌, ap, ◌∙◌, ◌∷◌, ◌++◌, arith, length, replicate, Ordering,
}
use mathlib.Core.List.{append_assoc}
use native.Mathlib.Nat.{zero-add, suc-add}
use kip_sql.Prelude.Bytes.{Bytes, compare_bytes, compare_bytes-append}
use kip_sql.Value.Key.{encode_bytes, realloc_bytes, realloc_size}
use kip_sql.Value.Key.Groups.{grouped-cons, encode_bytes_lem}

replicate_add : (m n : ℕ) → replicate {A = ℕ} (m + n) 0 ≡ replicate m 0 ++ replicate n 0
replicate_add zero n = rw zero-add
replicate_add (suc m) n = rw (suc-add m n) (ap (◌∷◌ 0) (replicate_add m n))

realloc_bytes_pad :
    (b : Bytes) (size : ℕ)
    → length b < size
    → realloc_bytes b size ≡ b ++ replicate (size - length b) 0
unfolding realloc_bytes
realloc_bytes_pad b size h = ground arith

padded :
    (b : Bytes) (y : ℕ) (xs ys : Bytes) (m n : ℕ)
    → length b < m
    → m < n
    → compare_bytes (realloc_bytes b n ++ xs) (realloc_bytes b m ++ suc y ∷ ys) ≡ Ordering.lt
unfolding compare_bytes
padded b y xs ys m n h k =
    let zeros = replicate {A = ℕ} (m - length b) 0 in
    let more = replicate {A = ℕ} (n - m - 1) 0 in
    let e : n - length b ≡ m - length b + suc (n - m - 1) = omega arith in
    rw
      (
        realloc_bytes_pad b n (omega arith),
        realloc_bytes_pad b m h,
        e,
        replicate_add (m - length b) (suc (n - m - 1)),
        append_assoc b (zeros ++ 0 ∷ more) xs,
        append_assoc b zeros (suc y ∷ ys),
      )
      (compare_bytes-append b _ _
        ∙ rw (append_assoc zeros (0 ∷ more) xs)
            (compare_bytes-append zeros (0 ∷ (more ++ xs)) (suc y ∷ ys) ∙ ground arith))

-- Behind a prefix of less than nine bytes, the key of every text of eight bytes or more is below
-- the key of every text of one to seven bytes that does not begin with the byte 0, whatever the
-- order of the texts.
pub long_text_first :
    (b : Bytes) (x : ℕ) (short long : Bytes)
    → length b < 9
    → length (suc x ∷ short) < 8
    → 8 ≤ length long
    → compare_bytes (encode_bytes b long) (encode_bytes b (suc x ∷ short)) ≡ Ordering.lt
long_text_first b x short long h k l =
    rw (encode_bytes_lem b long, encode_bytes_lem b (suc x ∷ short), grouped-cons (suc x) short)
      (padded b x _ _ (realloc_size (suc x ∷ short)) (realloc_size long) (omega arith)
        (omega arith))
