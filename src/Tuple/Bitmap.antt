-- ===== src/Tuple/Bitmap.antt =====
-- The bitmap of nulls: setting a bit sets that bit and no other.
use kip_sql.Prelude.{
  ℕ, zero, suc, ◌-◌, ◌/◌, ◌%◌, ◌^◌, ◌<◌, ◌≡◌, refl, ap, ◌∙◌, Bool, true, false, ◌&&◌, Option, none,
  some, arith, length, get_elem?, set, replicate, ltb, ◌==◌, if◌then◌else◌, get_elem?-set_self,
  get_elem?-set_ne, get_elem?-All, set-All, Bool-cases, inl, inr,
}
use Prim.Native.Nat.{bit_and-bitwise}
use kip_sql.Prelude.Bytes.{Bytes, AreBytes}
use kip_sql.Tuple.{is_none_bit, flip_bit}

all_below : ℕ → (ℕ → Bool) → Bool
all_below zero p = true
all_below (suc n) p = p n && all_below n p

all_below_sound : (n : ℕ) (p : ℕ → Bool) (a : ℕ) → all_below n p ≡ true → a < n → p a ≡ true
unfolding all_below
all_below_sound zero p a h lt = absurd (omega arith)
all_below_sound (suc n) p a h lt = ground (arith, all_below_sound n p a)

-- `bool_eq` on the two sides of the law below.
abbrev same : Bool → Bool → Bool
same true b = b
same false true = false
same false false = true

same-eq : (a b : Bool) → same a b ≡ true → a ≡ b
same-eq a b h = ground arith

flip_law : ℕ → ℕ → ℕ → Bool
flip_law i j bits =
    same (is_none_bit (flip_bit bits i) j) (if i == j then true else is_none_bit bits j)
    && ltb (flip_bit bits i) 256

flip_table : all_below 8 (λ i. all_below 8 (λ j. all_below 256 (flip_law i j))) ≡ true
unfolding all_below flip_law is_none_bit flip_bit
flip_table = refl

flip_bit_lem :
    (i j bits : ℕ)
    → i < 8
    → j < 8
    → bits < 256
    → (is_none_bit (flip_bit bits i) j ≡ (if i == j then true else is_none_bit bits j))
      × (flip_bit bits i < 256)
unfolding flip_law
flip_bit_lem i j bits hi hj hb =
    let t =
      all_below_sound 256 (flip_law i j) bits
        (all_below_sound 8 (λ j. all_below 256 (flip_law i j)) j
          (all_below_sound 8 (λ i. all_below 8 (λ j. all_below 256 (flip_law i j))) i flip_table hi)
          hj)
        hb in
    ground (
      arith,
      same-eq (is_none_bit (flip_bit bits i) j) (if i == j then true else is_none_bit bits j),
    )

abbrev bit_of : Option ℕ → ℕ → Bool
bit_of none i = false
bit_of (some b) i = is_none_bit b i

-- The j-th bit of a bitmap.
pub bit_at : Bytes → ℕ → Bool
bit_at h j = bit_of (get_elem? h (j / 8)) (j % 8)

bit_at-flip :
    (h : Bytes) (i j b : ℕ)
    → get_elem? h (i / 8) ≡ some b
    → b < 256
    → i / 8 < length h
    → bit_at (set h (i / 8) (flip_bit b (i % 8))) j ≡ (if i == j then true else bit_at h j)
unfolding bit_at
bit_at-flip h i j b e small l = elim (Bool-cases (i / 8 == j / 8)) [
  | inl eq ↦
      let d : j / 8 ≡ i / 8 = ground arith in
      rw (d, get_elem?-set_self h (i / 8) (flip_bit b (i % 8)) l, e)
        ((flip_bit_lem (i % 8) (j % 8) b (omega arith) (omega arith) small).0
          ∙ ap (λ t. if t then true else is_none_bit b (j % 8)) (ground arith))
  | inr ne ↦
      let apart : (i == j) ≡ false = ground arith in
      rw (apart, get_elem?-set_ne h (i / 8) (j / 8) (flip_bit b (i % 8)) (ground arith)) refl
]

-- A bit in range can be set, and no other bit changes.
pub bit_at-set :
    (h : Bytes) (i : ℕ)
    → AreBytes h
    → i / 8 < length h
    → (b : ℕ) × (get_elem? h (i / 8) ≡ some b)
      × AreBytes (set h (i / 8) (flip_bit b (i % 8)))
      × ((j : ℕ)
          → bit_at (set h (i / 8) (flip_bit b (i % 8))) j ≡ (if i == j then true else bit_at h j))
bit_at-set h i bytes l =
    let (b, e, small) = get_elem?-All (λ b. b < 256) h (i / 8) bytes l in
    (
      b,
      e,
      set-All (λ b. b < 256) h (i / 8) (flip_bit b (i % 8))
          (flip_bit_lem (i % 8) (i % 8) b (omega arith) (omega arith) small).1 bytes,
      λ j. bit_at-flip h i j b e small l,
    )

no_bits : (i : ℕ) → is_none_bit 0 i ≡ false
unfolding is_none_bit
no_bits i = ground (arith, bit_and-bitwise 0 (2 ^ (7 - i)))

bit_of-zeros : (n k i : ℕ) → bit_of (get_elem? (replicate n 0) k) i ≡ false
bit_of-zeros zero k i = refl
bit_of-zeros (suc n) zero i = no_bits i
bit_of-zeros (suc n) (suc k) i = bit_of-zeros n k i

pub bit_at-zeros : (n j : ℕ) → bit_at (replicate n 0) j ≡ false
unfolding bit_at
bit_at-zeros n j = bit_of-zeros n (j / 8) (j % 8)

pub zeros-AreBytes : (n : ℕ) → AreBytes (replicate n 0)
zeros-AreBytes zero = tt
zeros-AreBytes (suc n) = (omega arith, zeros-AreBytes n)

-- What a bit of the bitmap says is what its byte says.
pub bit_at_lem :
    (h : Bytes) (i b : ℕ) → get_elem? h (i / 8) ≡ some b → is_none_bit b (i % 8) ≡ bit_at h i
unfolding bit_at
bit_at_lem h i b e = rw e refl
