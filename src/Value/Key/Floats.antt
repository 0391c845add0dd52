-- ===== src/Value/Key/Floats.antt =====
-- The words of floats in index keys: `float_word` of Value/Key.antt.
use kip_sql.Prelude.{
  ℕ, suc, ◌+◌, ◌-◌, ◌*◌, ◌%◌, ◌^◌, ◌≤◌, ◌<◌, ◌≡◌, ◌⊎◌, inl, inr, arith, ltb, ◌==◌, compare,
  Bool-cases, if◌then◌else◌,
}
use native.Mathlib.Nat.{mod-eq_of_lt, pow-suc}
use kip_sql.Prelude.Int.{ℤ, pos, negsuc, compare_ℤ}
use kip_sql.Prelude.Bits.{bit_or_set, bit_or_keep}
use kip_sql.Value.Key.{float_word}

-- The order of the floats that are numbers is that of their signed magnitudes; the two zeros are
-- equal. `half` is the sign bit.
abbrev pub magnitude : ℕ → ℕ → ℤ
magnitude half f = if ltb f half then pos f else if f == half then pos 0 else negsuc (f - half - 1)

-- A pattern of the width that is no NaN.
pub record IsNumber (half inf f : ℕ) : Type 0 where
  pub width : f < 2 * half
  pub finite : f % half ≤ inf

moved_up : ℕ → ℤ → ℕ
moved_up half (pos n) = n + half
moved_up half (negsuc n) = half - 2 - n

abbrev IsMagnitude : ℕ → ℤ → Type 0
IsMagnitude half (pos n) = n < half
IsMagnitude half (negsuc n) = suc n < half

compare-moved_up :
    (half : ℕ) (a b : ℤ)
    → IsMagnitude half a
    → IsMagnitude half b
    → compare (moved_up half a) (moved_up half b) ≡ compare_ℤ a b
unfolding moved_up
compare-moved_up half (pos a) (pos b) h k = ground arith
compare-moved_up half (pos a) (negsuc b) h k = ground arith
compare-moved_up half (negsuc a) (pos b) h k = ground arith
compare-moved_up half (negsuc a) (negsuc b) h k = ground arith

moved_up-lt : (w : ℕ) (a : ℤ) → IsMagnitude (2 ^ w) a → moved_up (2 ^ w) a < 2 ^ suc w
unfolding moved_up
moved_up-lt w (pos a) h = omega (arith, pow-suc 2 w)
moved_up-lt w (negsuc a) h = omega (arith, pow-suc 2 w)

shape :
    (half f : ℕ)
    → f < 2 * half
    → (f < half) ⊎ ((f ≡ half) ⊎ ((m : ℕ) × (f ≡ suc m + half) × (suc m < half)))
shape half f h = elim (Bool-cases (ltb f half)) [
  | inl low ↦ inl (ground arith)
  | inr high ↦ elim (Bool-cases (f == half)) [
    | inl e ↦ inr (inl (ground arith))
    | inr more ↦ inr (inr (f - half - 1, ground arith, ground arith))
  ]
]

module _ (w inf : ℕ) where
  float_word-pos : (f : ℕ) → f < 2 ^ w → f ≤ inf → float_word (2 ^ w) inf f ≡ f + 2 ^ w
  unfolding float_word
  float_word-pos f h k = rw (mod-eq_of_lt h) (ground (arith, bit_or_set w f h))

  float_word-zero : 0 < 2 ^ w → float_word (2 ^ w) inf (2 ^ w) ≡ 2 ^ w
  unfolding float_word
  float_word-zero h =
      let e : 2 ^ w % 2 ^ w ≡ 0 = grind arith in rw e (ground (arith, bit_or_keep w 0))

  float_word-neg :
      (m : ℕ) → suc m < 2 ^ w → float_word (2 ^ w) inf (suc m + 2 ^ w) ≡ 2 ^ w - 1 - suc m
  unfolding float_word
  float_word-neg m h =
      let e : (suc m + 2 ^ w) % 2 ^ w ≡ suc m = grind (arith, mod-eq_of_lt h) in rw e (ground arith)

  -- The word of a number is its signed magnitude, moved up.
  float_word-magnitude :
      (f : ℕ)
      → IsNumber (2 ^ w) inf f
      → (float_word (2 ^ w) inf f ≡ moved_up (2 ^ w) (magnitude (2 ^ w) f))
        × IsMagnitude (2 ^ w) (magnitude (2 ^ w) f)
  unfolding moved_up
  float_word-magnitude f h = elim (shape (2 ^ w) f h.width) [
    | inl low ↦ ground (arith, float_word-pos f low (omega (arith, mod-eq_of_lt low, h.finite)))
    | inr (inl zero_sign) ↦ rw zero_sign (ground (arith, float_word-zero (omega (arith, h.width))))
    | inr (inr (m, e, low)) ↦ rw e (ground (arith, float_word-neg m low))
  ]

  -- The words of two numbers compare as the numbers do.
  pub compare-float_word :
      (f g : ℕ)
      → IsNumber (2 ^ w) inf f
      → IsNumber (2 ^ w) inf g
      → compare (float_word (2 ^ w) inf f) (float_word (2 ^ w) inf g)
        ≡ compare_ℤ (magnitude (2 ^ w) f) (magnitude (2 ^ w) g)
  compare-float_word f g hf hg =
      let (e, u) = float_word-magnitude f hf in
      let (d, v) = float_word-magnitude g hg in
      rw (e, d) (compare-moved_up (2 ^ w) (magnitude (2 ^ w) f) (magnitude (2 ^ w) g) u v)

  pub float_word-lt : (f : ℕ) → IsNumber (2 ^ w) inf f → float_word (2 ^ w) inf f < 2 ^ suc w
  float_word-lt f h =
      let (e, u) = float_word-magnitude f h in rw e (moved_up-lt w (magnitude (2 ^ w) f) u)
