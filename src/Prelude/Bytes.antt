-- ===== src/Prelude/Bytes.antt =====
-- Byte strings: words of several bytes, big end first or little end first, and the order of
-- `Vec<u8>`, which is lexicographic.
use Prim.Native.Nat.{ℕ, zero, suc, ◌+◌, ◌*◌, ◌/◌, ◌%◌, ◌^◌, ◌<◌, compare, Ordering}
use mathlib.Core.Path.{◌≡◌, refl, ap₂, ◌∙◌}
use mathlib.Core.List.{List, [], ◌∷◌, ◌++◌}
use native.Mathlib.Nat.{pow-suc, one-le-pow}
use native.Mathlib.Omega.{arith}
use kip_sql.Prelude.Tests.{then_cmp, reverse_cmp, compare_refl}
use kip_sql.Prelude.Lists.{length, All}

abbrev pub Bytes : Type 0
Bytes = List ℕ

abbrev pub AreBytes : Bytes → Type 0
AreBytes = All (λ b. b < 256)

-- `Ord` of byte strings.
unfoldable pub compare_bytes : Bytes → Bytes → Ordering
compare_bytes [] [] = Ordering.eq
compare_bytes [] (y ∷ ys) = Ordering.lt
compare_bytes (x ∷ xs) [] = Ordering.gt
compare_bytes (x ∷ xs) (y ∷ ys) = then_cmp (compare x y) (compare_bytes xs ys)

-- `to_be_bytes` of a word of k bytes.
unfoldable pub be_bytes : ℕ → ℕ → Bytes
be_bytes zero n = []
be_bytes (suc k) n = (n / 256 ^ k) ∷ be_bytes k (n % 256 ^ k)

-- `to_le_bytes` of a word of k bytes, and `from_le_bytes`.
unfoldable pub le_bytes : ℕ → ℕ → Bytes
le_bytes zero n = []
le_bytes (suc k) n = (n % 256) ∷ le_bytes k (n / 256)

unfoldable pub of_le_bytes : Bytes → ℕ
of_le_bytes [] = 0
of_le_bytes (b ∷ bs) = b + 256 * of_le_bytes bs

pub compare_bytes_refl : (xs : Bytes) → compare_bytes xs xs ≡ Ordering.eq
unfolding compare_bytes
compare_bytes_refl [] = refl
compare_bytes_refl (x ∷ xs) = ground (arith, compare_refl x, compare_bytes_refl xs)

pub compare_bytes_swap : (xs ys : Bytes) → compare_bytes ys xs ≡ reverse_cmp (compare_bytes xs ys)
unfolding compare_bytes
compare_bytes_swap [] [] = refl
compare_bytes_swap [] (y ∷ ys) = refl
compare_bytes_swap (x ∷ xs) [] = refl
compare_bytes_swap (x ∷ xs) (y ∷ ys) = ground (arith, compare_bytes_swap xs ys)

-- A shared prefix does not matter.
pub compare_bytes-append :
    (ps xs ys : Bytes) → compare_bytes (ps ++ xs) (ps ++ ys) ≡ compare_bytes xs ys
unfolding compare_bytes
compare_bytes-append [] xs ys = refl
compare_bytes-append (p ∷ ps) xs ys = ground (arith, compare_bytes-append ps xs ys)

pub compare_bytes-eq : (xs ys : Bytes) → compare_bytes xs ys ≡ Ordering.eq → xs ≡ ys
unfolding compare_bytes
compare_bytes-eq [] [] h = refl
compare_bytes-eq [] (y ∷ ys) h = ground arith
compare_bytes-eq (x ∷ xs) [] h = ground arith
compare_bytes-eq (x ∷ xs) (y ∷ ys) h = ground (arith, compare_bytes-eq xs ys)

digits_lt : (p q r s t : ℕ) → q < s → r < p → q * p + r < s * p + t
digits_lt p q r s t h hr = grind arith

-- Numbers of two digits, `p` being the base, compare by the high digit first.
compare_digits :
    (p q r s t : ℕ)
    → r < p
    → t < p
    → then_cmp (compare q s) (compare r t) ≡ compare (q * p + r) (s * p + t)
compare_digits p q r s t hr ht = ground (arith, digits_lt p q r s t, digits_lt p s t q r)

-- Big-endian words of one width compare as the numbers do.
pub compare-be_bytes :
    (k a b : ℕ)
    → a < 256 ^ k
    → b < 256 ^ k
    → compare_bytes (be_bytes k a) (be_bytes k b) ≡ compare a b
unfolding compare_bytes be_bytes
compare-be_bytes zero a b ha hb = ground arith
compare-be_bytes (suc k) a b ha hb =
    let p = 256 ^ k in
    let base = one-le-pow k 256 (omega arith) in
    rw (compare-be_bytes k (a % p) (b % p) (omega arith) (omega arith)) (
      compare_digits p (a / p) (a % p) (b / p) (b % p) (omega arith) (omega arith)
      ∙ ap₂ compare (omega arith) (omega arith))

pub length-be_bytes : (k n : ℕ) → length (be_bytes k n) ≡ k
unfolding be_bytes
length-be_bytes zero n = refl
length-be_bytes (suc k) n = omega (arith, length-be_bytes k (n % 256 ^ k))

pub length-le_bytes : (k n : ℕ) → length (le_bytes k n) ≡ k
unfolding le_bytes
length-le_bytes zero n = refl
length-le_bytes (suc k) n = omega (arith, length-le_bytes k (n / 256))

pub of_le_bytes-le_bytes : (k n : ℕ) → n < 256 ^ k → of_le_bytes (le_bytes k n) ≡ n
unfolding le_bytes of_le_bytes
of_le_bytes-le_bytes zero n h = omega arith
of_le_bytes-le_bytes (suc k) n h =
    omega (arith, pow-suc 256 k, of_le_bytes-le_bytes k (n / 256) (omega (arith, pow-suc 256 k)))
