-- ===== src/Prelude/Bits.antt =====
-- Exclusive or, and or, with the top bit of a word.
use Prim.Native.Nat.{
  ℕ, zero, suc, ◌+◌, ◌*◌, ◌/◌, ◌%◌, ◌^◌, ◌≤◌, ◌<◌, max, bit_xor, bit_or, digits, differ,
  bit_xor-bitwise, bit_or-bitwise,
}
use mathlib.Core.Path.{◌≡◌, refl}
use native.Mathlib.Nat.{pow-suc}
use native.Mathlib.Omega.{arith}

-- An operation on binary digits that leaves the second number when the first has run out.
module _ (f : ℕ → ℕ → ℕ) where
  run : ℕ → ℕ → ℕ → ℕ
  run n a b = digits (λ b. b) f n a b

  run-fuel : (n m a b : ℕ) → a ≤ n → a ≤ m → run n a b ≡ run m a b
  unfolding run
  run-fuel zero zero a b p q = refl
  run-fuel zero (suc m) zero b p q = refl
  run-fuel zero (suc m) (suc a) b p q = absurd (omega arith)
  run-fuel (suc n) zero zero b p q = refl
  run-fuel (suc n) zero (suc a) b p q = absurd (omega arith)
  run-fuel (suc n) (suc m) zero b p q = refl
  run-fuel (suc n) (suc m) (suc a) b p q =
      omega (arith, run-fuel n m (suc a / 2) (b / 2) (omega arith) (omega arith))

  run-zero : (b : ℕ) → run 0 0 b ≡ b
  unfolding run
  run-zero b = refl

  run-suc :
      (a b : ℕ)
      → run (suc a) (suc a) b ≡ run (suc a / 2) (suc a / 2) (b / 2) * 2 + f (suc a % 2) (b % 2)
  unfolding run
  run-suc a b =
      omega (arith, run-fuel a (suc a / 2) (suc a / 2) (b / 2) (omega arith) (omega arith))

pub bit_xor_step : (a b : ℕ) → bit_xor a b ≡ bit_xor (a / 2) (b / 2) * 2 + differ (a % 2) (b % 2)
unfolding run
bit_xor_step zero b = simp bit_xor-bitwise (omega arith)
bit_xor_step (suc a) b = simp bit_xor-bitwise (run-suc differ a b)

pub bit_or_step : (a b : ℕ) → bit_or a b ≡ bit_or (a / 2) (b / 2) * 2 + max (a % 2) (b % 2)
unfolding run
bit_or_step zero b = simp bit_or-bitwise (omega arith)
bit_or_step (suc a) b = simp bit_or-bitwise (run-suc max a b)

differ-zero : (a : ℕ) → differ a 0 ≡ a
differ-zero zero = refl
differ-zero (suc a) = refl

-- `k` is the position of the top bit.
pub bit_xor_set : (k a : ℕ) → a < 2 ^ k → bit_xor a (2 ^ k) ≡ a + 2 ^ k
bit_xor_set zero zero h = refl
bit_xor_set zero (suc a) h = absurd (omega arith)
bit_xor_set (suc k) a h =
    ground
      (arith, bit_xor_step a (2 ^ suc k), pow-suc 2 k, bit_xor_set k (a / 2), differ-zero (a % 2))

pub bit_xor_clear : (k a : ℕ) → a < 2 ^ k → bit_xor (a + 2 ^ k) (2 ^ k) ≡ a
bit_xor_clear zero zero h = refl
bit_xor_clear zero (suc a) h = absurd (omega arith)
bit_xor_clear (suc k) a h = ground (
  arith,
  bit_xor_step (a + 2 ^ suc k) (2 ^ suc k),
  pow-suc 2 k,
  bit_xor_clear k (a / 2),
  differ-zero (a % 2),
)

zero-bit_or : (b : ℕ) → bit_or 0 b ≡ b
unfolding run
zero-bit_or b = simp bit_or-bitwise

pub bit_or_set : (k a : ℕ) → a < 2 ^ k → bit_or a (2 ^ k) ≡ a + 2 ^ k
bit_or_set zero zero h = refl
bit_or_set zero (suc a) h = absurd (omega arith)
bit_or_set (suc k) a h =
    ground (arith, bit_or_step a (2 ^ suc k), pow-suc 2 k, bit_or_set k (a / 2))

pub bit_or_keep : (k a : ℕ) → a < 2 ^ k → bit_or (a + 2 ^ k) (2 ^ k) ≡ a + 2 ^ k
bit_or_keep zero zero h = refl
bit_or_keep zero (suc a) h = absurd (omega arith)
bit_or_keep (suc k) a h =
    ground (arith, bit_or_step (a + 2 ^ suc k) (2 ^ suc k), pow-suc 2 k, bit_or_keep k (a / 2))
