-- ===== src/Prelude/Outcome.antt =====
-- What a fallible function of the program gives: a value, an error, or a panic
-- (`unwrap`, `unreachable!`, `todo!`, `panic!`, an index out of range).
use mathlib.Core.Bool.{Bool, true, false}
use mathlib.Core.Option.{Option, none, some}

pub data Outcome {ℓ κ} (E : Type ℓ) (A : Type κ) : Type (ℓ ⊔ κ) where
  ok : A → Outcome E A
  err : E → Outcome E A
  panic : Outcome E A

module _ {ℓ} {E : Type ℓ} where
  infixl 5 ◌>>=◌
  abbrev pub ◌>>=◌ {κ μ} : {A : Type κ} {B : Type μ} → Outcome E A → (A → Outcome E B) → Outcome E B
  ok a >>= f = f a
  err e >>= f = err e
  panic >>= f = panic

  -- `Result::ok` on a call that does not panic.
  abbrev pub to_option {κ} : {A : Type κ} → Outcome E A → Option A
  to_option (ok a) = some a
  to_option (err e) = none
  to_option panic = none

  abbrev pub is_ok {κ} : {A : Type κ} → Outcome E A → Bool
  is_ok (ok a) = true
  is_ok _ = false

  -- `Option::map(f).transpose()`.
  abbrev pub map_transpose {κ μ} :
      {A : Type κ} {B : Type μ} → (A → Outcome E B) → Option A → Outcome E (Option B)
  map_transpose f none = ok none
  map_transpose f (some a) = f a >>= λ b. ok (some b)

  -- `Option::ok_or`.
  abbrev pub ok_or {κ} : {A : Type κ} → Option A → E → Outcome E A
  ok_or none e = err e
  ok_or (some a) e = ok a
