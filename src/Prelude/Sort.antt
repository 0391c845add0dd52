-- ===== src/Prelude/Sort.antt =====
-- A stable sort, by insertion.
use mathlib.Core.Logic.{inl, inr}
use mathlib.Core.Bool.{Bool}
use mathlib.Core.List.{List, [], ◌∷◌}
use kip_sql.Prelude.Tests.{if◌then◌else◌, Bool-cases}
use kip_sql.Prelude.Lists.{All}
use kip_sql.Prelude.{◌≡◌, true, false}

module _ {A : Type 0} (le : A → A → Bool) where
  unfoldable pub insert_by : A → List A → List A
  insert_by x [] = x ∷ []
  insert_by x (y ∷ ys) = let rest = insert_by x ys in if le x y then x ∷ (y ∷ ys) else y ∷ rest

  unfoldable pub sort_by : List A → List A
  sort_by [] = []
  sort_by (x ∷ xs) = insert_by x (sort_by xs)

  insert_by-All : (P : A → Type 0) (x : A) (xs : List A) → P x → All P xs → All P (insert_by x xs)
  unfolding insert_by
  insert_by-All P x [] p ps = (p, tt)
  insert_by-All P x (y ∷ ys) p ps = elim (Bool-cases (le x y)) [
    | inl h ↦ rw h (p, ps)
    | inr h ↦ rw h (ps.0, insert_by-All P x ys p ps.1)
  ]

  All-insert_by : (P : A → Type 0) (x : A) (xs : List A) → All P (insert_by x xs) → P x × All P xs
  unfolding insert_by
  All-insert_by P x [] h = h
  All-insert_by P x (y ∷ ys) ps = elim (Bool-cases (le x y)) [
    | inl h ↦ rw h at ps
    | inr h ↦ let qs = rw h at ps in let (p, rs) = All-insert_by P x ys qs.1 in (p, (qs.0, rs))
  ]

  -- Sorting keeps the elements: what all of them satisfy, before or after.
  pub sort_by-All : (P : A → Type 0) (xs : List A) → All P xs → All P (sort_by xs)
  unfolding sort_by
  sort_by-All P [] ps = tt
  sort_by-All P (x ∷ xs) ps = insert_by-All P x (sort_by xs) ps.0 (sort_by-All P xs ps.1)

  pub All-sort_by : (P : A → Type 0) (xs : List A) → All P (sort_by xs) → All P xs
  unfolding sort_by
  All-sort_by P [] ps = tt
  All-sort_by P (x ∷ xs) ps =
      let (p, qs) = All-insert_by P x (sort_by xs) ps in (p, All-sort_by P xs qs)

-- Each element stands in the relation to all behind it.
abbrev pub Sorted : {A : Type 0} → (A → A → Type 0) → List A → Type 0
Sorted R [] = Unit
Sorted R (x ∷ xs) = All (R x) xs × Sorted R xs

module _ {A : Type 0} (le : A → A → Bool) (P : A → Type 0) (R : A → A → Type 0)
    (trans : (x y z : A) → R x y → R y z → R x z)
    (yes : (x y : A) → P x → P y → le x y ≡ true → R x y)
    (no : (x y : A) → P x → P y → le x y ≡ false → R y x) where
  All-trans : (x y : A) (zs : List A) → R x y → All (R y) zs → All (R x) zs
  All-trans x y [] r h = tt
  All-trans x y (z ∷ zs) r h = (trans x y z r h.0, All-trans x y zs r h.1)

  insert_by-Sorted :
      (x : A) (ys : List A) → P x → All P ys → Sorted R ys → Sorted R (insert_by le x ys)
  unfolding insert_by
  insert_by-Sorted x [] p ps s = (tt, tt)
  insert_by-Sorted x (y ∷ ys) p ps s = elim (Bool-cases (le x y)) [
    | inl h ↦ let r = yes x y p ps.0 h in rw h ((r, All-trans x y ys r s.0), s)
    | inr h ↦
        rw h (insert_by-All le (R y) x ys (no x y p ps.0 h) s.0, insert_by-Sorted x ys p ps.1 s.1)
  ]

  -- A sort puts the elements in order.
  pub sort_by-Sorted : (xs : List A) → All P xs → Sorted R (sort_by le xs)
  unfolding sort_by
  sort_by-Sorted [] ps = tt
  sort_by-Sorted (x ∷ xs) ps =
      insert_by-Sorted x (sort_by le xs) ps.0 (sort_by-All le P xs ps.1) (sort_by-Sorted xs ps.1)
