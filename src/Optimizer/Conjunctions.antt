-- ===== src/Optimizer/Conjunctions.antt =====
-- Boolean conjunctions, and lists that are split by a test.
use kip_sql.Prelude.{
  ◌≡◌, refl, ◌∙◌, inl, inr, Bool, true, false, List, [], ◌∷◌, ◌++◌, ◌&&◌, All, Bool-cases,
}
use kip_sql.Optimizer.{partition, all}

pub and_true : (b : Bool) → b ≡ b && true
and_true true = refl
and_true false = refl

pub and_assoc : (a b c : Bool) → a && (b && c) ≡ (a && b) && c
and_assoc true b c = refl
and_assoc false b c = refl

pub and_swap : (a b c : Bool) → a && (b && c) ≡ b && (a && c)
and_swap true b c = refl
and_swap false true c = refl
and_swap false false c = refl

pub and_comm : (a b : Bool) → a && b ≡ b && a
and_comm true b = and_true b
and_comm false true = refl
and_comm false false = refl

pub and_turn : (a b c : Bool) → a && (b && c) ≡ c && (a && b)
and_turn a b c = and_assoc a b c ∙ and_comm (a && b) c

module _ {A : Type 0} where
  pub all_append : (h : A → Bool) (xs ys : List A) → all h (xs ++ ys) ≡ all h xs && all h ys
  all_append h [] ys = refl
  all_append h (a ∷ xs) ys = rw (all_append h xs ys) (and_assoc (h a) (all h xs) (all h ys))

  pub all-partition :
      (h f : A → Bool) (xs : List A)
      → all h xs ≡ all h (partition f xs).0 && all h (partition f xs).1
  unfolding partition
  all-partition h f [] = refl
  all-partition h f (a ∷ xs) = elim (Bool-cases (f a)) [
    | inl e ↦ rw (e, all-partition h f xs) (and_assoc (h a) _ _)
    | inr e ↦ rw (e, all-partition h f xs) (and_swap (h a) _ _)
  ]

  pub partition-All :
      (P : A → Type 0) (f : A → Bool) (xs : List A)
      → All P xs
      → All P (partition f xs).0 × All P (partition f xs).1
  unfolding partition
  partition-All P f [] ps = (tt, tt)
  partition-All P f (a ∷ xs) ps =
      let (qs, rs) = partition-All P f xs ps.1 in
      elim (Bool-cases (f a)) [ inl e ↦ rw e ((ps.0, qs), rs) | inr e ↦ rw e (qs, (ps.0, rs)) ]

  pub append-All : (P : A → Type 0) (xs ys : List A) → All P xs → All P ys → All P (xs ++ ys)
  append-All P [] ys ps qs = qs
  append-All P (a ∷ xs) ys ps qs = (ps.0, append-All P xs ys ps.1 qs)

  pub All-append : (P : A → Type 0) (xs ys : List A) → All P (xs ++ ys) → All P xs × All P ys
  All-append P [] ys ps = (tt, ps)
  All-append P (a ∷ xs) ys ps = let (qs, rs) = All-append P xs ys ps.1 in ((ps.0, qs), rs)
