-- ===== src/Execute/AggregateLaws.antt =====
-- The accumulators of src/execution/executor/dql/aggregate on a column of values.
use kip_sql.Prelude.{
  ℕ, suc, ◌+◌, ◌%◌, ◌^◌, ◌<◌, ◌≡◌, refl, ap, ◌∙◌, ◌⊎◌, inl, inr, Bool, true, false, Option, none,
  some, List, [], ◌∷◌, map, arith, length, is_lt, is_gt, if◌then◌else◌, Bool-cases, All,
}
use kip_sql.Prelude.Int.{ℤ, pos, negsuc, ◌+ℤ◌, of_bits, to_bits, compare_ℤ}
use kip_sql.Prelude.Outcome.{ok}
use kip_sql.Types.{max_logical_type, type_eq}
use kip_sql.Value.{DataValue, External, int32, is_null, logical_type}
use kip_sql.Compute.{Machine, wrapped, unpack_i32}
use kip_sql.Compute.Binary.{binary_op, typed_op, integer_op, compare_op}
use kip_sql.Execute.Aggregates.{count_update, min_max_update, min_max_operator, feed}
use kip_sql.Range.Merge.{Any}
use kip_sql.Value.Cast.{cast, cast_int32}

-- The number of the values that are not null.
abbrev pub not_null_count : {D : Type 0} → List (DataValue D) → ℕ
not_null_count [] = 0
not_null_count (v ∷ vs) = if is_null v then not_null_count vs else suc (not_null_count vs)

wrapped_succ : (k : ℕ) → suc k < 2 ^ 31 → wrapped (2 ^ 31) (pos k +ℤ pos 1) ≡ pos (suc k)
unfolding ◌+ℤ◌ of_bits to_bits
wrapped_succ k h = let small : suc k % 2 ^ 32 ≡ suc k = omega arith in ground arith

module _ {D : Type 0} (x : External D) (m : Machine D) where
  count_from :
      (k : ℕ) (vs : List (DataValue D))
      → k + length vs < 2 ^ 31
      → feed x m (λ s v. ok (count_update x m s v)) (pos k) vs ≡ ok (pos (k + not_null_count vs))
  unfolding feed count_update
  count_from k [] h = ap (λ n. ok (pos n)) (omega arith)
  count_from k (v ∷ vs) h = elim (Bool-cases (is_null v)) [
    | inl null ↦ rw null (count_from k vs (omega arith))
    | inr value ↦
        rw (value, wrapped_succ k (omega arith))
          (count_from (suc k) vs (omega arith) ∙ ap (λ n. ok (pos n)) (omega arith))
  ]

  -- Fed with fewer than 2 ^ 31 values, the count is the number of those that are not null.
  pub count_update_lem :
      (vs : List (DataValue D))
      → length vs < 2 ^ 31
      → feed x m (λ s v. ok (count_update x m s v)) (pos 0) vs ≡ ok (pos (not_null_count vs))
  count_update_lem vs h = count_from 0 vs (omega arith) ∙ ap (λ n. ok (pos n)) (omega arith)

-- A value that takes the place of another: for a maximum, a greater one.
abbrev pub outranked : Bool → ℤ → ℤ → Bool
outranked true w v = is_lt (compare_ℤ w v)
outranked false w v = is_gt (compare_ℤ w v)

-- No value outranks the bound.
abbrev pub UpTo : Bool → Option ℤ → Option ℤ → Type 0
UpTo is_max bound none = Unit
UpTo is_max none (some v) = ⊥
UpTo is_max (some w) (some v) = outranked is_max w v ≡ false

abbrev pick : Bool → Option ℤ → Option ℤ → Option ℤ
pick is_max none o = o
pick is_max (some w) none = some w
pick is_max (some w) (some v) = if outranked is_max w v then some v else some w

abbrev pub embed : {D : Type 0} → Option ℤ → Option (DataValue D)
embed none = none
embed (some w) = some (int32 (some w))

abbrev pick_all : Bool → Option ℤ → List (Option ℤ) → Option ℤ
pick_all is_max s [] = s
pick_all is_max s (o ∷ os) = pick_all is_max (pick is_max s o) os

outranked_trans :
    (b : Bool) (u w v : ℤ)
    → outranked b u w ≡ false
    → outranked b w v ≡ false
    → outranked b u v ≡ false
outranked_trans true (pos u) (pos w) (pos v) h k = ground arith
outranked_trans true (pos u) (pos w) (negsuc v) h k = ground arith
outranked_trans true (pos u) (negsuc w) (pos v) h k = ground arith
outranked_trans true (pos u) (negsuc w) (negsuc v) h k = ground arith
outranked_trans true (negsuc u) (pos w) (pos v) h k = ground arith
outranked_trans true (negsuc u) (pos w) (negsuc v) h k = ground arith
outranked_trans true (negsuc u) (negsuc w) (pos v) h k = ground arith
outranked_trans true (negsuc u) (negsuc w) (negsuc v) h k = ground arith
outranked_trans false (pos u) (pos w) (pos v) h k = ground arith
outranked_trans false (pos u) (pos w) (negsuc v) h k = ground arith
outranked_trans false (pos u) (negsuc w) (pos v) h k = ground arith
outranked_trans false (pos u) (negsuc w) (negsuc v) h k = ground arith
outranked_trans false (negsuc u) (pos w) (pos v) h k = ground arith
outranked_trans false (negsuc u) (pos w) (negsuc v) h k = ground arith
outranked_trans false (negsuc u) (negsuc w) (pos v) h k = ground arith
outranked_trans false (negsuc u) (negsuc w) (negsuc v) h k = ground arith

outranked_refl : (b : Bool) (w : ℤ) → outranked b w w ≡ false
outranked_refl true (pos w) = ground arith
outranked_refl true (negsuc w) = ground arith
outranked_refl false (pos w) = ground arith
outranked_refl false (negsuc w) = ground arith

outranked_asym : (b : Bool) (w v : ℤ) → outranked b w v ≡ true → outranked b v w ≡ false
outranked_asym true (pos w) (pos v) h = ground arith
outranked_asym true (pos w) (negsuc v) h = ground arith
outranked_asym true (negsuc w) (pos v) h = ground arith
outranked_asym true (negsuc w) (negsuc v) h = ground arith
outranked_asym false (pos w) (pos v) h = ground arith
outranked_asym false (pos w) (negsuc v) h = ground arith
outranked_asym false (negsuc w) (pos v) h = ground arith
outranked_asym false (negsuc w) (negsuc v) h = ground arith

record Picked (b : Bool) (s : Option ℤ) (os : List (Option ℤ)) (r : Option ℤ) : Type 0 where
  over_start : UpTo b r s
  over_all : All (UpTo b r) os
  chosen : (r ≡ s) ⊎ Any (λ o. r ≡ o) os

UpTo-refl : (b : Bool) (o : Option ℤ) → UpTo b o o
UpTo-refl b none = tt
UpTo-refl b (some w) = outranked_refl b w

UpTo-trans : (b : Bool) (r s o : Option ℤ) → UpTo b r s → UpTo b s o → UpTo b r o
UpTo-trans b r s none h k = tt
UpTo-trans b r none (some v) h k = absurd k
UpTo-trans b none (some w) (some v) h k = absurd h
UpTo-trans b (some u) (some w) (some v) h k = outranked_trans b u w v h k

pick_lem :
    (b : Bool) (s o : Option ℤ)
    → UpTo b (pick b s o) s × UpTo b (pick b s o) o × ((pick b s o ≡ s) ⊎ (pick b s o ≡ o))
pick_lem b none o = (tt, UpTo-refl b o, inr refl)
pick_lem b (some w) none = (outranked_refl b w, tt, inl refl)
pick_lem b (some w) (some v) = elim (Bool-cases (outranked b w v)) [
  | inl h ↦ rw h (outranked_asym b w v h, outranked_refl b v, inr refl)
  | inr h ↦ rw h (outranked_refl b w, h, inl refl)
]

pick_all_lem : (b : Bool) (s : Option ℤ) (os : List (Option ℤ)) → Picked b s os (pick_all b s os)
pick_all_lem b s [] = record { over_start = UpTo-refl b s; over_all = tt; chosen = inl refl }
pick_all_lem b s (o ∷ os) =
    let (up, over, which) = pick_lem b s o in
    let rest = pick_all_lem b (pick b s o) os in
    let r = pick_all b (pick b s o) os in
    record {
      over_start = UpTo-trans b r (pick b s o) s rest.over_start up;
      over_all = (UpTo-trans b r (pick b s o) o rest.over_start over, rest.over_all);
      chosen = elim rest.chosen [
        | inl e ↦ elim which [ inl f ↦ inl (e ∙ f) | inr f ↦ inr (inl (e ∙ f)) ]
        | inr e ↦ inr (inr e)
      ];
    }

module _ {D : Type 0} (x : External D) (m : Machine D) where
  min_max_step :
      (b : Bool) (s o : Option ℤ)
      → min_max_update x m (min_max_operator x m b) (embed s) (int32 o) ≡ ok (embed (pick b s o))
  unfolding min_max_update is_null binary_op typed_op integer_op compare_op cast cast_int32
      max_logical_type type_eq logical_type unpack_i32
  min_max_step b none none = refl
  min_max_step b none (some v) = refl
  min_max_step b (some w) none = refl
  min_max_step true (some w) (some v) = elim (Bool-cases (is_lt (compare_ℤ w v))) [
    | inl h ↦ rw h refl
    | inr h ↦ rw h refl
  ]
  min_max_step false (some w) (some v) = elim (Bool-cases (is_gt (compare_ℤ w v))) [
    | inl h ↦ rw h refl
    | inr h ↦ rw h refl
  ]

  min_max_fed :
      (b : Bool) (s : Option ℤ) (os : List (Option ℤ))
      → feed x m (min_max_update x m (min_max_operator x m b)) (embed s) (map int32 os)
        ≡ ok (embed (pick_all b s os))
  unfolding feed
  min_max_fed b s [] = refl
  min_max_fed b s (o ∷ os) = rw (min_max_step b s o) (min_max_fed b (pick b s o) os)

  -- Fed with an INTEGER column, MAX and MIN do not fail, and keep a value of the column that no
  -- value of the column outranks, or nothing when the column has no value but nulls.
  pub min_max_update_lem :
      (is_max : Bool) (os : List (Option ℤ))
      → (best : Option ℤ) × (feed x m
            (min_max_update x m (min_max_operator x m is_max))
            none
            (map int32 os)
          ≡ ok (embed best))
        × All (UpTo is_max best) os
        × ((best ≡ none) ⊎ Any (λ o. best ≡ o) os)
  min_max_update_lem is_max os =
      let p = pick_all_lem is_max none os in
      (pick_all is_max none os, min_max_fed is_max none os, p.over_all, p.chosen)
