-- ===== src/Range/Tests.antt =====
-- The ranges of src/expression/simplify.rs on concrete conditions of an INTEGER column.
use kip_sql.Prelude.{◌≡◌, refl, some, List, [], ◌∷◌, All, ◌⊎◌}
use kip_sql.Prelude.Int.{ℤ, pos}
use kip_sql.Prelude.Outcome.{ok}
use kip_sql.Types.{LogicalType}
use kip_sql.Value.{DataValue, int32, partial_cmp}
use kip_sql.Value.Plain.{plain}
use kip_sql.Value.Raw.RoundTrip.{IsOf}
use kip_sql.Range.{
  included, excluded, unbounded, ConstantBinary, scope, eq, not_eq, or_of, of_list, Comparison,
  and_scope_aggregation, bound_compared,
}
use kip_sql.Range.Meaning.{Holds}
use kip_sql.Range.And.{and_scope_aggregation_sound}
use kip_sql.Range.Exact.{and_scope_aggregation_exact}
use kip_sql.Range.Merge.{Any}
use kip_sql.Range.Union.{or_scope_aggregation}
use kip_sql.Range.Or.{or_scope_aggregation_sound}
use kip_sql.Range.Rearrange.{rearrange, flatten}
use kip_sql.Range.Covers.{rearrange_covers}
use kip_sql.Range.Dropped.{rearrange_first_eq}
use kip_sql.Range.Values.{values, integers-IsLinear}
use kip_sql.Prelude.Sort.{sort_by, insert_by}

abbrev number : ℤ → DataValue Unit
number n = int32 (some n)

abbrev comparison : Comparison (DataValue Unit)
comparison = values plain

abbrev IsInteger : DataValue Unit → Type 0
IsInteger = IsOf LogicalType.integer

-- `c > 1 and c <= 9 and c != 4`, and `c > 1 and c <= 9 and c > 3`.
abbrev conditions : List (ConstantBinary (DataValue Unit))
conditions =
    scope (excluded (number (pos 1))) unbounded
    ∷ scope unbounded (included (number (pos 9)))
    ∷ not_eq (number (pos 4))
    ∷ []

abbrev ranges : List (ConstantBinary (DataValue Unit))
ranges =
    scope (excluded (number (pos 1))) unbounded
    ∷ scope unbounded (included (number (pos 9)))
    ∷ scope (excluded (number (pos 3))) unbounded
    ∷ []

-- `(c > 1 and c < 4) or (c > 3 and c < 9) or c = 12`.
abbrev alternatives : List (ConstantBinary (DataValue Unit))
alternatives =
    scope (excluded (number (pos 3))) (excluded (number (pos 9)))
    ∷ scope (excluded (number (pos 1))) (excluded (number (pos 4)))
    ∷ eq (number (pos 12))
    ∷ []

and_scope_aggregation_sound_example :
    (rs : List (ConstantBinary (DataValue Unit))) × (and_scope_aggregation comparison conditions
      ≡ ok rs)
    × ((v : DataValue Unit)
        → IsInteger v
        → All (Holds comparison v) conditions
        → All (Holds comparison v) rs)
and_scope_aggregation_sound_example =
    and_scope_aggregation_sound (integers-IsLinear plain) conditions
      ((tt, tt), ((tt, tt), (tt, tt)))

and_scope_aggregation_exact_example :
    (rs : List (ConstantBinary (DataValue Unit))) × (and_scope_aggregation comparison ranges
      ≡ ok rs)
    × ((v : DataValue Unit)
        → IsInteger v
        → All (Holds comparison v) rs
        → All (Holds comparison v) ranges)
and_scope_aggregation_exact_example =
    and_scope_aggregation_exact (integers-IsLinear plain) ranges
      ((tt, tt), ((tt, tt), ((tt, tt), tt)))

or_scope_aggregation_sound_example :
    (rs : List (ConstantBinary (DataValue Unit))) × (or_scope_aggregation comparison alternatives
      ≡ ok rs)
    × ((v : DataValue Unit)
        → IsInteger v
        → Any (Holds comparison v) alternatives
        → (rs ≡ []) ⊎ Any (Holds comparison v) rs)
or_scope_aggregation_sound_example =
    or_scope_aggregation_sound (integers-IsLinear plain) alternatives
      ((tt, tt), ((tt, tt), (tt, tt)))

-- `c > 3 or c = 1`.
rearrange_first_eq_example :
    rearrange comparison
      (or_of (of_list (scope (excluded (number (pos 3))) unbounded ∷ eq (number (pos 1)) ∷ [])))
    ≡ ok (eq (number (pos 1)) ∷ [])
unfolding flatten sort_by insert_by bound_compared partial_cmp
rearrange_first_eq_example =
    rearrange_first_eq comparison
      (of_list (scope (excluded (number (pos 3))) unbounded ∷ eq (number (pos 1)) ∷ []))
      (number (pos 1)) (scope (excluded (number (pos 3))) unbounded ∷ eq (number (pos 1)) ∷ [])
      (scope (excluded (number (pos 3))) unbounded ∷ []) refl refl refl

-- The test of `rearrange` in the repository.
rearrange_test :
    rearrange comparison (
      or_of (
        of_list (
          scope (excluded (number (pos 6))) (included (number (pos 10)))
          ∷ scope (excluded (number (pos 0))) (included (number (pos 3)))
          ∷ scope (included (number (pos 1))) (excluded (number (pos 2)))
          ∷ scope (excluded (number (pos 1))) (included (number (pos 2)))
          ∷ scope (included (number (pos 0))) (excluded (number (pos 3)))
          ∷ scope (included (number (pos 6))) (included (number (pos 7)))
          ∷ scope unbounded unbounded
          ∷ not_eq (number (pos 8))
          ∷ eq (number (pos 5))
          ∷ eq (number (pos 0))
          ∷ eq (number (pos 1))
          ∷ [])))
    ≡ ok (
        scope (included (number (pos 0))) (included (number (pos 3)))
        ∷ eq (number (pos 5))
        ∷ scope (included (number (pos 6))) (included (number (pos 10)))
        ∷ [])
unfolding rearrange sort_by insert_by partial_cmp
rearrange_test = refl

-- `(c > 6 and c <= 10) or (c >= 1 and c < 3) or c >= 9`.
abbrev overlapping : List (ConstantBinary (DataValue Unit))
overlapping =
    scope (excluded (number (pos 6))) (included (number (pos 10)))
    ∷ scope (included (number (pos 1))) (excluded (number (pos 3)))
    ∷ scope (included (number (pos 9))) unbounded
    ∷ []

rearrange_covers_example :
    (rs : List (ConstantBinary (DataValue Unit))) × (rearrange comparison
        (or_of (of_list overlapping))
      ≡ ok rs)
    × ((v : DataValue Unit)
        → IsInteger v
        → Any (Holds comparison v) overlapping
        → Any (Holds comparison v) rs)
rearrange_covers_example =
    rearrange_covers (integers-IsLinear plain) (of_list overlapping)
      ((tt, tt, refl), ((tt, tt, refl), ((tt, tt, refl), tt)))
