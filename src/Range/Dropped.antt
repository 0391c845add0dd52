-- ===== src/Range/Dropped.antt =====
-- `rearrange` of src/expression/simplify.rs when the least condition is a single value.
use kip_sql.Prelude.{◌≡◌, refl, true, List, [], ◌∷◌, ltb, length, Bool-cases, inl, inr}
use kip_sql.Prelude.Sort.{sort_by}
use kip_sql.Prelude.Outcome.{ok}
use kip_sql.Range.{ConstantBinary, eq, or_of, Binaries, to_list, Comparison}
use kip_sql.Range.Rearrange.{rearrange, flatten, merge_conditions, extend, all_ranges, start_le}

module _ {V : Type 0} (c : Comparison V) where
  merge_conditions-eq :
      (w : V) (conditions : List (ConstantBinary V))
      → merge_conditions c (eq w ∷ []) conditions ≡ eq w ∷ []
  unfolding merge_conditions extend
  merge_conditions-eq w [] = refl
  merge_conditions-eq w (b ∷ bs) = merge_conditions-eq w bs

  -- When the condition that sorts first under an `or` is a single value, the rearranged list holds
  -- that value alone: every other value and range is dropped.
  pub rearrange_first_eq :
      (bs : Binaries V) (w : V) (conditions rest : List (ConstantBinary V))
      → flatten c (to_list bs) ≡ ok conditions
      → all_ranges c conditions ≡ true
      → sort_by (start_le c) conditions ≡ eq w ∷ rest
      → rearrange c (or_of bs) ≡ ok (eq w ∷ [])
  unfolding rearrange merge_conditions
  rearrange_first_eq bs w conditions rest e ranges sorted =
      rw (e, ranges, sorted)
        (elim (Bool-cases (ltb 1 (length conditions))) [
          | inl many ↦ rw (many, merge_conditions-eq w rest) refl
          | inr one ↦ rw (one, merge_conditions-eq w rest) refl
        ])
