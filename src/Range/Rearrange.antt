-- ===== src/Range/Rearrange.antt =====
-- src/expression/simplify.rs: `scope_aggregation` and `rearrange`. `rearrange` keeps its merged list
-- here with the last element first.
use kip_sql.Prelude.{
  Bool, true, false, not, ◌&&◌, ◌||◌, List, [], ◌∷◌, ◌++◌, is_lt, is_gt, ltb, length, if◌then◌else◌,
}
use kip_sql.Prelude.Sort.{sort_by}
use kip_sql.Prelude.Outcome.{Outcome, ok, err, panic, ◌>>=◌}
use kip_sql.Types.{TypeError, invalid_type}
use kip_sql.Range.{
  Bound, included, excluded, unbounded, ConstantBinary, scope, eq, not_eq, and_of, or_of, to_list,
  of_list, Comparison, bound_compared, or_equal, is_empty, and_scope_aggregation,
}
use kip_sql.Range.Union.{or_scope_aggregation, last_first}

module _ {V : Type 0} (c : Comparison V) where
  -- The loop over the members of an `Or`.
  unfoldable pub aggregate_members :
      List (ConstantBinary V) → Outcome TypeError (List (ConstantBinary V))
  unfolding and_scope_aggregation
  aggregate_members [] = ok []
  aggregate_members (and_of bs ∷ rest) = and_scope_aggregation c (to_list bs) >>= λ rs.
      aggregate_members rest >>= λ more. ok (rs ++ more)
  aggregate_members (or_of bs ∷ rest) = panic
  aggregate_members (b ∷ rest) = aggregate_members rest >>= λ more. ok (b ∷ more)

  unfoldable pub scope_aggregation : ConstantBinary V → Outcome TypeError (ConstantBinary V)
  unfolding aggregate_members and_scope_aggregation or_scope_aggregation
  scope_aggregation (or_of bs) = aggregate_members (to_list bs) >>= λ members.
      or_scope_aggregation c members >>= λ rs. ok (or_of (of_list rs))
  scope_aggregation (and_of bs) =
      and_scope_aggregation c (to_list bs) >>= λ rs. ok (and_of (of_list rs))
  scope_aggregation b = ok b

  -- The members of an `Or`, those of its `And`s among them.
  unfoldable pub flatten : List (ConstantBinary V) → Outcome TypeError (List (ConstantBinary V))
  flatten [] = ok []
  flatten (or_of _ ∷ bs) = err invalid_type
  flatten (and_of inner ∷ bs) = flatten bs >>= λ rest. ok (to_list inner ++ rest)
  flatten (scope unbounded unbounded ∷ bs) = flatten bs
  flatten (b ∷ bs) = flatten bs >>= λ rest. ok (b ∷ rest)

  abbrev pub is_range : ConstantBinary V → Bool
  is_range (and_of _) = false
  is_range (or_of _) = false
  is_range _ = true

  abbrev pub all_ranges : List (ConstantBinary V) → Bool
  all_ranges [] = true
  all_ranges (b ∷ bs) = is_range b && all_ranges bs

  -- The bound by which `rearrange` sorts; it is `unreachable!` for the others.
  abbrev pub start_of : ConstantBinary V → Bound V
  start_of (scope min _) = min
  start_of (eq v) = included v
  start_of (not_eq v) = excluded v
  start_of _ = unbounded

  abbrev pub start_le : ConstantBinary V → ConstantBinary V → Bool
  start_le a b = not (is_gt (or_equal (bound_compared c (start_of a) (start_of b) true)))

  abbrev pub condition_min : ConstantBinary V → Bound V
  condition_min (scope min _) = min
  condition_min _ = unbounded

  abbrev pub condition_max : ConstantBinary V → Bound V
  condition_max (scope _ max) = max
  condition_max (eq v) = included v
  condition_max (not_eq v) = excluded v
  condition_max _ = unbounded

  abbrev pub is_scope : ConstantBinary V → Bool
  is_scope (scope _ _) = true
  is_scope _ = false

  pub record Extension : Type 0 where
    pub merged : List (ConstantBinary V)
    pub is_push : Bool

  -- The inner loop: the last range of the merged list is compared with the condition.
  unfoldable pub extend : ConstantBinary V → List (ConstantBinary V) → Bool → Extension
  unfolding bound_compared
  extend condition [] push = record { merged = []; is_push = push }
  extend condition (scope min max ∷ bs) push =
      let is_lt_min = is_lt (or_equal (bound_compared c max (condition_min condition) false)) in
      let is_lt_max = is_lt (or_equal (bound_compared c max (condition_max condition) false)) in
      if not is_lt_min && is_lt_max
      then record { merged = scope min (condition_max condition) ∷ bs; is_push = push }
      else if not (is_scope condition)
      then record { merged = scope min max ∷ bs; is_push = is_lt_max }
      else record { merged = scope min max ∷ bs; is_push = (is_lt_min && is_lt_max) || push }
  extend condition (b ∷ bs) push =
      let rest = extend condition bs push in
      record { merged = b ∷ rest.merged; is_push = rest.is_push }

  -- The loop over the sorted conditions.
  unfoldable pub merge_conditions :
      List (ConstantBinary V) → List (ConstantBinary V) → List (ConstantBinary V)
  unfolding extend
  merge_conditions merged [] = merged
  merge_conditions merged (condition ∷ conditions) =
      let e = extend condition merged (is_empty merged) in
      merge_conditions (if e.is_push then condition ∷ e.merged else e.merged) conditions

  -- Two conditions or more are compared, and then none may be an `And` or an `Or`.
  unfoldable pub rearrange : ConstantBinary V → Outcome TypeError (List (ConstantBinary V))
  unfolding flatten merge_conditions
  rearrange (or_of bs) = flatten (to_list bs) >>= λ conditions.
      if ltb 1 (length conditions) && not (all_ranges conditions)
      then panic
      else ok (last_first [] (merge_conditions [] (sort_by start_le conditions)))
  rearrange (and_of bs) = ok (to_list bs)
  rearrange b = ok (b ∷ [])
