-- ===== src/Range/Union.antt =====
-- src/expression/simplify.rs: the ranges under one `or`. A list that the code grows at its end is
-- kept here with its last element first. Of a sort, which pairs it compares is not documented: the
-- model compares those that an insertion compares.
use kip_sql.Prelude.{
  Bool, true, false, Option, none, some, List, [], ◌∷◌, ◌++◌, map, Ordering, is_lt, is_gt,
  if◌then◌else◌,
}
use kip_sql.Prelude.Outcome.{Outcome, ok, panic, ◌>>=◌}
use kip_sql.Types.{TypeError}
use kip_sql.Range.{
  Bound, unbounded, ConstantBinary, scope, eq, Comparison, bound_compared, lt_holds, gt_holds,
}

-- `(Bound<ValueRef>, Bound<ValueRef>)`.
pub record Scope (V : Type 0) : Type 0 where
  pub min : Bound V
  pub max : Bound V

-- A list with its elements in the other order.
abbrev pub last_first : {A : Type 0} → List A → List A → List A
last_first done [] = done
last_first done (x ∷ xs) = last_first (x ∷ done) xs

-- `unwrap` on a comparison.
abbrev pub unwrap : {A : Type 0} → Option A → Outcome TypeError A
unwrap none = panic
unwrap (some a) = ok a

abbrev pub full_bounds : {V : Type 0} → Bound V → Bound V → Bool
full_bounds unbounded unbounded = true
full_bounds _ _ = false

abbrev pub full_margin : {V : Type 0} → Option (Scope V) → Bool
full_margin none = false
full_margin (some s) = full_bounds s.min s.max

module _ {A : Type 0} (compare_by : A → A → Option Ordering) where
  -- `slice::sort_by` with a comparison that may panic.
  unfoldable pub insert_cmp : A → List A → Outcome TypeError (List A)
  insert_cmp x [] = ok (x ∷ [])
  insert_cmp x (y ∷ ys) =
      let rest = insert_cmp x ys in
      unwrap (compare_by x y) >>= λ order.
      if is_gt order then (rest >>= λ zs. ok (y ∷ zs)) else ok (x ∷ (y ∷ ys))

  unfoldable pub sort_cmp : List A → Outcome TypeError (List A)
  sort_cmp [] = ok []
  sort_cmp (x ∷ xs) = sort_cmp xs >>= λ ys. insert_cmp x ys

  -- `Iterator::max_by` gives the last of the greatest, and `Iterator::min_by` the first of the least.
  unfoldable pub max_by : A → List A → Outcome TypeError A
  max_by x [] = ok x
  max_by x (y ∷ ys) = unwrap (compare_by x y) >>= λ order. max_by (if is_gt order then x else y) ys

  unfoldable pub min_by : A → List A → Outcome TypeError A
  min_by x [] = ok x
  min_by x (y ∷ ys) = unwrap (compare_by x y) >>= λ order. min_by (if is_gt order then y else x) ys

module _ {V : Type 0} (c : Comparison V) where
  -- The variables of the first loop of `or_scope_aggregation`.
  pub record Collected : Type 0 where
    pub scopes : List (Scope V)
    pub eqs : List V
    pub scope_margin : Option (Scope V)

  -- The margin widened by a range.
  unfoldable pub widen : Option (Scope V) → Bound V → Bound V → Scope V
  unfolding bound_compared
  widen none min max = record { min = min; max = max }
  widen (some s) min max = record {
    min = if gt_holds c (bound_compared c s.min min true) then min else s.min;
    max = if lt_holds c (bound_compared c s.max max false) then max else s.max;
  }

  -- The rest of the loop gives the later ranges and values, so that they keep their order.
  unfoldable pub or_collect : Option (Scope V) → List (ConstantBinary V) → Collected
  unfolding widen
  or_collect margin [] = record { scopes = []; eqs = []; scope_margin = margin }
  or_collect margin (scope min max ∷ bs) =
      let rest = or_collect (some (widen margin min max)) bs in
      if full_margin margin
      then record { scopes = []; eqs = []; scope_margin = margin }
      else if full_bounds min max
      then record {
        scopes = [];
        eqs = [];
        scope_margin = some (record { min = unbounded; max = unbounded });
      }
      else record {
        scopes = record { min = min; max = max } ∷ rest.scopes;
        eqs = rest.eqs;
        scope_margin = rest.scope_margin;
      }
  or_collect margin (eq v ∷ bs) =
      let rest = or_collect margin bs in
      if full_margin margin
      then record { scopes = []; eqs = []; scope_margin = margin }
      else record { scopes = rest.scopes; eqs = v ∷ rest.eqs; scope_margin = rest.scope_margin }
  or_collect margin (_ ∷ bs) =
      let rest = or_collect margin bs in
      if full_margin margin then record { scopes = []; eqs = []; scope_margin = margin } else rest

  abbrev pub compare_max : Scope V → Scope V → Option Ordering
  compare_max s t = bound_compared c s.max t.max false

  abbrev pub compare_min : Scope V → Scope V → Option Ordering
  compare_min s t = bound_compared c s.min t.min true

  -- The last loop of `or_scope_aggregation`, on the sorted ranges.
  unfoldable pub merge_loop : List (Scope V) → List (Scope V) → Outcome TypeError (List (Scope V))
  unfolding bound_compared
  merge_loop merged [] = ok merged
  merge_loop [] (s ∷ ss) = merge_loop (s ∷ []) ss
  merge_loop (last ∷ merged) (s ∷ ss) = unwrap (bound_compared c last.min s.min true) >>= λ by_min.
      if is_gt by_min
      then merge_loop (s ∷ (last ∷ merged)) ss
      else (unwrap (bound_compared c last.max s.max false) >>= λ by_max.
          if is_lt by_max
          then merge_loop (record { min = last.min; max = s.max } ∷ merged) ss
          else merge_loop (last ∷ merged) ss)

  unfoldable pub merge_scopes : Scope V → List (Scope V) → Outcome TypeError (List (Scope V))
  unfolding max_by min_by sort_cmp merge_loop
  merge_scopes margin [] = ok []
  merge_scopes margin (s ∷ ss) = elim margin.min [
    | unbounded ↦ max_by compare_max s ss >>= λ t. ok (record { min = unbounded; max = t.max } ∷ [])
    | _ ↦ elim margin.max [
      | unbounded ↦
          min_by compare_min s ss >>= λ t. ok (record { min = t.min; max = unbounded } ∷ [])
      | _ ↦ sort_cmp compare_min (s ∷ ss) >>= λ sorted.
          merge_loop [] sorted >>= λ merged. ok (last_first [] merged)
    ]
  ]

  abbrev pub to_scope : Scope V → ConstantBinary V
  to_scope s = scope s.min s.max

  unfoldable pub or_result :
      Option (Scope V) → Collected → Outcome TypeError (List (ConstantBinary V))
  unfolding merge_scopes
  or_result none l = ok []
  or_result (some margin) l =
      if full_bounds margin.min margin.max
      then ok []
      else (merge_scopes margin l.scopes >>= λ scopes. ok (map to_scope scopes ++ map eq l.eqs))

  unfoldable pub or_scope_aggregation :
      List (ConstantBinary V) → Outcome TypeError (List (ConstantBinary V))
  unfolding or_collect or_result
  or_scope_aggregation bs = let l = or_collect none bs in or_result l.scope_margin l
