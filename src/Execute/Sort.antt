-- ===== src/Execute/Sort.antt =====
-- src/execution/executor/dql/sort.rs and src/planner/operator/sort.rs: rows in the order of expressions.
mod Tests
use kip_sql.Prelude.{
  ℕ, Bool, true, false, Option, none, some, List, [], ◌∷◌, map, length, take, ltb, Ordering,
  reverse_cmp, if◌then◌else◌,
}
use kip_sql.Prelude.Outcome.{Outcome, ok, err, panic, ◌>>=◌}
use kip_sql.Types.{TypeError}
use kip_sql.Value.{DataValue, External, partial_cmp, is_null}
use kip_sql.Compute.{Machine}
use kip_sql.Expression.{Expr}
use kip_sql.Expression.Eval.{eval}
use kip_sql.Range.Union.{sort_cmp}
use kip_sql.Execute.Query.{ExecutorError, Row, Stream}

pub record SortField (D : Type 0) : Type 0 where
  pub expr : Expr D
  pub asc : Bool
  pub nulls_first : Bool

pub record SortOperator (D : Type 0) : Type 0 where
  pub sort_fields : List (SortField D)
  pub limit : Option ℕ

-- The order of two values that do not compare.
abbrev pub null_order : Bool → Bool → Bool → Ordering
null_order nulls_first false true = if nulls_first then Ordering.lt else Ordering.gt
null_order nulls_first true false = if nulls_first then Ordering.gt else Ordering.lt
null_order nulls_first _ _ = Ordering.eq

abbrev pub answered : Option Ordering → Ordering → Ordering
answered none o = o
answered (some o) _ = o

module _ {D : Type 0} (x : External D) (m : Machine D) where
  unfoldable pub field_order : SortField D → DataValue D → DataValue D → Ordering
  unfolding partial_cmp is_null
  field_order f v w =
      let ordering =
        answered (partial_cmp x v w) (null_order f.nulls_first (is_null v) (is_null w)) in
      if f.asc then ordering else reverse_cmp ordering

  -- `eval(..).unwrap()`: an error panics.
  abbrev pub unwrapped : Outcome TypeError (DataValue D) → Option (DataValue D)
  unwrapped (ok v) = some v
  unwrapped _ = none

  abbrev pub first_difference : Ordering → Option Ordering → Option Ordering
  first_difference Ordering.eq rest = rest
  first_difference o rest = some o

  unfoldable pub compared_by :
      SortField D → Option (DataValue D) → Option (DataValue D) → Option Ordering → Option Ordering
  unfolding field_order
  compared_by f (some v) (some w) rest = first_difference (field_order f v w) rest
  compared_by f _ _ rest = none

  -- The comparison by the fields; `none` where it panics.
  unfoldable pub compare_rows : List (SortField D) → Row D → Row D → Option Ordering
  unfolding eval compared_by
  compare_rows [] t u = some Ordering.eq
  compare_rows (f ∷ fs) t u =
      compared_by f (unwrapped (eval x m t f.expr)) (unwrapped (eval x m u f.expr))
        (compare_rows fs t u)

  -- The rows of the input, up to an error.
  unfoldable pub collect_rows : {K : Type 0} → Stream K D → Outcome (ExecutorError K) (List (Row D))
  collect_rows [] = ok []
  collect_rows (ok t ∷ input) = collect_rows input >>= λ ts. ok (t ∷ ts)
  collect_rows (err e ∷ input) = err e
  collect_rows (panic ∷ input) = panic

  -- `drain(..len)` panics behind the last row.
  abbrev pub drained : {K : Type 0} → Option ℕ → List (Row D) → Stream K D
  drained none ts = map ok ts
  drained (some len) ts = if ltb (length ts) len then panic ∷ [] else map ok (take len ts)

  abbrev pub sorted : {K : Type 0} → Option ℕ → Outcome TypeError (List (Row D)) → Stream K D
  sorted limit (ok ts) = drained limit ts
  sorted limit _ = panic ∷ []

  unfoldable pub execute_sort : {K : Type 0} → SortOperator D → Stream K D → Stream K D
  unfolding collect_rows sort_cmp compare_rows
  execute_sort op input = elim (collect_rows input) [
    | ok ts ↦ sorted op.limit (sort_cmp (compare_rows op.sort_fields) ts)
    | err e ↦ err e ∷ []
    | panic ↦ panic ∷ []
  ]
