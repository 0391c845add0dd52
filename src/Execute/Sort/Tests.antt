-- ===== src/Execute/Sort/Tests.antt =====
-- src/execution/executor/dql/sort.rs on rows of one column.
use kip_sql.Prelude.{◌≡◌, refl, none, some, [], ◌∷◌, false, true, Option, ℕ}
use kip_sql.Prelude.Int.{ℤ, pos}
use kip_sql.Prelude.Outcome.{ok, panic}
use kip_sql.Types.{LogicalType}
use kip_sql.Value.{int32}
use kip_sql.Value.Plain.{plain}
use kip_sql.Compute.Plain.{machine}
use kip_sql.Expression.{column_ref, stored_column, Column, catalog_of}
use kip_sql.Expression.Names.{bytes}
use kip_sql.Execute.Query.{Row}
use kip_sql.Execute.Sort.{execute_sort, SortOperator}
use kip_sql.Range.Union.{insert_cmp}

abbrev column : Column Unit
column =
    stored_column (record { id = some 0; name = bytes "a" }) true
      (record {
        column_datatype = LogicalType.integer;
        is_primary = false;
        is_unique = false;
        default = none;
      })

abbrev row : Option ℤ → Row Unit
row v = record { id = none; columns = catalog_of column ∷ []; values = int32 v ∷ [] }

abbrev by_a : Option ℕ → SortOperator Unit
by_a limit = record {
  sort_fields = record { expr = column_ref column; asc = true; nulls_first = false } ∷ [];
  limit = limit;
}

-- Although nulls are to come last, the null is first.
nulls_last_test :
    execute_sort plain machine {K = Unit}
      (by_a none)
      (ok (row (some (pos 3))) ∷ ok (row none) ∷ ok (row (some (pos 1))) ∷ [])
    ≡ ok (row none) ∷ ok (row (some (pos 1))) ∷ ok (row (some (pos 3))) ∷ []
unfolding execute_sort insert_cmp
nulls_last_test = refl

-- More rows are asked for than there are.
limit_test :
    execute_sort plain machine {K = Unit} (by_a (some 2)) (ok (row (some (pos 3))) ∷ [])
    ≡ panic ∷ []
unfolding execute_sort insert_cmp
limit_test = refl
