-- ===== src/Execute/Query/Tests.antt =====
-- Two projections of src/execution/executor/dql/projection.rs, one above the other, on a row of the
-- columns "a" and "b".
use kip_sql.Prelude.{◌≡◌, refl, none, some, List, [], ◌∷◌, map, false, true}
use kip_sql.Prelude.Int.{pos}
use kip_sql.Prelude.Bytes.{Bytes}
use kip_sql.Prelude.Outcome.{ok}
use kip_sql.Types.{LogicalType}
use kip_sql.Value.{int32, boolean}
use kip_sql.Value.Plain.{plain}
use kip_sql.Compute.Plain.{machine}
use kip_sql.Expression.{
  Expr, constant, column_ref, alias, null_test, in_list, nil, cons, stored_column, Column,
  catalog_of,
}
use kip_sql.Expression.Names.{bytes}
use kip_sql.Expression.Eval.{eval}
use kip_sql.Execute.Query.{Row, execute_projection, projected, scalar}
use kip_sql.Execute.Query.ProjectionLaws.{execute_projection_lem, ReadFrom, first_named, row_values}

abbrev column : Bytes → Column Unit
column name =
    stored_column (record { id = some 0; name = name }) true
      (record {
        column_datatype = LogicalType.integer;
        is_primary = false;
        is_unique = false;
        default = none;
      })

abbrev row : Row Unit
row = record {
  id = none;
  columns = catalog_of (column (bytes "a")) ∷ catalog_of (column (bytes "b")) ∷ [];
  values = int32 (some (pos 4)) ∷ int32 none ∷ [];
}

-- `a in (4)` and `b is null`.
abbrev listed : Expr Unit
listed =
    in_list false (column_ref (column (bytes "a"))) (cons (constant (int32 (some (pos 4)))) nil)

abbrev tested : Expr Unit
tested = null_test false (column_ref (column (bytes "b")))

-- `select a in (4) as c, b is null` below `select b is null, c`.
abbrev lower : List (Expr Unit)
lower = alias listed (bytes "c") ∷ tested ∷ []

abbrev upper : List (Expr Unit)
upper = tested ∷ column_ref (column (bytes "c")) ∷ []

abbrev source : List (Expr Unit)
source = tested ∷ alias listed (bytes "c") ∷ []

execute_projection_test :
    map row_values (
      execute_projection {K = Unit} plain machine upper
        (execute_projection plain machine lower (ok row ∷ [])))
    ≡ ok (boolean (some true) ∷ boolean (some true) ∷ []) ∷ []
unfolding execute_projection eval projected scalar
execute_projection_test = refl

execute_projection_lem_example :
    map row_values (
      execute_projection {K = Unit} plain machine upper
        (execute_projection plain machine lower (ok row ∷ [])))
    ≡ map row_values (execute_projection plain machine source (ok row ∷ []))
unfolding eval ReadFrom first_named
execute_projection_lem_example =
    execute_projection_lem plain machine lower upper source (ok row ∷ []) (refl, (refl, tt))
      (((_, refl), ((_, refl), tt)), tt)
