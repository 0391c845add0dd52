-- ===== src/Execute/Join/Tests.antt =====
-- src/execution/executor/dql/join/hash_join.rs on a table of the columns "a", "b" and one of "c", "d".
use kip_sql.Prelude.{ℕ, ◌≡◌, refl, none, some, List, [], ◌∷◌, false, true, map}
use kip_sql.Prelude.Int.{ℤ, pos}
use kip_sql.Prelude.Bytes.{Bytes}
use kip_sql.Prelude.Outcome.{ok}
use kip_sql.Types.{LogicalType, max_logical_type}
use kip_sql.Value.{DataValue, int32}
use kip_sql.Value.Plain.{plain}
use kip_sql.Catalog.{ColumnCatalog}
use kip_sql.Compute.Plain.{machine}
use kip_sql.Compute.Binary.{BinaryOperator, typed_op}
use kip_sql.Expression.{Expr, column_ref, constant, binary, stored_column, Column, catalog_of}
use kip_sql.Expression.Names.{bytes}
use kip_sql.Execute.Query.{Row, Stream, scalar}
use kip_sql.Optimizer.{inner, left}
use kip_sql.Execute.Join.{on_keys, judged}
use kip_sql.Execute.Join.Phases.{execute_hash_join, left_only}
use kip_sql.Execute.Join.NestedLoop.{
  execute_hash_join_lem, nested, first_columns, rows_of, Hashed, IsHashed,
}
use kip_sql.Compute.{unpack_i32}

abbrev column : Bytes → Column Unit
column name =
    stored_column (record { id = some 0; name = name }) true
      (record {
        column_datatype = LogicalType.integer;
        is_primary = false;
        is_unique = false;
        default = none;
      })

abbrev columns : Bytes → Bytes → List (ColumnCatalog Unit (Expr Unit))
columns a b = catalog_of (column a) ∷ catalog_of (column b) ∷ []

abbrev row : List (ColumnCatalog Unit (Expr Unit)) → ℤ → ℤ → Row Unit
row cols a b = record { id = none; columns = cols; values = int32 (some a) ∷ int32 (some b) ∷ [] }

abbrev hash_one : List (DataValue Unit) → ℕ
hash_one (int32 (some (pos n)) ∷ _) = n
hash_one _ = 0

abbrev on : List (Expr Unit × Expr Unit)
on = (column_ref (column (bytes "a")), column_ref (column (bytes "c"))) ∷ []

abbrev ls : Hashed Unit
ls =
    (0, row (columns (bytes "a") (bytes "b")) (pos 0) (pos 2))
    ∷ (1, row (columns (bytes "a") (bytes "b")) (pos 1) (pos 3))
    ∷ (0, row (columns (bytes "a") (bytes "b")) (pos 0) (pos 5))
    ∷ []

abbrev rs : Hashed Unit
rs =
    (0, row (columns (bytes "c") (bytes "d")) (pos 0) (pos 7))
    ∷ (4, row (columns (bytes "c") (bytes "d")) (pos 4) (pos 8))
    ∷ []

abbrev ones : Hashed Unit
ones = (0, row (columns (bytes "a") (bytes "b")) (pos 0) (pos 2)) ∷ []

abbrev twos : Hashed Unit
twos =
    (0, row (columns (bytes "c") (bytes "d")) (pos 0) (pos 7))
    ∷ (0, row (columns (bytes "c") (bytes "d")) (pos 0) (pos 8))
    ∷ []

abbrev values_of : Stream Unit Unit → List (List (DataValue Unit))
values_of [] = []
values_of (ok t ∷ rest) = t.values ∷ values_of rest
values_of (_ ∷ rest) = values_of rest

-- A left join with `d = 8`: the partner that fails the condition adds a row of nulls.
left_filter_test :
    values_of (
      execute_hash_join hash_one plain machine
        (on_keys on (
          some (
            binary BinaryOperator.eq
              (column_ref (column (bytes "d")))
              (constant (int32 (some (pos 8))))
              LogicalType.boolean)))
        left
        (rows_of ones)
        (rows_of twos))
    ≡ (int32 (some (pos 0)) ∷ int32 (some (pos 2)) ∷ int32 none ∷ int32 none ∷ [])
      ∷ (int32 (some (pos 0))
          ∷ int32 (some (pos 2))
          ∷ int32 (some (pos 0))
          ∷ int32 (some (pos 8))
          ∷ [])
      ∷ []
unfolding execute_hash_join scalar max_logical_type typed_op judged unpack_i32
left_filter_test = refl

-- A left join with no right row has the left columns only.
left_empty_test :
    values_of (execute_hash_join hash_one plain machine (on_keys on none) left (rows_of ones) [])
    ≡ (int32 (some (pos 0)) ∷ int32 (some (pos 2)) ∷ []) ∷ []
unfolding execute_hash_join scalar left_only
left_empty_test = refl

execute_hash_join_lem_example :
    execute_hash_join hash_one plain machine {K = Unit}
      (on_keys on none)
      inner
      (rows_of ls)
      (rows_of rs)
    ≡ map ok (nested (first_columns rs (first_columns ls [])) ls rs)
unfolding IsHashed scalar
execute_hash_join_lem_example =
    execute_hash_join_lem hash_one plain machine Unit on ls rs (refl, (refl, (refl, tt)))
      (refl, (refl, tt))
