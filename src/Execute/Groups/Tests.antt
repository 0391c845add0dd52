-- ===== src/Execute/Groups/Tests.antt =====
-- Aggregation of src/execution/executor/dql/aggregate on rows of the columns "a" and "b".
use kip_sql.Prelude.{◌≡◌, refl, none, some, List, [], ◌∷◌, false, true, map}
use kip_sql.Prelude.Int.{ℤ, pos, of_bits, to_bits, ◌+ℤ◌}
use kip_sql.Prelude.Bytes.{Bytes}
use kip_sql.Prelude.Outcome.{ok, to_option}
use kip_sql.Types.{LogicalType, is_numeric, max_logical_type}
use kip_sql.Value.{DataValue, int32, init}
use kip_sql.Value.Plain.{plain}
use kip_sql.Compute.Plain.{machine}
use kip_sql.Expression.{
  Expr, column_ref, stored_column, Column, catalog_of, agg_call, AggKind, cons, nil,
}
use kip_sql.Expression.Names.{bytes}
use kip_sql.Execute.Query.{Row, scalar}
use kip_sql.Execute.Groups.{
  create_accumulators, execute_simple_agg, execute_hash_agg, hash_loop, sum_acc, count_acc,
  update_all, same_keys,
}
use kip_sql.Execute.Groups.Bags.{fed, add_rows}
use kip_sql.Execute.Groups.Fusion.{hash_loop_lem, Read}
use kip_sql.Execute.Groups.Single.{execute_simple_agg-execute_hash_agg}
use kip_sql.Compute.Binary.{typed_op}
use kip_sql.Compute.{unpack_i32}

abbrev column : Bytes → Column Unit
column name =
    stored_column (record { id = some 0; name = name }) true
      (record {
        column_datatype = LogicalType.integer;
        is_primary = false;
        is_unique = false;
        default = none;
      })

abbrev row : ℤ → ℤ → Row Unit
row a b = record {
  id = none;
  columns = catalog_of (column (bytes "a")) ∷ catalog_of (column (bytes "b")) ∷ [];
  values = int32 (some a) ∷ int32 (some b) ∷ [];
}

abbrev rows : List (Row Unit)
rows = row (pos 0) (pos 2) ∷ row (pos 1) (pos 3) ∷ row (pos 0) (pos 1) ∷ []

-- `sum(b), count(b)`.
abbrev calls : List (Expr Unit)
calls =
    agg_call false AggKind.sum (cons (column_ref (column (bytes "b"))) nil) LogicalType.integer
    ∷ agg_call false AggKind.count (cons (column_ref (column (bytes "b"))) nil) LogicalType.integer
    ∷ []

abbrev groupby : List (Expr Unit)
groupby = column_ref (column (bytes "a")) ∷ []

abbrev int : ℤ → DataValue Unit
int a = int32 (some a)

hash_loop_test :
    hash_loop plain machine {K = Unit} calls groupby [] (map ok rows)
    ≡ ok (
        (int (pos 0) ∷ [], sum_acc (int (pos 3)) ∷ count_acc (pos 2) ∷ [])
        ∷ (int (pos 1) ∷ [], sum_acc (int (pos 3)) ∷ count_acc (pos 1) ∷ [])
        ∷ [])
unfolding hash_loop scalar is_numeric init max_logical_type typed_op unpack_i32 of_bits to_bits ◌+ℤ◌
hash_loop_test = refl

hash_loop_lem_example :
    to_option (hash_loop plain machine {K = Unit} calls groupby [] (map ok rows))
    ≡ fed
        (same_keys plain machine)
        (to_option (create_accumulators plain machine calls))
        (λ accs vs. to_option (update_all plain machine accs vs))
        (add_rows
          (same_keys plain machine)
          ((int (pos 0) ∷ [], int (pos 2) ∷ int (pos 2) ∷ [])
            ∷ (int (pos 1) ∷ [], int (pos 3) ∷ int (pos 3) ∷ [])
            ∷ (int (pos 0) ∷ [], int (pos 1) ∷ int (pos 1) ∷ [])
            ∷ [])
          [])
unfolding Read scalar
hash_loop_lem_example =
    hash_loop_lem plain machine Unit calls groupby rows
      ((int (pos 0) ∷ [], int (pos 2) ∷ int (pos 2) ∷ [])
        ∷ (int (pos 1) ∷ [], int (pos 3) ∷ int (pos 3) ∷ [])
        ∷ (int (pos 0) ∷ [], int (pos 1) ∷ int (pos 1) ∷ [])
        ∷ [])
      (refl, refl, (refl, refl, (refl, refl, tt)))

execute_simple_agg-execute_hash_agg_example :
    execute_simple_agg plain machine {K = Unit} calls (map ok rows)
    ≡ execute_hash_agg plain machine calls [] (map ok rows)
unfolding create_accumulators is_numeric init
execute_simple_agg-execute_hash_agg_example =
    execute_simple_agg-execute_hash_agg plain machine calls
      (sum_acc (int (pos 0)) ∷ count_acc (pos 0) ∷ []) (map ok rows) refl
