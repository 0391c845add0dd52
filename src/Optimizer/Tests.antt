-- ===== src/Optimizer/Tests.antt =====
-- src/optimizer/rule on rows of the columns "a" and "b".
use kip_sql.Prelude.{◌≡◌, refl, Bool, none, some, [], ◌∷◌, false, true, is_eq}
use kip_sql.Prelude.Int.{pos}
use kip_sql.Prelude.Bytes.{Bytes, compare_bytes}
use kip_sql.Catalog.{ColumnCatalog}
use kip_sql.Prelude.Outcome.{ok}
use kip_sql.Types.{LogicalType, max_logical_type}
use kip_sql.Value.{DataValue, int32, logical_type}
use kip_sql.Value.Plain.{plain}
use kip_sql.Compute.Plain.{machine}
use kip_sql.Compute.Binary.{BinaryOperator, typed_op}
use kip_sql.Expression.{Expr, constant, column_ref, binary, stored_column, Column, catalog_of}
use kip_sql.Expression.Names.{bytes}
use kip_sql.Expression.Eval.{eval}
use kip_sql.Execute.Query.{FilterOperator, Row, execute_filter, combine_filter}
use kip_sql.Execute.Query.FilterLaws.{combine_filter_lem}
use kip_sql.Optimizer.{JoinType, new_ops, NewOps, split_conjunctive_predicates, place_parts}
use kip_sql.Optimizer.Conjuncts.{new_ops_lem, holds, holds_ops}

abbrev column : Bytes → Column Unit
column name =
    stored_column (record { id = some 0; name = name }) true
      (record {
        column_datatype = LogicalType.integer;
        is_primary = false;
        is_unique = false;
        default = none;
      })

abbrev row : Row Unit
row = record {
  id = none;
  columns = catalog_of (column (bytes "a")) ∷ catalog_of (column (bytes "b")) ∷ [];
  values = int32 (some (pos 4)) ∷ int32 none ∷ [];
}

abbrev equals : Bytes → DataValue Unit → Expr Unit
equals name v = binary BinaryOperator.eq (column_ref (column name)) (constant v) LogicalType.boolean

-- `a = 4 and b = 1`.
abbrev condition : FilterOperator Unit
condition = record {
  predicate =
      binary BinaryOperator.and (equals (bytes "a") (int32 (some (pos 4))))
        (equals (bytes "b") (int32 (some (pos 1)))) LogicalType.boolean;
  having = false;
}

abbrev placed : NewOps Unit
placed = record {
  left_op = some (record { predicate = equals (bytes "a") (int32 (some (pos 4))); having = false });
  right_op = none;
  common_op =
      some (record { predicate = equals (bytes "b") (int32 (some (pos 1))); having = false });
}

abbrev same_name : ColumnCatalog Unit (Expr Unit) → ColumnCatalog Unit (Expr Unit) → Bool
unfolding compare_bytes
same_name c d = is_eq (compare_bytes c.summary.name d.summary.name)

new_ops_lem_example :
    holds plain machine row condition.predicate ≡ holds_ops plain machine row placed
unfolding eval new_ops split_conjunctive_predicates max_logical_type logical_type typed_op
    place_parts
new_ops_lem_example =
    new_ops_lem plain machine row same_name JoinType.left (catalog_of (column (bytes "a")) ∷ []) []
      condition placed (λ p q ty. refl) ((_, refl), ((_, refl), tt)) refl

combine_filter_lem_example :
    execute_filter {K = Unit} plain machine
      (combine_filter condition condition).predicate
      (ok row ∷ [])
    ≡ execute_filter plain machine condition.predicate
        (execute_filter plain machine condition.predicate (ok row ∷ []))
unfolding eval max_logical_type logical_type typed_op
combine_filter_lem_example =
    combine_filter_lem plain machine condition condition (ok row ∷ [])
      (((_, refl), (_, refl), refl), tt)
