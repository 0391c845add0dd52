-- ===== src/Expression/Tests.antt =====
-- src/expression/evaluator.rs on rows of the columns "a" and "b".
use kip_sql.Prelude.{◌≡◌, refl, none, some, [], ◌∷◌, false, true}
use kip_sql.Prelude.Int.{pos}
use kip_sql.Prelude.Bytes.{Bytes}
use kip_sql.Prelude.Outcome.{ok}
use kip_sql.Types.{LogicalType}
use kip_sql.Value.{DataValue, int32, utf8, boolean}
use kip_sql.Value.Plain.{plain}
use kip_sql.Tuple.{Tuple}
use kip_sql.Compute.Plain.{machine}
use kip_sql.Expression.{
  Expr, constant, column_ref, in_list, nil, cons, stored_column, Column, catalog_of, agg_call,
  AggKind,
}
use kip_sql.Expression.Names.{bytes, name_of, referenced_columns}
use kip_sql.Expression.Eval.{eval, find_value, eval_with_name}
use kip_sql.Expression.Eval.Shadow.{eval_named, eval_agree, IsComputed}

abbrev text_column : Bytes → Column Unit
text_column name =
    stored_column (record { id = some 0; name = name }) true
      (record {
        column_datatype = LogicalType.integer;
        is_primary = false;
        is_unique = false;
        default = none;
      })

abbrev row : DataValue Unit → Tuple Unit (Expr Unit)
row b = record {
  id = none;
  columns = catalog_of (text_column (bytes "a")) ∷ catalog_of (text_column (bytes "b")) ∷ [];
  values = int32 (some (pos 4)) ∷ b ∷ [];
}

-- `a in (5, 4)`.
abbrev listed : Expr Unit
listed =
    in_list false (column_ref (text_column (bytes "a")))
      (cons (constant (int32 (some (pos 5)))) (cons (constant (int32 (some (pos 4)))) nil))

listed_test : eval plain machine (row (int32 none)) listed ≡ ok (boolean (some true))
unfolding eval
listed_test = refl

name_of_test :
    name_of machine.conversions (
      agg_call true AggKind.count
        (cons (column_ref (text_column (bytes "a"))) (cons listed nil))
        LogicalType.integer)
    ≡ bytes "Count(DISTINCT a, a in (5, 4))"
unfolding name_of
name_of_test = refl

-- `b = 'a'` compares the columns.
eval_shadowed_test :
    eval plain machine (row (utf8 (some (bytes "a")))) (constant (utf8 (some (bytes "a"))))
    ≡ ok (int32 (some (pos 4)))
unfolding find_value eval_with_name name_of
eval_shadowed_test =
    eval_named plain machine (row (utf8 (some (bytes "a")))) (constant (utf8 (some (bytes "a"))))
      (int32 (some (pos 4))) refl

eval_agree_example :
    eval plain machine (row (int32 none)) listed
    ≡ eval plain machine (row (int32 (some (pos 1)))) listed
unfolding IsComputed eval_with_name name_of referenced_columns
eval_agree_example =
    eval_agree plain machine (row (int32 none)) (row (int32 (some (pos 1)))) listed
      (refl, tt, (refl, (refl, tt))) (refl, tt, (refl, (refl, tt))) (refl, tt)
