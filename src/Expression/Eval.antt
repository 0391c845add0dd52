-- ===== src/Expression/Eval.antt =====
-- src/expression/evaluator.rs: the value of an expression on a row.
pub mod Shadow
use kip_sql.Prelude.{
  ◌≡◌, Bool, true, false, not, Option, none, some, List, [], ◌∷◌, is_eq, if◌then◌else◌,
}
use kip_sql.Prelude.Bytes.{Bytes, compare_bytes}
use kip_sql.Prelude.Outcome.{Outcome, ok, err, panic, ◌>>=◌}
use kip_sql.Types.{TypeError}
use kip_sql.Value
use kip_sql.Value.{DataValue, External, null, boolean, value_eq}
use kip_sql.Value.Cast.{cast}
use kip_sql.Catalog.{ColumnCatalog}
use kip_sql.Tuple.{Tuple}
use kip_sql.Compute.{Machine, unary_op}
use kip_sql.Compute.Binary.{binary_op}
use kip_sql.Expression.{
  Expr, constant, column_ref, alias, type_cast, null_test, unary, binary, agg_call, in_list, Exprs,
  nil, cons,
}
use kip_sql.Expression.Names.{name_of}

module _ {D R : Type 0} where
  -- The value at the place of the first column of the name; a row with fewer values panics.
  unfoldable pub find_value :
      List (ColumnCatalog D R)
      → List (DataValue D)
      → Bytes
      → Outcome TypeError (Option (DataValue D))
  unfolding compare_bytes
  find_value [] values name = ok none
  find_value (col ∷ cols) [] name =
      let rest = find_value cols [] name in
      if is_eq (compare_bytes col.summary.name name) then panic else rest
  find_value (col ∷ cols) (value ∷ values) name =
      let rest = find_value cols values name in
      if is_eq (compare_bytes col.summary.name name) then ok (some value) else rest

  unfoldable pub eval_with_name : Tuple D R → Bytes → Outcome TypeError (Option (DataValue D))
  unfolding find_value
  eval_with_name t name = find_value t.columns t.values name

module _ {D : Type 0} where
  -- The value that was found, or else that of the shape.
  abbrev pub found_or :
      Outcome TypeError (Option (DataValue D))
      → Outcome TypeError (DataValue D)
      → Outcome TypeError (DataValue D)
  found_or (ok (some value)) shape = ok value
  found_or (ok none) shape = shape
  found_or (err e) shape = err e
  found_or panic shape = panic

  abbrev pub null_value : Outcome TypeError (Option (DataValue D)) → Outcome TypeError (DataValue D)
  null_value found = found_or found (ok null)

  abbrev pub negate : Bool → Bool → DataValue D
  negate negated b = boolean (some (if negated then not b else b))

unfoldable mutual
  unfolding eval_with_name name_of cast binary_op unary_op value_eq Value.is_null

  pub eval :
      {D R : Type 0} → External D → Machine D → Tuple D R → Expr D → Outcome TypeError (DataValue D)
  eval x m t (constant value) =
      found_or (eval_with_name t (name_of m.conversions (constant value))) (ok value)
  eval x m t (column_ref col) =
      let found = eval_with_name t (name_of m.conversions (column_ref col)) in
      found_or found (null_value found)
  eval x m t (alias expr text) =
      found_or (eval_with_name t (name_of m.conversions (alias expr text)))
        (found_or (eval_with_name t text) (eval x m t expr))
  eval x m t (type_cast expr ty) =
      found_or (eval_with_name t (name_of m.conversions (type_cast expr ty)))
        (eval x m t expr >>= λ value. cast m.conversions value ty)
  eval x m t (binary op left right ty) =
      found_or (eval_with_name t (name_of m.conversions (binary op left right ty)))
        (eval x m t left >>= λ l. eval x m t right >>= λ r. binary_op m l r op)
  eval x m t (null_test negated expr) =
      found_or (eval_with_name t (name_of m.conversions (null_test negated expr)))
        (eval x m t expr >>= λ value. ok (negate negated (Value.is_null value)))
  eval x m t (in_list negated expr args) =
      found_or (eval_with_name t (name_of m.conversions (in_list negated expr args)))
        (eval x m t expr >>= λ value. is_in x m t value args >>= λ b. ok (negate negated b))
  eval x m t (unary op expr ty) =
      found_or (eval_with_name t (name_of m.conversions (unary op expr ty)))
        (eval x m t expr >>= λ value. unary_op m value op)
  eval x m t (agg_call distinct kind args ty) =
      let found = eval_with_name t (name_of m.conversions (agg_call distinct kind args ty)) in
      found_or found (null_value found)

  -- The loop over the list of an `in`.
  pub is_in :
      {D R : Type 0}
      → External D
      → Machine D
      → Tuple D R
      → DataValue D
      → Exprs D
      → Outcome TypeError Bool
  is_in x m t value nil = ok false
  is_in x m t value (cons arg args) =
      eval x m t arg >>= λ v. if value_eq x v value then ok true else is_in x m t value args

-- No column of the row has the name that the expression puts out.
abbrev pub Free : {D R : Type 0} → Machine D → Tuple D R → Expr D → Type 0
Free m t expr = eval_with_name t (name_of m.conversions expr) ≡ ok none
