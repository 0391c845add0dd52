-- ===== src/Expression/Eval/Shadow.antt =====
-- src/expression/evaluator.rs: which columns of a row decide the value of an expression.
use kip_sql.Prelude.{◌≡◌, refl, ap, true, none, some, List, [], ◌∷◌, ◌++◌, All}
use kip_sql.Prelude.Outcome.{ok, ◌>>=◌}
use kip_sql.Value.{DataValue, External}
use kip_sql.Catalog.{ColumnCatalog}
use kip_sql.Tuple.{Tuple}
use kip_sql.Compute.{Machine}
use kip_sql.Expression.{
  Expr, constant, column_ref, alias, type_cast, null_test, unary, binary, agg_call, in_list, Exprs,
  nil, cons,
}
use kip_sql.Expression.Names.{name_of, referenced_columns, all_referenced}
use kip_sql.Expression.Eval.{eval, is_in, eval_with_name, negate, Free}
use mathlib.Core.Path.{fun_ext}

-- An expression on a row that has a column of its name has the value of the column.
pub eval_named :
    {D R : Type 0} (x : External D) (m : Machine D) (t : Tuple D R) (e : Expr D) (v : DataValue D)
    → eval_with_name t (name_of m.conversions e) ≡ ok (some v)
    → eval x m t e ≡ ok v
unfolding eval
eval_named x m t (constant value) v h = rw h refl
eval_named x m t (column_ref col) v h = rw h refl
eval_named x m t (alias expr text) v h = rw h refl
eval_named x m t (type_cast expr ty) v h = rw h refl
eval_named x m t (null_test negated expr) v h = rw h refl
eval_named x m t (unary op expr ty) v h = rw h refl
eval_named x m t (binary op left right ty) v h = rw h refl
eval_named x m t (agg_call distinct kind args ty) v h = rw h refl
eval_named x m t (in_list negated expr args) v h = rw h refl

-- There is no aggregate, and no column of the row has the name of an alias or of a computed part.
unfoldable mutual
  pub IsComputed : {D R : Type 0} → Machine D → Tuple D R → Expr D → Type 0
  IsComputed m t (constant value) = Free m t (constant value)
  IsComputed m t (column_ref col) = Unit
  IsComputed m t (alias expr text) = (eval_with_name t text ≡ ok none) × IsComputed m t expr
  IsComputed m t (type_cast expr ty) = Free m t (type_cast expr ty) × IsComputed m t expr
  IsComputed m t (binary op left right ty) =
      Free m t (binary op left right ty) × IsComputed m t left × IsComputed m t right
  IsComputed m t (null_test negated expr) = Free m t (null_test negated expr) × IsComputed m t expr
  IsComputed m t (in_list negated expr args) =
      Free m t (in_list negated expr args) × IsComputed m t expr × AllComputed m t args
  IsComputed m t (unary op expr ty) = Free m t (unary op expr ty) × IsComputed m t expr
  IsComputed m t (agg_call distinct kind args ty) = ⊥

  pub AllComputed : {D R : Type 0} → Machine D → Tuple D R → Exprs D → Type 0
  AllComputed m t nil = Unit
  AllComputed m t (cons e es) = IsComputed m t e × AllComputed m t es

-- Both rows give the same for the name of the column.
abbrev pub AgreeOn : {D R : Type 0} → Tuple D R → Tuple D R → ColumnCatalog D (Expr D) → Type 0
AgreeOn t t' c = eval_with_name t c.summary.name ≡ eval_with_name t' c.summary.name

All-split : {A : Type 0} (P : A → Type 0) (xs ys : List A) → All P (xs ++ ys) → All P xs × All P ys
All-split P [] ys h = (tt, h)
All-split P (a ∷ xs) ys h = let (l, r) = All-split P xs ys h.1 in ((h.0, l), r)

mutual
  unfolding eval IsComputed referenced_columns name_of

  agree :
      {D R : Type 0} (x : External D) (m : Machine D) (t t' : Tuple D R) (e : Expr D)
      → IsComputed m t e
      → IsComputed m t' e
      → All (AgreeOn t t') (referenced_columns m.conversions true e)
      → eval x m t e ≡ eval x m t' e
  agree x m t t' (constant value) h h' a = rw (h, h') refl
  agree x m t t' (column_ref col) h h' a = rw a.0 refl
  agree x m t t' (alias expr text) h h' a = rw (h.0, h'.0) (agree x m t t' expr h.1 h'.1 a)
  agree x m t t' (type_cast expr ty) h h' a = rw (h.0, h'.0, agree x m t t' expr h.1 h'.1 a) refl
  agree x m t t' (binary op left right ty) h h' a =
      let (l, r) =
        All-split (AgreeOn t t') (referenced_columns m.conversions true left)
          (referenced_columns m.conversions true right) a in
      rw (h.0, h'.0, agree x m t t' left h.1 h'.1 l, agree x m t t' right h.2 h'.2 r) refl
  agree x m t t' (null_test negated expr) h h' a =
      rw (h.0, h'.0, agree x m t t' expr h.1 h'.1 a) refl
  agree x m t t' (in_list negated expr args) h h' a =
      let (l, r) =
        All-split (AgreeOn t t') (referenced_columns m.conversions true expr)
          (all_referenced m.conversions true args) a in
      rw (h.0, h'.0, agree x m t t' expr h.1 h'.1 l)
        (ap (λ f. eval x m t' expr >>= λ value. f value >>= λ b. ok (negate negated b))
          (fun_ext (λ value. agree_in x m t t' value args h.2 h'.2 r)))
  agree x m t t' (unary op expr ty) h h' a = rw (h.0, h'.0, agree x m t t' expr h.1 h'.1 a) refl
  agree x m t t' (agg_call distinct kind args ty) h h' a = absurd h

  agree_in :
      {D R : Type 0} (x : External D) (m : Machine D) (t t' : Tuple D R) (value : DataValue D)
      (args : Exprs D)
      → AllComputed m t args
      → AllComputed m t' args
      → All (AgreeOn t t') (all_referenced m.conversions true args)
      → is_in x m t value args ≡ is_in x m t' value args
  agree_in x m t t' value nil h h' a = refl
  agree_in x m t t' value (cons arg args) h h' a =
      let (l, r) =
        All-split (AgreeOn t t') (referenced_columns m.conversions true arg)
          (all_referenced m.conversions true args) a in
      rw (agree x m t t' arg h.0 h'.0 l, agree_in x m t t' value args h.1 h'.1 r) refl

-- Two rows that agree on the columns an expression refers to give it one value, where it has no
-- aggregate and no column of either row has the name of an alias or of a computed part of it.
pub eval_agree :
    {D R : Type 0} (x : External D) (m : Machine D) (t t' : Tuple D R) (e : Expr D)
    → IsComputed m t e
    → IsComputed m t' e
    → All (AgreeOn t t') (referenced_columns m.conversions true e)
    → eval x m t e ≡ eval x m t' e
eval_agree x m t t' e h h' a = agree x m t t' e h h' a
