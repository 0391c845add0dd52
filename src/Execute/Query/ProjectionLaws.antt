-- ===== src/Execute/Query/ProjectionLaws.antt =====
-- The projection of src/execution/executor/dql/projection.rs above another: what it computes and
-- what it reads from the row below by name.
use kip_sql.Prelude.{
  ◌≡◌, refl, ap, arith, Bool, true, false, Option, none, some, List, [], ◌∷◌, All, map, is_eq,
  if◌then◌else◌,
}
use kip_sql.Prelude.Bytes.{Bytes, compare_bytes}
use kip_sql.Prelude.Outcome.{Outcome, ok, err, panic, ◌>>=◌}
use kip_sql.Types.{TypeError}
use kip_sql.Value.{DataValue, External}
use kip_sql.Value.Cast.{Conversions}
use kip_sql.Compute.{Machine}
use kip_sql.Expression.{
  Expr, constant, column_ref, alias, type_cast, null_test, unary, binary, agg_call, in_list,
}
use kip_sql.Expression.Names.{name_of, output_columns}
use kip_sql.Expression.Eval.{eval, eval_with_name, find_value}
use kip_sql.Expression.Eval.Shadow.{eval_named}
use kip_sql.Store.{convert}
use kip_sql.Catalog.{ColumnCatalog}
use kip_sql.Store.Scans.{project_values, project_columns}
use kip_sql.Execute.Query.{
  Row, Stream, ExecutorError, type_error, scalar, execute_projection, yield_then, projected,
}

-- The first of the expressions that puts out a column of the name.
unfoldable pub first_named : {D : Type 0} → Conversions D → List (Expr D) → Bytes → Option (Expr D)
first_named y [] name = none
first_named y (e ∷ es) name =
    let rest = first_named y es name in
    if is_eq (compare_bytes (name_of y e) name) then some e else rest

-- Each expression of the upper projection has the name of one of the lower; the first such one is the
-- expression at its place in the last list.
unfoldable pub ReadFrom :
    {D : Type 0} → Conversions D → List (Expr D) → List (Expr D) → List (Expr D) → Type 0
ReadFrom y lower [] [] = Unit
ReadFrom y lower (u ∷ us) (s ∷ ss) =
    (first_named y lower (name_of y u) ≡ some s) × ReadFrom y lower us ss
ReadFrom y lower _ _ = ⊥

-- The values of a row without the columns that describe them.
abbrev pub row_values :
    {K D : Type 0}
    → Outcome (ExecutorError K) (Row D)
    → Outcome (ExecutorError K) (List (DataValue D))
row_values (ok tuple) = ok tuple.values
row_values (err e) = err e
row_values panic = panic

name-output_columns :
    {D : Type 0} (y : Conversions D) (e : Expr D) → (output_columns y e).summary.name ≡ name_of y e
unfolding output_columns name_of
name-output_columns y (constant value) = refl
name-output_columns y (column_ref col) = refl
name-output_columns y (alias expr text) = refl
name-output_columns y (type_cast expr ty) = refl
name-output_columns y (null_test negated expr) = refl
name-output_columns y (unary op expr ty) = refl
name-output_columns y (binary op left right ty) = refl
name-output_columns y (agg_call distinct kind args ty) = refl
name-output_columns y (in_list negated expr args) = refl

module _ {D : Type 0} (x : External D) (m : Machine D) where
  abbrev pub HasValue : Row D → Expr D → Type 0
  HasValue t e = (v : DataValue D) × (eval x m t e ≡ ok v)

  abbrev values_of : (t : Row D) (es : List (Expr D)) → All (HasValue t) es → List (DataValue D)
  values_of t [] h = []
  values_of t (e ∷ es) h = h.0.0 ∷ values_of t es h.1

  project_values_ok :
      (t : Row D) (es : List (Expr D)) (h : All (HasValue t) es)
      → project_values (scalar x m) es t ≡ ok (values_of t es h)
  unfolding project_values scalar
  project_values_ok t [] h = refl
  project_values_ok t (e ∷ es) ((v, h), hs) = rw (h, project_values_ok t es hs) refl

  -- What a look-up finds in a row: the value of the expression.
  abbrev IsRead : Row D → Expr D → Outcome TypeError (Option (DataValue D)) → Type 0
  IsRead t s found = (v : DataValue D) × (eval x m t s ≡ ok v) × (found ≡ ok (some v))

  here_or_later :
      (b : Bool) (t : Row D) (e s : Expr D) (v : DataValue D) (later : Option (Expr D))
      (found : Outcome TypeError (Option (DataValue D)))
      → eval x m t e ≡ ok v
      → (later ≡ some s → IsRead t s found)
      → (if b then some e else later) ≡ some s
      → IsRead t s (if b then ok (some v) else found)
  here_or_later true t e s v later found h i j = (v, cc, refl)
  here_or_later false t e s v later found h i j = i j

  find_value-project_columns :
      (t : Row D) (es : List (Expr D)) (h : All (HasValue t) es) (name : Bytes) (s : Expr D)
      → first_named m.conversions es name ≡ some s
      → IsRead t s (find_value (project_columns (scalar x m) es) (values_of t es h) name)
  unfolding find_value first_named scalar
  find_value-project_columns t [] h name s j = ground arith
  find_value-project_columns t (e ∷ es) ((v, h), hs) name s j =
      rw (name-output_columns m.conversions e) (
        here_or_later (is_eq (compare_bytes (name_of m.conversions e) name)) t e s v
          (first_named m.conversions es name) _ h (find_value-project_columns t es hs name s) j)

  -- The row that the lower projection makes.
  abbrev below : (t : Row D) (es : List (Expr D)) → All (HasValue t) es → Row D
  below t es h = record {
    id = none;
    columns = project_columns (scalar x m) es;
    values = values_of t es h;
  }

  project_values_twice :
      (t : Row D) (lower upper source : List (Expr D)) (h : All (HasValue t) lower)
      → ReadFrom m.conversions lower upper source
      → project_values (scalar x m) upper (below t lower h) ≡ project_values (scalar x m) source t
  unfolding project_values scalar ReadFrom eval_with_name
  project_values_twice t lower [] [] h r = refl
  project_values_twice t lower (u ∷ us) (s ∷ ss) h (r, rs) =
      let (v, e, found) = find_value-project_columns t lower h (name_of m.conversions u) s r in
      rw (eval_named x m (below t lower h) u v found, e, project_values_twice t lower us ss h rs)
        refl
  project_values_twice t lower [] (s ∷ ss) h r = absurd r
  project_values_twice t lower (u ∷ us) [] h r = absurd r

module _ {K D : Type 0} (x : External D) (m : Machine D) where
  -- A row, if it is one, on which each of the expressions has a value.
  abbrev pub Valued : List (Expr D) → Outcome (ExecutorError K) (Row D) → Type 0
  Valued es (ok t) = All (HasValue x m t) es
  Valued es failed = Unit

  -- The row of the values, if there are such.
  abbrev made :
      List (ColumnCatalog D (Expr D))
      → Outcome TypeError (List (DataValue D))
      → Outcome (ExecutorError K) (Row D)
  made c found =
      convert type_error (found >>= λ vs. ok (record { id = none; columns = c; values = vs }))

  yield-row_values :
      (found : Outcome TypeError (List (DataValue D))) (c c' : List (ColumnCatalog D (Expr D)))
      (rest rest' : Stream K D)
      → map row_values rest ≡ map row_values rest'
      → map row_values (yield_then (made c found) rest)
        ≡ map row_values (yield_then (made c' found) rest')
  yield-row_values (ok vs) c c' rest rest' h = ap (λ l. ok vs ∷ l) h
  yield-row_values (err e) c c' rest rest' h = refl
  yield-row_values panic c c' rest rest' h = refl

  -- Where each expression of the upper of two projections has the name of one of the lower, and each
  -- of the lower has a value on every row of the input, the upper one yields, row by row, the values of
  -- one projection that computes the first lower expression of that name in place of each upper one.
  -- An error or a panic of the input ends both.
  pub execute_projection_lem :
      (lower upper source : List (Expr D)) (input : Stream K D)
      → ReadFrom m.conversions lower upper source
      → All (Valued lower) input
      → map row_values (execute_projection x m upper (execute_projection x m lower input))
        ≡ map row_values (execute_projection x m source input)
  unfolding execute_projection projected
  execute_projection_lem lower upper source [] r h = refl
  execute_projection_lem lower upper source (err e ∷ input) r h = refl
  execute_projection_lem lower upper source (panic ∷ input) r h = refl
  execute_projection_lem lower upper source (ok t ∷ input) r (h, hs) =
      let rest = execute_projection_lem lower upper source input r hs in
      rw (project_values_ok x m t lower h, project_values_twice x m t lower upper source h r)
        (yield-row_values (project_values (scalar x m) source t) _ _ _ _ rest)
