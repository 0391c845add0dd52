-- ===== src/Execute/Query.antt =====
-- src/execution/mod.rs and src/execution/executor/dql: errors of executors, and the executors that
-- look at one row at a time. src/optimizer/rule/combine_operators.rs: two filters become one.
pub mod FilterLaws
pub mod ProjectionLaws
mod Tests
use kip_sql.Prelude.{ℕ, Bool, true, false, ◌||◌, Option, none, some, List, [], ◌∷◌, map}
use kip_sql.Prelude.Bytes.{Bytes}
use kip_sql.Prelude.Outcome.{Outcome, ok, err, panic, ◌>>=◌}
use kip_sql.Types.{LogicalType, TypeError}
use kip_sql.Value.{DataValue, External, boolean}
use kip_sql.Catalog.{ColumnCatalog}
use kip_sql.Catalog.Table.{CatalogError}
use kip_sql.Tuple.{Tuple}
use kip_sql.Compute.{Machine}
use kip_sql.Compute.Binary.{BinaryOperator}
use kip_sql.Expression.{Expr, binary}
use kip_sql.Expression.Names.{output_columns}
use kip_sql.Expression.Eval.{eval}
use kip_sql.Store.{StorageError, convert}
use kip_sql.Store.Scans.{Projector, project_values, project_columns}

-- The errors of other crates and of the binder come without their content.
pub data ExecutorError (K : Type 0) : Type 0 where
  catalog_error : CatalogError → ExecutorError K
  type_error : TypeError → ExecutorError K
  storage_error : StorageError K → ExecutorError K
  internal_error : Bytes → ExecutorError K
  length_mismatch : ℕ → ℕ → ExecutorError K
  bind_error parser_error io csv abort unknown join_error : ExecutorError K

-- A row of values with the columns that describe them.
abbrev pub Row : Type 0 → Type 0
Row D = Tuple D (Expr D)

-- What a `BoxedExecutor` yields: an error or a panic is the last.
abbrev pub Stream : Type 0 → Type 0 → Type 0
Stream K D = List (Outcome (ExecutorError K) (Row D))

pub record FilterOperator (D : Type 0) : Type 0 where
  pub predicate : Expr D
  pub having : Bool

pub record ValuesOperator (D : Type 0) : Type 0 where
  pub rows : List (List (DataValue D))
  pub columns : List (ColumnCatalog D (Expr D))

module _ {K D : Type 0} where
  -- One row and what comes behind it, or the failure that ends the stream.
  abbrev pub yield_then : Outcome (ExecutorError K) (Row D) → Stream K D → Stream K D
  yield_then (ok tuple) rest = ok tuple ∷ rest
  yield_then failed rest = failed ∷ []

  abbrev pub filtered : Row D → Outcome TypeError (DataValue D) → Stream K D → Stream K D
  filtered tuple (ok (boolean (some true))) rest = ok tuple ∷ rest
  filtered tuple (ok (boolean _)) rest = rest
  filtered tuple (ok _) rest = panic ∷ []
  filtered tuple (err e) rest = err (type_error e) ∷ []
  filtered tuple panic rest = panic ∷ []

  unfoldable pub execute_values : ValuesOperator D → Stream K D
  execute_values op =
      map (λ values. ok (record { id = none; columns = op.columns; values = values })) op.rows

  unfoldable pub execute_dummy : Stream K D
  execute_dummy = []

-- What the storage asks of expressions.
unfoldable pub scalar : {D : Type 0} → External D → Machine D → Projector D (Expr D)
unfolding eval output_columns
scalar x m = record { eval = λ e t. eval x m t e; output_columns = output_columns m.conversions }

module _ {K D : Type 0} (x : External D) (m : Machine D) where
  unfoldable pub execute_filter : Expr D → Stream K D → Stream K D
  unfolding eval
  execute_filter predicate [] = []
  execute_filter predicate (ok tuple ∷ input) =
      filtered tuple (eval x m tuple predicate) (execute_filter predicate input)
  execute_filter predicate (failed ∷ input) = failed ∷ []

  abbrev pub projected : List (Expr D) → Row D → Outcome (ExecutorError K) (Row D)
  unfolding project_values
  projected exprs tuple = convert type_error (
      project_values (scalar x m) exprs tuple >>= λ values.
      ok (record { id = none; columns = project_columns (scalar x m) exprs; values = values }))

  unfoldable pub execute_projection : List (Expr D) → Stream K D → Stream K D
  execute_projection exprs [] = []
  execute_projection exprs (ok tuple ∷ input) =
      yield_then (projected exprs tuple) (execute_projection exprs input)
  execute_projection exprs (failed ∷ input) = failed ∷ []

-- The filter that `CombineFilter` makes of a filter and of the one below it.
unfoldable pub combine_filter :
    {D : Type 0} → FilterOperator D → FilterOperator D → FilterOperator D
combine_filter op child_op = record {
  predicate = binary BinaryOperator.and op.predicate child_op.predicate LogicalType.boolean;
  having = op.having || child_op.having;
}
