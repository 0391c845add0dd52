-- ===== src/Expression.antt =====
-- src/expression/mod.rs and src/expression/agg.rs: scalar expressions, and what is asked of their shape.
-- `D` is the type of decimals.
pub mod Names
pub mod Eval
mod Tests
use kip_sql.Prelude.{ℕ, Bool, true, false, ◌&&◌, ◌||◌, Option, none, some, List, [], ◌∷◌, ◌++◌}
use kip_sql.Prelude.Bytes.{Bytes}
use kip_sql.Types.{LogicalType}
use kip_sql.Value.{DataValue, logical_type}
use kip_sql.Catalog.{ColumnCatalog, ColumnSummary, ColumnDesc}
use kip_sql.Compute.{UnaryOperator}
use kip_sql.Compute.Binary.{BinaryOperator}

pub data AggKind : Type 0 where
  avg max min sum count : AggKind

unfoldable pub allow_distinct : AggKind → Bool
allow_distinct avg = false
allow_distinct max = false
allow_distinct min = false
allow_distinct sum = true
allow_distinct count = true

-- `ScalarExpression`. A column holds the expression that it stands for, if any, so the two are
-- declared together.
mutual
  pub data Expr (D : Type 0) : Type 0 where
    constant : DataValue D → Expr D
    column_ref : Column D → Expr D
    alias : Expr D → Bytes → Expr D
    type_cast : Expr D → LogicalType → Expr D
    null_test : Bool → Expr D → Expr D
    unary : UnaryOperator → Expr D → LogicalType → Expr D
    binary : BinaryOperator → Expr D → Expr D → LogicalType → Expr D
    agg_call : Bool → AggKind → Exprs D → LogicalType → Expr D
    in_list : Bool → Expr D → Exprs D → Expr D

  -- The fields of `ColumnCatalog`, without and with an expression.
  pub data Column (D : Type 0) : Type 0 where
    stored_column : ColumnSummary → Bool → ColumnDesc D → Column D
    derived_column : ColumnSummary → Bool → ColumnDesc D → Expr D → Column D

  -- `Vec<ScalarExpression>`.
  pub data Exprs (D : Type 0) : Type 0 where
    nil : Exprs D
    cons : Expr D → Exprs D → Exprs D

abbrev pub catalog_of : {D : Type 0} → Column D → ColumnCatalog D (Expr D)
catalog_of (stored_column summary nullable desc) = record {
  summary = summary;
  nullable = nullable;
  desc = desc;
  ref_expr = none;
}
catalog_of (derived_column summary nullable desc expr) = record {
  summary = summary;
  nullable = nullable;
  desc = desc;
  ref_expr = some expr;
}

module _ {D : Type 0} where
  unfoldable pub unpack_alias : Expr D → Expr D
  unpack_alias (alias expr _) = unpack_alias expr
  unpack_alias expr = expr

  unfoldable pub return_type : Expr D → LogicalType
  unfolding logical_type
  return_type (constant v) = logical_type v
  return_type (column_ref col) = (catalog_of col).desc.column_datatype
  return_type (binary _ _ _ ty) = ty
  return_type (unary _ _ ty) = ty
  return_type (type_cast _ ty) = ty
  return_type (agg_call _ _ _ ty) = ty
  return_type (null_test _ _) = LogicalType.boolean
  return_type (in_list _ _ _) = LogicalType.boolean
  return_type (alias expr _) = return_type expr

unfoldable mutual
  pub has_count_star : {D : Type 0} → Expr D → Bool
  has_count_star (alias expr _) = has_count_star expr
  has_count_star (type_cast expr _) = has_count_star expr
  has_count_star (null_test _ expr) = has_count_star expr
  has_count_star (unary _ expr _) = has_count_star expr
  has_count_star (binary _ left right _) = has_count_star left || has_count_star right
  has_count_star (agg_call _ _ args _) = any_count_star args
  has_count_star _ = false

  pub any_count_star : {D : Type 0} → Exprs D → Bool
  any_count_star nil = false
  any_count_star (cons e es) = has_count_star e || any_count_star es

unfoldable mutual
  pub nullable : {D : Type 0} → Expr D → Bool
  nullable (constant _) = false
  nullable (column_ref col) = (catalog_of col).nullable
  nullable (alias expr _) = nullable expr
  nullable (type_cast expr _) = nullable expr
  nullable (null_test _ expr) = nullable expr
  nullable (unary _ expr _) = nullable expr
  nullable (binary _ left right _) = nullable left && nullable right
  nullable (in_list _ expr args) = all_nullable args && nullable expr
  nullable (agg_call _ _ args _) = all_nullable args

  pub all_nullable : {D : Type 0} → Exprs D → Bool
  all_nullable nil = true
  all_nullable (cons e es) = nullable e && all_nullable es

unfoldable mutual
  pub has_agg_call : {D : Type 0} → Expr D → Bool
  has_agg_call (agg_call _ _ _ _) = true
  has_agg_call (constant _) = false
  has_agg_call (column_ref _) = false
  has_agg_call (alias expr _) = has_agg_call expr
  has_agg_call (type_cast expr _) = has_agg_call expr
  has_agg_call (null_test _ expr) = has_agg_call expr
  has_agg_call (unary _ expr _) = has_agg_call expr
  has_agg_call (binary _ left right _) = has_agg_call left || has_agg_call right
  has_agg_call (in_list _ expr args) = has_agg_call expr || any_agg_call args

  pub any_agg_call : {D : Type 0} → Exprs D → Bool
  any_agg_call nil = false
  any_agg_call (cons e es) = has_agg_call e || any_agg_call es
