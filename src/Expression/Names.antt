-- ===== src/Expression/Names.antt =====
-- src/expression/mod.rs: the column that an expression puts out, and its name.
use Prim.Native.Char.{code}
use Prim.Native.String.{String}
use kip_sql.Prelude.{
  Bool, true, false, ◌&&◌, Option, none, some, List, [], ◌∷◌, ◌++◌, if◌then◌else◌,
}
use kip_sql.Prelude.Bytes.{Bytes}
use kip_sql.Types.{LogicalType}
use kip_sql.Value.{
  DataValue, null, boolean, float32, float64, int8, int16, int32, int64, u_int8, u_int16, u_int32,
  u_int64, utf8, date32, date64, decimal,
}
use kip_sql.Value.Text.{show_ℕ, show_ℤ, show_bool}
use kip_sql.Value.Cast.{Conversions}
use kip_sql.Catalog.{ColumnCatalog, new_column}
use kip_sql.Compute.{UnaryOperator}
use kip_sql.Compute.Binary.{BinaryOperator}
use kip_sql.Expression.{
  AggKind, allow_distinct, Expr, constant, column_ref, alias, type_cast, null_test, unary, binary,
  agg_call, in_list, Exprs, nil, cons, catalog_of, return_type,
}

-- The bytes of a text of ASCII.
abbrev pub bytes : String → Bytes
bytes String.[] = []
bytes (String.◌∷◌ c s) = code c ∷ bytes s

abbrev pub show_option : {A : Type 0} → (A → Bytes) → Option A → Bytes
show_option show none = bytes "null"
show_option show (some a) = show a

abbrev pub shown : Option Bytes → Bytes
shown none = bytes "null"
shown (some text) = text

module _ {D : Type 0} (y : Conversions D) where
  -- `Display` of a value: src/types/value.rs.
  unfoldable pub show_value : DataValue D → Bytes
  show_value (boolean e) = show_option show_bool e
  show_value (float32 e) = show_option y.show_f32 e
  show_value (float64 e) = show_option y.show_f64 e
  show_value (int8 e) = show_option show_ℤ e
  show_value (int16 e) = show_option show_ℤ e
  show_value (int32 e) = show_option show_ℤ e
  show_value (int64 e) = show_option show_ℤ e
  show_value (u_int8 e) = show_option show_ℕ e
  show_value (u_int16 e) = show_option show_ℕ e
  show_value (u_int32 e) = show_option show_ℕ e
  show_value (u_int64 e) = show_option show_ℕ e
  show_value (utf8 e) = show_option (λ text. text) e
  show_value null = bytes "null"
  show_value (date32 none) = bytes "null"
  show_value (date32 (some v)) = shown (y.show_date v)
  show_value (date64 none) = bytes "null"
  show_value (date64 (some v)) = shown (y.show_date_time v)
  show_value (decimal e) = show_option y.show_decimal e

-- `Display` of a type: the name of its variant in upper case. src/types/mod.rs.
unfoldable pub show_type : LogicalType → Bytes
show_type LogicalType.invalid = bytes "INVALID"
show_type LogicalType.sql_null = bytes "SQLNULL"
show_type LogicalType.boolean = bytes "BOOLEAN"
show_type LogicalType.tinyint = bytes "TINYINT"
show_type LogicalType.u_tinyint = bytes "UTINYINT"
show_type LogicalType.smallint = bytes "SMALLINT"
show_type LogicalType.u_smallint = bytes "USMALLINT"
show_type LogicalType.integer = bytes "INTEGER"
show_type LogicalType.u_integer = bytes "UINTEGER"
show_type LogicalType.bigint = bytes "BIGINT"
show_type LogicalType.u_bigint = bytes "UBIGINT"
show_type LogicalType.float = bytes "FLOAT"
show_type LogicalType.double = bytes "DOUBLE"
show_type (LogicalType.varchar _) = bytes "VARCHAR"
show_type LogicalType.date = bytes "DATE"
show_type LogicalType.date_time = bytes "DATETIME"
show_type (LogicalType.decimal _ _) = bytes "DECIMAL"

unfoldable pub show_binary : BinaryOperator → Bytes
show_binary BinaryOperator.plus = bytes "+"
show_binary BinaryOperator.minus = bytes "-"
show_binary BinaryOperator.multiply = bytes "*"
show_binary BinaryOperator.divide = bytes "/"
show_binary BinaryOperator.modulo = bytes "mod"
show_binary BinaryOperator.string_concat = bytes "&"
show_binary BinaryOperator.gt = bytes ">"
show_binary BinaryOperator.lt = bytes "<"
show_binary BinaryOperator.gt_eq = bytes ">="
show_binary BinaryOperator.lt_eq = bytes "<="
show_binary BinaryOperator.spaceship = bytes "<=>"
show_binary BinaryOperator.eq = bytes "="
show_binary BinaryOperator.not_eq = bytes "!="
show_binary BinaryOperator.and = bytes "&&"
show_binary BinaryOperator.or = bytes "||"
show_binary BinaryOperator.xor = bytes "^"
show_binary BinaryOperator.like = bytes "like"
show_binary BinaryOperator.not_like = bytes "not like"

unfoldable pub show_unary : UnaryOperator → Bytes
show_unary UnaryOperator.positive = bytes "+"
show_unary UnaryOperator.negative = bytes "-"
show_unary UnaryOperator.negation = bytes "!"

-- `Debug` of a kind.
unfoldable pub show_kind : AggKind → Bytes
show_kind AggKind.avg = bytes "Avg"
show_kind AggKind.max = bytes "Max"
show_kind AggKind.min = bytes "Min"
show_kind AggKind.sum = bytes "Sum"
show_kind AggKind.count = bytes "Count"

unfoldable mutual
  unfolding show_value show_type show_binary show_unary show_kind allow_distinct

  -- `output_columns().name()`.
  pub name_of : {D : Type 0} → Conversions D → Expr D → Bytes
  name_of y (column_ref col) = (catalog_of col).summary.name
  name_of y (constant value) = show_value y value
  name_of y (alias expr text) = text
  name_of y (agg_call distinct kind args ty) =
      show_kind kind
      ++ (bytes "("
          ++ ((if allow_distinct kind && distinct then bytes "DISTINCT " else [])
              ++ (names_of y args ++ bytes ")")))
  name_of y (binary op left right ty) =
      bytes "("
      ++ (name_of y left
          ++ (bytes " " ++ (show_binary op ++ (bytes " " ++ (name_of y right ++ bytes ")")))))
  name_of y (unary op expr ty) = show_unary op ++ name_of y expr
  name_of y (null_test negated expr) =
      name_of y expr ++ (bytes " " ++ (if negated then bytes "is not null" else bytes "is null"))
  name_of y (in_list negated expr args) =
      name_of y expr
      ++ (bytes " "
          ++ ((if negated then bytes "not in" else bytes "in")
              ++ (bytes " (" ++ (names_of y args ++ bytes ")"))))
  name_of y (type_cast expr ty) =
      bytes "CAST(" ++ (name_of y expr ++ (bytes " as " ++ (show_type ty ++ bytes ")")))

  -- The names joined by ", ".
  pub names_of : {D : Type 0} → Conversions D → Exprs D → Bytes
  names_of y nil = []
  names_of y (cons e es) = name_of y e ++ more_names y es

  pub more_names : {D : Type 0} → Conversions D → Exprs D → Bytes
  more_names y nil = []
  more_names y (cons e es) = bytes ", " ++ (name_of y e ++ more_names y es)

module _ {D : Type 0} (y : Conversions D) where
  abbrev pub derived : Expr D → ColumnCatalog D (Expr D)
  unfolding name_of return_type new_column
  derived expr =
      new_column (name_of y expr) true
        (record {
          column_datatype = return_type expr;
          is_primary = false;
          is_unique = false;
          default = none;
        })
        (some expr)

  unfoldable pub output_columns : Expr D → ColumnCatalog D (Expr D)
  unfolding name_of return_type new_column
  output_columns (column_ref col) = catalog_of col
  output_columns expr = derived expr

  -- A complex expression is itself a column.
  abbrev pub itself : Bool → Expr D → List (ColumnCatalog D (Expr D))
  unfolding output_columns
  itself only_column_ref expr = if only_column_ref then [] else output_columns expr ∷ []

unfoldable mutual
  unfolding output_columns

  -- `columns_collect`, with the columns that it pushes.
  pub referenced_columns :
      {D : Type 0} → Conversions D → Bool → Expr D → List (ColumnCatalog D (Expr D))
  referenced_columns y only (constant v) = itself y only (constant v)
  referenced_columns y only (column_ref col) =
      itself y only (column_ref col) ++ (catalog_of col ∷ [])
  referenced_columns y only (alias expr text) =
      itself y only (alias expr text) ++ referenced_columns y only expr
  referenced_columns y only (type_cast expr ty) =
      itself y only (type_cast expr ty) ++ referenced_columns y only expr
  referenced_columns y only (null_test negated expr) =
      itself y only (null_test negated expr) ++ referenced_columns y only expr
  referenced_columns y only (unary op expr ty) =
      itself y only (unary op expr ty) ++ referenced_columns y only expr
  referenced_columns y only (binary op left right ty) =
      itself y only (binary op left right ty)
      ++ (referenced_columns y only left ++ referenced_columns y only right)
  referenced_columns y only (agg_call distinct kind args ty) =
      itself y only (agg_call distinct kind args ty) ++ all_referenced y only args
  referenced_columns y only (in_list negated expr args) =
      itself y only (in_list negated expr args)
      ++ (referenced_columns y only expr ++ all_referenced y only args)

  pub all_referenced :
      {D : Type 0} → Conversions D → Bool → Exprs D → List (ColumnCatalog D (Expr D))
  all_referenced y only nil = []
  all_referenced y only (cons e es) = referenced_columns y only e ++ all_referenced y only es
