-- ===== src/Catalog.antt =====
-- src/catalog/column.rs: the description of a column. `D` is the type of decimals, and `R` that of the
-- expressions that a computed column refers to.
pub mod Table
pub mod Root
mod Tests
use kip_sql.Prelude.{ℕ, Bool, false, ◌||◌, Option, none, some}
use kip_sql.Prelude.Bytes.{Bytes}
use kip_sql.Types.{LogicalType, varchar}
use kip_sql.Value.{DataValue}

pub record ColumnSummary : Type 0 where
  pub id : Option ℕ
  pub name : Bytes

pub record ColumnDesc (D : Type 0) : Type 0 where
  pub column_datatype : LogicalType
  pub is_primary : Bool
  pub is_unique : Bool
  pub default : Option (DataValue D)

pub record ColumnCatalog (D R : Type 0) : Type 0 where
  pub summary : ColumnSummary
  pub nullable : Bool
  pub desc : ColumnDesc D
  pub ref_expr : Option R

module _ {D R : Type 0} where
  unfoldable pub new_column : Bytes → Bool → ColumnDesc D → Option R → ColumnCatalog D R
  new_column name nullable desc ref_expr = record {
    summary = record { id = none; name = name };
    nullable = nullable;
    desc = desc;
    ref_expr = ref_expr;
  }

  unfoldable pub new_dummy : Bytes → ColumnCatalog D R
  new_dummy name = record {
    summary = record { id = some 0; name = name };
    nullable = false;
    desc = record {
      column_datatype = varchar none;
      is_primary = false;
      is_unique = false;
      default = none;
    };
    ref_expr = none;
  }

  abbrev pub datatype : ColumnCatalog D R → LogicalType
  datatype col = col.desc.column_datatype

abbrev pub is_index : {D : Type 0} → ColumnDesc D → Bool
is_index d = d.is_unique || d.is_primary
