-- ===== src/Catalog/Table.antt =====
-- src/catalog/table.rs: a table's columns by id and by name, and its indexes.
pub mod Lookup
pub mod Build
use kip_sql.Prelude.{
  ℕ, ◌%◌, ◌^◌, Bool, Option, none, some, List, [], ◌∷◌, ◌++◌, length, Ordering, compare, get_elem?,
  if◌then◌else◌, ◌==◌, ◌&&◌,
}
use kip_sql.Prelude.Bytes.{Bytes, compare_bytes}
use kip_sql.Prelude.Sorted.{find, insert, contains_key, values}
use kip_sql.Prelude.Outcome.{Outcome, ok, err, panic, ◌>>=◌}
use kip_sql.Catalog.{ColumnCatalog}
use kip_sql.Codec.{IndexMeta}

-- src/catalog/mod.rs. The first text names the kind of what is missing or duplicated.
pub data CatalogError : Type 0 where
  not_found duplicated : Bytes → Bytes → CatalogError
  columns_empty : CatalogError

-- The text "column".
abbrev pub column_text : Bytes
column_text = 99 ∷ 111 ∷ 108 ∷ 117 ∷ 109 ∷ 110 ∷ []

pub record TableCatalog (D R : Type 0) : Type 0 where
  pub name : Bytes
  pub column_idxs : List (Bytes × ℕ)
  pub columns : List (ℕ × ColumnCatalog D R)
  pub indexes : List IndexMeta

-- `usize as u32`.
abbrev pub as_u32 : ℕ → ℕ
as_u32 n = n % 2 ^ 32

-- `column_ids[0]` panics on an index of no column.
unfoldable pub find_unique : List IndexMeta → ℕ → Outcome CatalogError (Option IndexMeta)
find_unique [] col_id = ok none
find_unique (meta ∷ metas) col_id =
    let rest = find_unique metas col_id in
    if meta.is_unique
    then elim meta.column_ids [
      | [] ↦ panic
      | id ∷ _ ↦ if id == col_id then ok (some meta) else rest
    ]
    else rest

module _ {D R : Type 0} where
  unfoldable pub get_unique_index : TableCatalog D R → ℕ → Outcome CatalogError (Option IndexMeta)
  unfolding find_unique
  get_unique_index t col_id = find_unique t.indexes col_id

  unfoldable pub get_column_by_id : TableCatalog D R → ℕ → Option (ColumnCatalog D R)
  unfolding find
  get_column_by_id t id = find compare id t.columns

  unfoldable pub get_column_id_by_name : TableCatalog D R → Bytes → Option ℕ
  unfolding find
  get_column_id_by_name t name = find compare_bytes name t.column_idxs

  pub column_at : List (ℕ × ColumnCatalog D R) → Option ℕ → Option (ColumnCatalog D R)
  unfolding find
  column_at columns none = none
  column_at columns (some id) = find compare id columns

  unfoldable pub get_column_by_name : TableCatalog D R → Bytes → Option (ColumnCatalog D R)
  unfolding find column_at
  get_column_by_name t name = column_at t.columns (find compare_bytes name t.column_idxs)

  unfoldable pub contains_column : TableCatalog D R → Bytes → Bool
  unfolding contains_key
  contains_column t name = contains_key compare_bytes name t.column_idxs

  unfoldable pub all_columns : TableCatalog D R → List (ColumnCatalog D R)
  all_columns t = values t.columns

  -- `col.summary.id = Some(id)`.
  abbrev pub with_id : ℕ → ColumnCatalog D R → ColumnCatalog D R
  with_id id col = record col { summary = record { id = some id; name = col.summary.name } }

  -- The table with the column, and the id of the column.
  unfoldable pub add_column :
      TableCatalog D R → ColumnCatalog D R → Outcome CatalogError (TableCatalog D R × ℕ)
  unfolding contains_key insert
  add_column t col =
      let name = col.summary.name in
      let col_id = as_u32 (length t.columns) in
      if contains_key compare_bytes name t.column_idxs
      then err (duplicated column_text name)
      else ok (
        record t {
          column_idxs = insert compare_bytes name col_id t.column_idxs;
          columns = insert compare col_id (with_id col_id col) t.columns;
        },
        col_id,
      )

  unfoldable pub add_index_meta : TableCatalog D R → IndexMeta → TableCatalog D R × IndexMeta
  add_index_meta t index =
      let index' = record index { id = as_u32 (length t.indexes) } in
      (record t { indexes = t.indexes ++ (index' ∷ []) }, index')

  -- The loop of `new`.
  unfoldable pub add_columns :
      TableCatalog D R → List (ColumnCatalog D R) → Outcome CatalogError (TableCatalog D R)
  unfolding add_column
  add_columns t [] = ok t
  add_columns t (col ∷ cols) = add_column t col >>= λ added. add_columns added.0 cols

  unfoldable pub new_table :
      Bytes → List (ColumnCatalog D R) → Outcome CatalogError (TableCatalog D R)
  unfolding add_columns
  new_table name [] = err columns_empty
  new_table name (col ∷ cols) =
      add_columns (record { name = name; column_idxs = []; columns = []; indexes = [] })
        (col ∷ cols)

  unfoldable pub new_with_indexes :
      Bytes → List (ColumnCatalog D R) → List IndexMeta → Outcome CatalogError (TableCatalog D R)
  unfolding new_table
  new_with_indexes name columns indexes =
      new_table name columns >>= λ catalog. ok (record catalog { indexes = indexes })
