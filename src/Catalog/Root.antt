-- ===== src/Catalog/Root.antt =====
-- src/catalog/root.rs: the tables by name.
use kip_sql.Prelude.{Option, List, [], ◌∷◌, if◌then◌else◌, is_eq}
use kip_sql.Prelude.Bytes.{Bytes, compare_bytes}
use kip_sql.Prelude.Sorted.{find, insert, contains_key}
use kip_sql.Prelude.Outcome.{Outcome, ok, err, ◌>>=◌}
use kip_sql.Catalog.{ColumnCatalog}
use kip_sql.Catalog.Table.{TableCatalog, CatalogError, duplicated, column_text, new_table}

abbrev pub RootCatalog : (D R : Type 0) → Type 0
RootCatalog D R = List (Bytes × TableCatalog D R)

module _ {D R : Type 0} where
  unfoldable pub get_table : RootCatalog D R → Bytes → Option (TableCatalog D R)
  unfolding find
  get_table root name = find compare_bytes name root

  unfoldable pub add_table :
      RootCatalog D R
      → Bytes
      → List (ColumnCatalog D R)
      → Outcome CatalogError (RootCatalog D R × Bytes)
  unfolding contains_key new_table insert
  add_table root table_name columns =
      if contains_key compare_bytes table_name root
      then err (duplicated column_text table_name)
      else (new_table table_name columns >>= λ table.
          ok (insert compare_bytes table_name table root, table_name))

  -- `BTreeMap::retain` on the other names.
  unfoldable pub drop_table : RootCatalog D R → Bytes → RootCatalog D R
  drop_table [] table_name = []
  drop_table ((name, table) ∷ root) table_name =
      let rest = drop_table root table_name in
      if is_eq (compare_bytes name table_name) then rest else (name, table) ∷ rest
