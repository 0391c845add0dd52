-- ===== src/Catalog/Tests.antt =====
-- src/catalog/table.rs on a table of two columns.
use kip_sql.Prelude.{◌≡◌, refl, none, [], ◌∷◌, false, true, arith}
use kip_sql.Prelude.Outcome.{ok, err}
use kip_sql.Types.{integer, boolean}
use kip_sql.Catalog.{ColumnCatalog, new_column}
use kip_sql.Catalog.Table.{
  TableCatalog, new_table, get_column_by_name, all_columns, with_id, column_text, duplicated,
}
use kip_sql.Catalog.Table.Lookup.{IsCatalog, find_named, get_column_by_name_lem, id_of}
use kip_sql.Catalog.Table.Build.{number, duplicate, Built, new_table_lem}
use kip_sql.Prelude.Bytes.{compare_bytes}
use kip_sql.Prelude.Sorted.{find}

abbrev col_a : ColumnCatalog Unit Unit
unfolding new_column
col_a =
    new_column (97 ∷ []) false
      (record { column_datatype = integer; is_primary = true; is_unique = false; default = none })
      none

abbrev col_b : ColumnCatalog Unit Unit
unfolding new_column
col_b =
    new_column (98 ∷ []) true
      (record { column_datatype = boolean; is_primary = false; is_unique = false; default = none })
      none

abbrev two_columns : TableCatalog Unit Unit
two_columns = record {
  name = 116 ∷ [];
  column_idxs = (97 ∷ [], 0) ∷ (98 ∷ [], 1) ∷ [];
  columns = (0, with_id 0 col_a) ∷ (1, with_id 1 col_b) ∷ [];
  indexes = [];
}

new_table_test : new_table (116 ∷ []) (col_a ∷ col_b ∷ []) ≡ ok two_columns
unfolding new_table compare_bytes col_b
new_table_test = refl

new_table_lem_example :
    Built
      (116 ∷ [])
      (with_id 0 col_b ∷ with_id 1 col_a ∷ [])
      none
      (new_table (116 ∷ []) (col_b ∷ col_a ∷ []))
unfolding duplicate compare_bytes col_a number
new_table_lem_example = new_table_lem (116 ∷ []) col_b (col_a ∷ []) (omega arith)

new_table_twice :
    new_table (116 ∷ []) (col_a ∷ col_b ∷ col_a ∷ []) ≡ err (duplicated column_text (97 ∷ []))
unfolding new_table compare_bytes col_b
new_table_twice = refl

two_columns-IsCatalog : IsCatalog two_columns
unfolding id_of find col_a col_b
two_columns-IsCatalog = record { numbered = (refl, refl, (refl, refl, tt)); named = λ n. refl }

get_column_by_name_lem_example :
    get_column_by_name two_columns (98 ∷ []) ≡ find_named (98 ∷ []) (all_columns two_columns)
get_column_by_name_lem_example = get_column_by_name_lem two_columns (98 ∷ []) two_columns-IsCatalog
