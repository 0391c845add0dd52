-- ===== src/Store/Tests.antt =====
-- src/storage/kip.rs on a store of one table in memory.
use kip_sql.Prelude.{◌≡◌, ◌⊎◌, refl, true, false, some, none, List, [], ◌∷◌, arith, map}
use kip_sql.Prelude.Bytes.{Bytes, compare_bytes, be_bytes}
use kip_sql.Prelude.Outcome.{ok, panic}
use kip_sql.Types.{LogicalType}
use kip_sql.Catalog.{ColumnCatalog}
use kip_sql.Catalog.Table.{all_columns, TableCatalog}
use kip_sql.Value.{u_int8}
use kip_sql.Value.Plain.{plain, plain-KeepsFixed}
use kip_sql.Tuple.{Tuple}
use kip_sql.Codec.{
  Bincode, CodecType, encode_tuple_key, encode_root_table_key, IndexMeta, encode_index_key,
}
use kip_sql.Codec.Prefix.{AboveTags}
use kip_sql.Codec.Isolation.{StoredKey}
use kip_sql.Store.Lookup.{next_tuple-append, at_value}
use kip_sql.Store.IndexScan.{next_tuple}
use kip_sql.Store.{◌>>◌, Cache, Transaction}
use kip_sql.Store.Methods.{append, drop_data, drop_table, add_index}
use kip_sql.Store.Memory.{Memory, memory, memory-IsStore, KeyNotFound}
use kip_sql.Store.Laws.{Item}
use kip_sql.Store.Rows.{Appended, append_lem, add_index-keeps, state}
use kip_sql.Store.Drop.{drop_data_lem, IsOther}
use kip_sql.Store.DropTable.{drop_table_lem, Dropped}
use kip_sql.Store.Scans.{Projector, scan_rows, tuple_projection}
use kip_sql.Store.ScanLaws.{scan_rows_lem, over, row_of, cut}
use kip_sql.Value.Key.{to_primary_key, to_index_key}
use kip_sql.Value.Raw.RoundTrip.{stored}

abbrev Catalogs : Type 0
Catalogs = List (Bytes × TableCatalog Unit Unit)

abbrev no_cache : Cache Catalogs Unit Unit
no_cache = record {
  look_up = λ c name. (none, c);
  put = λ c name t. c;
  get_or_insert = λ c name t. (some t, c);
  forget = λ c name. c;
}

abbrev ids_only : Bincode Unit Unit
ids_only = record {
  write_meta = λ m. ok [];
  read_meta = λ b. panic;
  write_ids = λ ids. ok (7 ∷ []);
  read_ids = λ b. ok (u_int8 (some 7) ∷ []);
  write_column = λ m. ok [];
  read_column = λ b. panic;
}

abbrev table : Bytes
table = 116 ∷ []

-- A table "t" with a row of id 9.
abbrev one_row : Transaction Memory Catalogs
unfolding compare_bytes
one_row = record {
  tx = record {
    entries =
        (82 ∷ 111 ∷ 111 ∷ 116 ∷ 0 ∷ 116 ∷ [], some table)
        ∷ (116 ∷ 51 ∷ 0 ∷ 9 ∷ [], some (0 ∷ 9 ∷ []))
        ∷ [];
    in_order = ((refl, tt), (tt, tt));
  };
  cache = [];
}

abbrev key_column : ColumnCatalog Unit Unit
key_column = record {
  summary = record { id = some 0; name = 97 ∷ [] };
  nullable = false;
  desc = record {
    column_datatype = LogicalType.u_tinyint;
    is_primary = true;
    is_unique = false;
    default = none;
  };
  ref_expr = none;
}

abbrev new_row : Tuple Unit Unit
new_row = record {
  id = some (u_int8 (some 7));
  columns = key_column ∷ [];
  values = u_int8 (some 7) ∷ [];
}

append_lem_example :
    Appended memory no_cache plain ids_only memory-IsStore one_row new_row
      (116 ∷ 51 ∷ 0 ∷ 7 ∷ [])
      false
      (append memory no_cache plain ids_only table new_row false one_row)
unfolding encode_tuple_key to_primary_key memory memory-IsStore be_bytes
append_lem_example =
    append_lem memory no_cache plain ids_only memory-IsStore plain-KeepsFixed one_row table new_row
      (u_int8 (some 7)) (116 ∷ 51 ∷ 0 ∷ 7 ∷ []) false refl refl (tt, omega arith, tt)

add_index-keeps_example :
    memory-IsStore.contents
      (state memory no_cache plain ids_only memory-IsStore (
        add_index memory no_cache plain ids_only table
          (record { id = 1; column_values = u_int8 (some 3) ∷ [] })
          (u_int8 (some 9) ∷ [])
          true
          one_row))
      (116 ∷ 51 ∷ 0 ∷ 9 ∷ [])
    ≡ some (0 ∷ 9 ∷ [])
unfolding memory-IsStore
add_index-keeps_example =
    add_index-keeps memory no_cache plain ids_only memory-IsStore one_row table
      (record { id = 1; column_values = u_int8 (some 3) ∷ [] }) (u_int8 (some 9) ∷ []) true
      (116 ∷ 51 ∷ 0 ∷ 9 ∷ []) (0 ∷ 9 ∷ []) refl

drop_data_lem_example :
    (s' : Memory) × (drop_data memory no_cache plain ids_only table one_row
      ≡ (ok tt, record one_row { tx = s' }))
    × ((key : Bytes)
        → StoredKey ids_only CodecType.tuple table key
          ⊎ StoredKey ids_only CodecType.index table key
        → memory-IsStore.contents s' key ≡ none)
    × ((ty : CodecType) (name key : Bytes)
        → AboveTags name
        → StoredKey ids_only ty name key
        → IsOther memory no_cache plain ids_only memory-IsStore ty name table
        → memory-IsStore.contents s' key ≡ memory-IsStore.contents one_row.tx key)
drop_data_lem_example =
    drop_data_lem memory no_cache plain ids_only memory-IsStore one_row table (omega arith, tt)

drop_table_lem_example :
    (s' : Memory) × (drop_table memory no_cache plain ids_only table one_row
      ≡ (ok tt, record { tx = s'; cache = no_cache.forget one_row.cache table }))
    × Dropped memory no_cache plain ids_only memory-IsStore one_row.tx s' table
unfolding memory-IsStore encode_root_table_key
drop_table_lem_example =
    drop_table_lem memory no_cache plain ids_only memory-IsStore one_row table (omega arith, tt)
      (table, refl)

-- `select a` on the expression that is the first value.
abbrev first_value : Projector Unit Unit
first_value = record {
  eval = λ e t. elim t.values [ [] ↦ panic | v ∷ _ ↦ ok v ];
  output_columns = λ e. key_column;
}

-- A removed row, and two rows.
abbrev items : List Item
items = (1 ∷ [], none) ∷ (2 ∷ [], some (0 ∷ 5 ∷ [])) ∷ (3 ∷ [], some (0 ∷ 6 ∷ [])) ∷ []

scan_rows_lem_example :
    scan_rows plain first_value 4
      (over {K = KeyNotFound} plain first_value (key_column ∷ []) (tt ∷ []) 1 (some 1) items)
    ≡ cut (map (row_of plain first_value (key_column ∷ []) (tt ∷ [])) ((0 ∷ 5 ∷ []) ∷ []))
scan_rows_lem_example =
    scan_rows_lem plain first_value (key_column ∷ []) (tt ∷ []) 3 1 (some 1) items (omega arith)
      (omega arith)

abbrev stored_table : TableCatalog Unit Unit
stored_table = record {
  name = table;
  column_idxs = [];
  columns = (0, key_column) ∷ [];
  indexes = [];
}

abbrev unique_meta : IndexMeta
unique_meta = record {
  id = 1;
  column_ids = 0 ∷ [];
  name = [];
  is_unique = true;
  is_primary = false;
}

next_tuple-append_example :
    (s' : Memory) × ((append memory no_cache plain ids_only table new_row false
          >> add_index memory no_cache plain ids_only table
              (record { id = 1; column_values = u_int8 (some 3) ∷ [] })
              (u_int8 (some 7) ∷ [])
              true)
        one_row
      ≡ (ok tt, record one_row { tx = s' }))
    × ((next_tuple memory plain ids_only first_value s'
          (at_value stored_table unique_meta none (tt ∷ []) (u_int8 (some 3)))).0
        ≡ ok (some new_row))
unfolding encode_index_key encode_tuple_key to_primary_key to_index_key memory memory-IsStore
    be_bytes tuple_projection all_columns compare_bytes stored
next_tuple-append_example =
    next_tuple-append memory no_cache plain ids_only first_value memory-IsStore plain-KeepsFixed
      one_row stored_table unique_meta none none (tt ∷ []) (u_int8 (some 3)) (u_int8 (some 7))
      (116 ∷ 50 ∷ 0 ∷ 0 ∷ 0 ∷ 0 ∷ 1 ∷ 0 ∷ 3 ∷ []) (116 ∷ 51 ∷ 0 ∷ 7 ∷ []) (7 ∷ []) new_row new_row
      refl (tt, omega arith, tt) refl refl refl refl refl refl refl refl refl refl refl refl
