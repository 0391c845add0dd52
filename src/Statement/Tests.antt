-- ===== src/Statement/Tests.antt =====
-- src/execution/executor/dml on a store of one table in memory.
use kip_sql.Prelude.{some, [], ◌∷◌, List, ℕ, none, true, false, ◌==◌, ◌≡◌, if◌then◌else◌, inr, refl}
use kip_sql.Prelude.Bytes.{Bytes, compare_bytes, be_bytes}
use kip_sql.Prelude.Outcome.{ok, panic}
use kip_sql.Types.{LogicalType}
use kip_sql.Value.{DataValue, u_int8}
use kip_sql.Codec.{Bincode, IndexMeta}
use kip_sql.Store.{Cache, Transaction}
use kip_sql.Tuple.{Tuple}
use kip_sql.Store.Memory.{Memory, memory, memory-IsStore}
use kip_sql.Statement.Update.{update_rows}
use kip_sql.Catalog.Table.{TableCatalog}
use kip_sql.Catalog.{ColumnCatalog}
use kip_sql.Statement.DeleteLaws.{Keyed, all_keys, delete_rows_lem, IsKeyed, IndexKeys}
use kip_sql.Statement.{delete_rows}
use kip_sql.Value.Plain.{plain}
use kip_sql.Store.Laws.{mem}
use kip_sql.Value.Key.{to_primary_key, to_index_key}

abbrev Catalogs : Type 0
Catalogs = List (Bytes × TableCatalog Unit Unit)

abbrev no_cache : Cache Catalogs Unit Unit
no_cache = record {
  look_up = λ c name. (none, c);
  put = λ c name t. c;
  get_or_insert = λ c name t. (some t, c);
  forget = λ c name. c;
}

abbrev ids_only : Bincode Unit Unit
ids_only = record {
  write_meta = λ m. ok [];
  read_meta = λ b. panic;
  write_ids = λ ids. ok (7 ∷ []);
  read_ids = λ b. ok (u_int8 (some 7) ∷ []);
  write_column = λ m. ok [];
  read_column = λ b. panic;
}

abbrev table : Bytes
table = 116 ∷ []

-- A row of id 9 with the value 3 in a unique column.
abbrev one_row : Transaction Memory Catalogs
unfolding compare_bytes
one_row = record {
  tx = record {
    entries =
        (116 ∷ 50 ∷ 0 ∷ 0 ∷ 0 ∷ 0 ∷ 1 ∷ 0 ∷ 3 ∷ [], some (7 ∷ []))
        ∷ (116 ∷ 51 ∷ 0 ∷ 9 ∷ [], some (0 ∷ 9 ∷ 3 ∷ []))
        ∷ [];
    in_order = ((refl, tt), (tt, tt));
  };
  cache = [];
}

abbrev column : ℕ → ColumnCatalog Unit Unit
column id = record {
  summary = record { id = some id; name = 97 ∷ [] };
  nullable = true;
  desc = record {
    column_datatype = LogicalType.u_tinyint;
    is_primary = id == 0;
    is_unique = id == 1;
    default = none;
  };
  ref_expr = none;
}

abbrev row : DataValue Unit → Tuple Unit Unit
row b = record {
  id = some (u_int8 (some 9));
  columns = column 0 ∷ column 1 ∷ [];
  values = u_int8 (some 9) ∷ b ∷ [];
}

abbrev meta : IndexMeta
meta = record { id = 1; column_ids = 1 ∷ []; name = []; is_unique = true; is_primary = false }

abbrev keyed : List (Keyed Unit Unit)
keyed =
    (
      row (u_int8 (some 3)),
      ((116 ∷ 50 ∷ 0 ∷ 0 ∷ 0 ∷ 0 ∷ 1 ∷ 0 ∷ 3 ∷ []) ∷ [], 116 ∷ 51 ∷ 0 ∷ 9 ∷ []),
    )
    ∷ []

delete_rows_lem_example :
    (s' : Memory) × (delete_rows memory no_cache plain ids_only table
        ((1, meta) ∷ [])
        (ok (row (u_int8 (some 3))) ∷ [])
        one_row
      ≡ (ok tt, record one_row { tx = s' }))
    × ((j : Bytes)
        → memory-IsStore.contents s' j
          ≡ (if mem j (all_keys keyed) then none else memory-IsStore.contents one_row.tx j))
unfolding IsKeyed IndexKeys memory-IsStore to_primary_key be_bytes to_index_key
delete_rows_lem_example =
    delete_rows_lem memory no_cache plain ids_only memory-IsStore one_row table ((1, meta) ∷ [])
      keyed
      (
        (
          (u_int8 (some 9), refl, refl),
          (u_int8 (some 3), refl, inr (refl, (_, [], refl, refl, refl))),
        ),
        tt,
      )
      ((_, refl), ((_, refl), tt)) ((refl, tt), (tt, tt))

-- An update of a null in a unique column makes the key of the null, which is not written yet.
update_null_test :
    (update_rows memory no_cache plain ids_only table
      (record { name = table; column_idxs = []; columns = []; indexes = meta ∷ [] })
      ((some 1, u_int8 (some 5)) ∷ [])
      (ok (row (u_int8 none)) ∷ [])
      one_row).0
    ≡ panic
unfolding update_rows to_index_key
update_null_test = refl
