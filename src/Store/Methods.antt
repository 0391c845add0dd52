-- ===== src/Store/Methods.antt =====
-- src/storage/kip.rs: the methods of `KipTransaction`.
use kip_sql.Prelude.{
  ℕ, Bool, true, false, Option, none, some, List, [], ◌∷◌, ◌++◌, if◌then◌else◌, is_some,
}
use kip_sql.Prelude.Bytes.{Bytes}
use kip_sql.Prelude.Outcome.{Outcome, ok, err, panic}
use kip_sql.Prelude.Outcome
use kip_sql.Types.{TypeError}
use kip_sql.Value.{DataValue, External, value_eq}
use kip_sql.Catalog.{ColumnCatalog, is_index}
use kip_sql.Catalog.Table.{TableCatalog, all_columns, new_table, add_index_meta}
use kip_sql.Tuple.{Tuple}
use kip_sql.Range.{included}
use kip_sql.Codec.{
  IndexMeta, Index, Bincode, tuple_bound, all_index_bound, columns_bound, encode_tuple,
  encode_tuple_key, encode_index, encode_index_key, decode_index, encode_root_table,
  encode_root_table_key, encode_column, encode_index_meta,
}
use kip_sql.Store.{
  StorageError, catalog_error, kip_db_error, type_error, duplicate_primary_key,
  duplicate_unique_value, table_exists, Scan, Kv, Cache, Transaction, Method, ◌>>=◌, ◌>>◌, give,
  fail, abort, convert,
}

module _ {K : Type 0} where
  -- The keys that have a value, up to the end or an error.
  unfoldable pub live_keys : Scan K → Outcome K (List Bytes)
  live_keys [] = ok []
  live_keys (ok (key, some value) ∷ items) =
      Outcome.◌>>=◌ (live_keys items) (λ keys. ok (key ∷ keys))
  live_keys (ok (key, none) ∷ items) = live_keys items
  live_keys (err e ∷ items) = err e
  live_keys (panic ∷ items) = panic

  -- The values, up to the end or an error: `try_next().ok().flatten()`.
  unfoldable pub live_values : Scan K → List Bytes
  live_values (ok (key, some value) ∷ items) = value ∷ live_values items
  live_values (ok (key, none) ∷ items) = live_values items
  live_values _ = []

module _ {S K C D R : Type 0} (kv : Kv S K) (cache : Cache C D R) (x : External D)
    (z : Bincode D R) where
  abbrev pub Do : Type 0 → Type 0
  Do A = Method (Transaction S C) (StorageError K) A

  -- The calls of the store.
  abbrev pub kv_get : Bytes → Do (Option Bytes)
  kv_get key t = (convert kip_db_error (kv.get t.tx key), t)

  abbrev pub kv_set : Bytes → Bytes → Do (Unit {0})
  kv_set key value t = (ok tt, record t { tx = kv.set t.tx key value })

  abbrev pub removed :
      Transaction S C → Outcome K S → Outcome (StorageError K) (Unit {0}) × Transaction S C
  removed t (ok tx) = (ok tt, record t { tx = tx })
  removed t (err e) = (err (kip_db_error e), t)
  removed t panic = (panic, t)

  abbrev pub kv_remove : Bytes → Do (Unit {0})
  kv_remove key t = removed t (kv.remove t.tx key)

  abbrev pub kv_iter : Bytes × Bytes → Do (Scan K)
  kv_iter bound t = (convert kip_db_error (kv.iter t.tx (included bound.0) (included bound.1)), t)

  abbrev pub try : {A : Type 0} → Outcome TypeError A → Do A
  try r t = (convert type_error r, t)

  unfoldable pub remove_keys : List Bytes → Do (Unit {0})
  remove_keys [] = give tt
  remove_keys (key ∷ keys) = kv_remove key >> remove_keys keys

  -- `_drop_data`.
  unfoldable pub drop_bound : Bytes × Bytes → Do (Unit {0})
  unfolding live_keys remove_keys
  drop_bound bound = do
    iter ← kv_iter bound
    keys ← λ t. (convert kip_db_error (live_keys iter), t)
    remove_keys keys

  unfoldable pub drop_data : Bytes → Do (Unit {0})
  unfolding drop_bound tuple_bound all_index_bound
  drop_data table_name =
      drop_bound (tuple_bound table_name) >> drop_bound (all_index_bound table_name)

  abbrev pub forget : Bytes → Do (Unit {0})
  forget table_name t = (ok tt, record t { cache = cache.forget t.cache table_name })

  unfoldable pub drop_table : Bytes → Do (Unit {0})
  unfolding drop_data drop_bound columns_bound encode_root_table_key
  drop_table table_name = do
    drop_data table_name
    drop_bound (columns_bound table_name)
    kv_remove (encode_root_table_key table_name)
    forget table_name

  -- The entry of a unique index must be absent, or belong to the same row.
  unfoldable pub same_row : List (DataValue D) → List (DataValue D) → Do (Unit {0})
  unfolding value_eq
  same_row (old ∷ _) (new ∷ _) = if value_eq x old new then give tt else fail duplicate_unique_value
  same_row _ _ = abort

  unfoldable pub existing_index :
      Bytes → Bytes → List (DataValue D) → Bool → Option Bytes → Do (Unit {0})
  unfolding same_row decode_index
  existing_index key value tuple_ids is_unique none = kv_set key value
  existing_index key value tuple_ids true (some bytes) =
      try (decode_index z bytes) >>= λ old_tuple_ids. same_row old_tuple_ids tuple_ids
  existing_index key value tuple_ids false (some bytes) = abort

  unfoldable pub add_index : Bytes → Index D → List (DataValue D) → Bool → Do (Unit {0})
  unfolding existing_index encode_index
  add_index table_name index tuple_ids is_unique =
      try (encode_index z table_name index tuple_ids) >>= λ entry.
      kv_get entry.0 >>= λ found. existing_index entry.0 entry.1 tuple_ids is_unique found

  unfoldable pub del_index : Bytes → Index D → Do (Unit {0})
  unfolding encode_index_key
  del_index table_name index = try (encode_index_key table_name index) >>= kv_remove

  abbrev pub unless_present : Bool → Bytes → Do (Unit {0})
  unless_present true key = give tt
  unless_present false key =
      kv_get key >>= λ found. if is_some found then fail duplicate_primary_key else give tt

  unfoldable pub append : Bytes → Tuple D R → Bool → Do (Unit {0})
  unfolding encode_tuple
  append table_name tuple is_overwrite = try (encode_tuple x table_name tuple) >>= λ entry.
      unless_present is_overwrite entry.0 >> kv_set entry.0 entry.1

  unfoldable pub delete : Bytes → DataValue D → Do (Unit {0})
  unfolding encode_tuple_key
  delete table_name tuple_id = try (encode_tuple_key table_name tuple_id) >>= kv_remove

  -- The names "pk_" and "uk_" of an index, before that of its column.
  abbrev pub index_name : Bool → Bytes → Bytes
  index_name true name = (112 ∷ 107 ∷ 95 ∷ []) ++ name
  index_name false name = (117 ∷ 107 ∷ 95 ∷ []) ++ name

  abbrev pub meta_of : ColumnCatalog D R → ℕ → IndexMeta
  meta_of col col_id = record {
    id = 0;
    column_ids = col_id ∷ [];
    name = index_name col.desc.is_primary col.summary.name;
    is_unique = col.desc.is_unique;
    is_primary = col.desc.is_primary;
  }

  abbrev pub store_meta : TableCatalog D R × IndexMeta → Do (TableCatalog D R)
  unfolding encode_index_meta
  store_meta (table, meta) =
      try (encode_index_meta z table.name meta) >>= λ entry. kv_set entry.0 entry.1 >> give table

  -- The columns of `create_index_meta_for_table`, those of an index alone.
  unfoldable pub create_metas : List (ColumnCatalog D R) → TableCatalog D R → Do (TableCatalog D R)
  unfolding add_index_meta
  create_metas [] table = give table
  create_metas (col ∷ cols) table =
      (elim col.summary.id [
        | none ↦ give table
        | some col_id ↦
            if is_index col.desc
            then store_meta (add_index_meta table (meta_of col col_id))
            else give table
      ])
      >>= create_metas cols

  unfoldable pub create_index_meta_for_table : TableCatalog D R → Do (TableCatalog D R)
  unfolding create_metas all_columns
  create_index_meta_for_table table = create_metas (all_columns table) table

  unfoldable pub store_columns : Bytes → List (ColumnCatalog D R) → Do (Unit {0})
  unfolding encode_column
  store_columns table_name [] = give tt
  store_columns table_name (col ∷ cols) = try (encode_column z table_name col) >>= λ entry.
      kv_set entry.0 entry.1 >> store_columns table_name cols

  abbrev pub cache_put : Bytes → TableCatalog D R → Do (Unit {0})
  cache_put name table t = (ok tt, record t { cache = cache.put t.cache name table })

  -- `create_table` where the table is new.
  unfoldable pub create_new : Bytes → List (ColumnCatalog D R) → Do Bytes
  unfolding new_table create_index_meta_for_table store_columns
  create_new table_name columns = do
    table ← λ t. (convert catalog_error (new_table table_name columns), t)
    table_catalog ← create_index_meta_for_table table
    store_columns table_name (all_columns table_catalog)
    cache_put table_name table_catalog
    give table_name

  unfoldable pub create_table : Bytes → List (ColumnCatalog D R) → Bool → Do Bytes
  unfolding create_new encode_root_table
  create_table table_name columns if_not_exists = try (encode_root_table table_name) >>= λ entry.
      kv_get entry.0 >>= λ found.
      if is_some found
      then if if_not_exists then give table_name else fail table_exists
      else (kv_set entry.0 entry.1 >> create_new table_name columns)
