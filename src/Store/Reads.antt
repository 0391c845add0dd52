-- ===== src/Store/Reads.antt =====
-- src/storage/kip.rs: the methods of `KipTransaction` that read: `table`, `show_tables` and `read`.
use kip_sql.Prelude.{ℕ, Option, none, some, List, [], ◌∷◌}
use kip_sql.Prelude.Bytes.{Bytes}
use kip_sql.Prelude.Outcome.{Outcome, ok, err, panic}
use kip_sql.Prelude.Outcome
use kip_sql.Types.{TypeError}
use kip_sql.Catalog.{ColumnCatalog}
use kip_sql.Catalog.Table.{TableCatalog, new_with_indexes, all_columns}
use kip_sql.Range.{included}
use kip_sql.Codec.{
  IndexMeta, Bincode, columns_bound, index_meta_bound, root_table_bound, tuple_bound, decode_column,
  decode_index_meta, decode_root_table,
}
use kip_sql.Store.{
  StorageError, kip_db_error, type_error, table_not_found, Scan, Kv, Cache, Transaction, Method,
  ◌>>=◌, give, fail, abort, convert,
}
use kip_sql.Store.Methods.{live_values}
use kip_sql.Store.Scans.{KipIter}

-- The loop that decodes the values of a scan, and stops at the first error.
unfoldable pub decode_all :
    {A : Type 0} → (Bytes → Outcome TypeError A) → List Bytes → Outcome TypeError (List A)
decode_all decode [] = ok []
decode_all decode (value ∷ values) =
    Outcome.◌>>=◌ (decode value)
      (λ a. Outcome.◌>>=◌ (decode_all decode values) (λ rest. ok (a ∷ rest)))

-- The loop that passes over what it cannot decode.
abbrev kept :
    {A : Type 0} → Outcome TypeError A → Outcome TypeError (List A) → Outcome TypeError (List A)
kept (ok a) rest = Outcome.◌>>=◌ rest (λ more. ok (a ∷ more))
kept (err _) rest = rest
kept panic rest = panic

unfoldable pub decode_some :
    {A : Type 0} → (Bytes → Outcome TypeError A) → List Bytes → Outcome TypeError (List A)
decode_some decode [] = ok []
decode_some decode (value ∷ values) = kept (decode value) (decode_some decode values)

module _ {S K C D R : Type 0} (kv : Kv S K) (cache : Cache C D R) (z : Bincode D R) where
  abbrev pub Do : Type 0 → Type 0
  Do A = Method (Transaction S C) (StorageError K) A

  -- `Result::ok` on what a step answers; a panic is a panic.
  abbrev pub attempt : {E A : Type 0} → Outcome E A → Do (Option A)
  attempt (ok a) = give (some a)
  attempt (err _) = give none
  attempt panic = abort

  abbrev pub and_then : {A B : Type 0} → Do (Option A) → (A → Do (Option B)) → Do (Option B)
  and_then m f = m >>= λ found. elim found [ none ↦ give none | some a ↦ f a ]

  abbrev pub scan : S → Bytes × Bytes → Outcome (StorageError K) (Scan K)
  scan s bound = convert kip_db_error (kv.iter s (included bound.0) (included bound.1))

  unfoldable pub column_collect : Bytes → S → Outcome (StorageError K) (List (ColumnCatalog D R))
  unfolding columns_bound live_values decode_all decode_column
  column_collect table_name s =
      Outcome.◌>>=◌ (scan s (columns_bound table_name))
        (λ items. convert type_error (decode_all (decode_column z) (live_values items)))

  unfoldable pub index_meta_collect : Bytes → S → Outcome (StorageError K) (List IndexMeta)
  unfolding index_meta_bound live_values decode_some decode_index_meta
  index_meta_collect table_name s =
      Outcome.◌>>=◌ (scan s (index_meta_bound table_name))
        (λ items. convert type_error (decode_some (decode_index_meta z) (live_values items)))

  abbrev pub look_up : Bytes → Do (Option (TableCatalog D R))
  look_up name t = let (found, c) = cache.look_up t.cache name in (ok found, record t { cache = c })

  abbrev pub get_or_insert : Bytes → TableCatalog D R → Do (Option (TableCatalog D R))
  get_or_insert name catalog t =
      let (found, c) = cache.get_or_insert t.cache name catalog in
      (ok found, record t { cache = c })

  -- What `table` does on a name that is not in the cache.
  unfoldable pub load_table : Bytes → Do (Option (TableCatalog D R))
  unfolding column_collect index_meta_collect new_with_indexes
  load_table name =
      and_then (λ t. attempt (column_collect name t.tx) t)
        (λ columns.
          and_then (λ t. attempt (index_meta_collect name t.tx) t)
            (λ indexes.
              and_then (attempt (new_with_indexes name columns indexes)) (get_or_insert name)))

  unfoldable pub table : Bytes → Do (Option (TableCatalog D R))
  unfolding load_table
  table name =
      look_up name >>= λ found. elim found [ none ↦ load_table name | some t ↦ give (some t) ]

  unfoldable pub show_tables : Do (List Bytes)
  unfolding root_table_bound live_values decode_all decode_root_table
  show_tables t = (
    Outcome.◌>>=◌ (scan t.tx root_table_bound)
        (λ items. convert type_error (decode_all decode_root_table (live_values items))),
    t,
  )

  unfoldable pub read : Bytes → Option ℕ × Option ℕ → List R → Do (KipIter K D R)
  unfolding table tuple_bound all_columns
  read table_name bounds projections = table table_name >>= λ found. elim found [
    | none ↦ fail table_not_found
    | some catalog ↦ λ t. (
      Outcome.◌>>=◌ (scan t.tx (tuple_bound table_name)) (λ iter. ok (record {
        offset = elim bounds.0 [ none ↦ 0 | some n ↦ n ];
        limit = bounds.1;
        projections = projections;
        all_columns = all_columns catalog;
        iter = iter;
      })),
      t,
    )
  ]
