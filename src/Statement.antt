-- ===== src/Statement.antt =====
-- src/execution/executor/dml: statements that change the rows of a table. What the executor below yields
-- is a list; an answer without a value is a stream that ends, and an error or a panic one that fails.
pub mod Insert
pub mod Update
pub mod Tables
pub mod DeleteLaws
mod Tests
use kip_sql.Prelude.{
  ℕ, suc, Bool, true, false, Option, none, some, List, [], ◌∷◌, get_elem?, if◌then◌else◌,
}
use kip_sql.Prelude.Bytes.{Bytes}
use kip_sql.Prelude.Outcome.{Outcome, ok, err, panic}
use kip_sql.Prelude.Outcome
use kip_sql.Value.{DataValue, External, is_null}
use kip_sql.Catalog.{ColumnCatalog}
use kip_sql.Catalog.Table.{TableCatalog, CatalogError, get_unique_index, all_columns}
use kip_sql.Tuple.{Tuple}
use kip_sql.Codec.{IndexMeta, Index, Bincode}
use kip_sql.Store.{
  StorageError, Kv, Cache, Transaction, Method, ◌>>=◌, ◌>>◌, give, fail, abort, convert,
}
use kip_sql.Store.Methods.{del_index, delete}
use kip_sql.Store.Reads.{table}
use kip_sql.Execute.Query.{ExecutorError, catalog_error, storage_error}

-- A statement on a transaction.
abbrev pub Run : Type 0 → Type 0 → Type 0 → Type 0 → Type 0
Run S C K A = Method (Transaction S C) (ExecutorError K) A

-- The rows that the executor below yields.
abbrev pub Input : Type 0 → Type 0 → Type 0 → Type 0
Input K D R = List (Outcome (ExecutorError K) (Tuple D R))

module _ {S C K : Type 0} where
  abbrev pub raised :
      {A : Type 0}
      → Outcome (StorageError K) A × Transaction S C
      → Outcome (ExecutorError K) A × Transaction S C
  raised (r, t) = (convert storage_error r, t)

  -- A call of the transaction.
  abbrev pub storage : {A : Type 0} → Method (Transaction S C) (StorageError K) A → Run S C K A
  storage method t = raised (method t)

  abbrev pub result : {A : Type 0} → Outcome (ExecutorError K) A → Run S C K A
  result r t = (r, t)

  abbrev pub catalog : {A : Type 0} → Outcome CatalogError A → Run S C K A
  catalog r t = (convert catalog_error r, t)

abbrev pub with_meta : ℕ → Option IndexMeta → List (ℕ × IndexMeta) → List (ℕ × IndexMeta)
with_meta i none rest = rest
with_meta i (some meta) rest = (i, meta) ∷ rest

-- The places of the unique columns with their indexes, from the i-th column on.
module _ {D R : Type 0} where
  abbrev pub unique_meta : TableCatalog D R → Option ℕ → Outcome CatalogError (Option IndexMeta)
  unfolding get_unique_index
  unique_meta table_catalog none = ok none
  unique_meta table_catalog (some col_id) = get_unique_index table_catalog col_id

  unfoldable pub unique_metas :
      TableCatalog D R → ℕ → List (ColumnCatalog D R) → Outcome CatalogError (List (ℕ × IndexMeta))
  unfolding get_unique_index
  unique_metas table_catalog i [] = ok []
  unique_metas table_catalog i (col ∷ cols) =
      let found =
        if col.desc.is_unique then unique_meta table_catalog col.summary.id else ok none in
      Outcome.◌>>=◌ found (λ meta.
        Outcome.◌>>=◌ (unique_metas table_catalog (suc i) cols)
          (λ rest. ok (with_meta i meta rest)))

module _ {S K C D R : Type 0} (kv : Kv S K) (cache : Cache C D R) (x : External D)
    (z : Bincode D R) where
  -- The entry of the value in a unique index is removed; a null has none.
  abbrev pub remove_index : Bytes → IndexMeta → Option (DataValue D) → Run S C K (Unit {0})
  unfolding del_index is_null
  remove_index table_name meta none = abort
  remove_index table_name meta (some value) =
      if is_null value
      then give tt
      else storage
          (del_index kv cache x z table_name (record { id = meta.id; column_values = value ∷ [] }))

  unfoldable pub remove_indexes :
      Bytes → List (ℕ × IndexMeta) → List (DataValue D) → Run S C K (Unit {0})
  remove_indexes table_name [] values = give tt
  remove_indexes table_name ((i, meta) ∷ metas) values =
      remove_index table_name meta (get_elem? values i) >> remove_indexes table_name metas values

  unfoldable pub delete_row : Bytes → Option (DataValue D) → Run S C K (Unit {0})
  unfolding delete
  delete_row table_name none = give tt
  delete_row table_name (some tuple_id) = storage (delete kv cache x z table_name tuple_id)

  unfoldable pub delete_rows : Bytes → List (ℕ × IndexMeta) → Input K D R → Run S C K (Unit {0})
  unfolding remove_indexes delete_row
  delete_rows table_name metas [] = give tt
  delete_rows table_name metas (ok tuple ∷ input) =
      remove_indexes table_name metas tuple.values
      >> delete_row table_name tuple.id
      >> delete_rows table_name metas input
  delete_rows table_name metas (err e ∷ input) = fail e
  delete_rows table_name metas (panic ∷ input) = abort

  unfoldable pub execute_delete : Bytes → Input K D R → Run S C K (Unit {0})
  unfolding table all_columns unique_metas delete_rows
  execute_delete table_name input = storage (table kv cache z table_name) >>= λ found. elim found [
    | none ↦ give tt
    | some table_catalog ↦
        catalog (unique_metas table_catalog 0 (all_columns table_catalog)) >>= λ metas.
        delete_rows table_name metas input
  ]
