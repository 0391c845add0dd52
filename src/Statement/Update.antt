-- ===== src/Statement/Update.antt =====
-- src/execution/executor/dml/update.rs: the new values of columns for the rows of a table.
use kip_sql.Prelude.{
  ℕ, suc, Bool, true, false, Option, none, some, List, [], ◌∷◌, get_elem?, set, if◌then◌else◌,
}
use kip_sql.Prelude.Bytes.{Bytes}
use kip_sql.Prelude.Outcome.{Outcome, ok, err, panic}
use kip_sql.Value.{DataValue, External, is_null, value_eq}
use kip_sql.Catalog.{ColumnCatalog}
use kip_sql.Catalog.Table.{TableCatalog, get_unique_index}
use kip_sql.Codec.{IndexMeta, Bincode}
use kip_sql.Store.{Kv, Cache, ◌>>=◌, ◌>>◌, give, fail, abort}
use kip_sql.Store.Methods.{append, add_index, del_index, delete}
use kip_sql.Store.Reads.{table}
use kip_sql.Execute.Query.{ExecutorError}
use kip_sql.Statement.{Run, Input, storage, result, catalog}
use kip_sql.Statement.Insert.{unwrap, same_id}

-- The new values by the ids of their columns, later ones in front.
abbrev pub NewValues : Type 0 → Type 0
NewValues D = List (Option ℕ × DataValue D)

module _ {D R : Type 0} where
  -- A row with fewer values than columns panics.
  unfoldable pub put_values :
      {E : Type 0}
      → List (ColumnCatalog D R)
      → List (DataValue D)
      → NewValues D
      → Outcome E (NewValues D)
  put_values [] vs acc = ok acc
  put_values (col ∷ cols) [] acc = panic
  put_values (col ∷ cols) (v ∷ vs) acc = put_values cols vs ((col.summary.id, v) ∷ acc)

  unfoldable pub collect_values :
      {K : Type 0} → Input K D R → NewValues D → Outcome (ExecutorError K) (NewValues D)
  unfolding put_values
  collect_values [] acc = ok acc
  collect_values (ok tuple ∷ input) acc = elim (put_values tuple.columns tuple.values acc) [
    | ok acc' ↦ collect_values input acc'
    | err e ↦ err e
    | panic ↦ panic
  ]
  collect_values (err e ∷ input) acc = err e
  collect_values (panic ∷ input) acc = panic

unfoldable pub new_value : {D : Type 0} → NewValues D → Option ℕ → Option (DataValue D)
new_value [] id = none
new_value ((id', v) ∷ rest) id =
    let later = new_value rest id in if same_id id' id then some v else later

-- What changes of a row while its columns are gone through.
pub record Changed (D : Type 0) : Type 0 where
  pub id : Option (DataValue D)
  pub values : List (DataValue D)
  pub is_overwrite : Bool

module _ {S K C D R : Type 0} (kv : Kv S K) (cache : Cache C D R) (x : External D)
    (z : Bincode D R) where
  -- A new primary key: the row under the old one is removed.
  abbrev pub replace_id : Bytes → DataValue D → Changed D → Run S C K (Changed D)
  unfolding delete
  replace_id name value c = result (unwrap c.id) >>= λ old_key.
      storage (delete kv cache x z name old_key)
      >> give (record { id = some value; values = c.values; is_overwrite = false })

  abbrev pub index_value : Bytes → IndexMeta → DataValue D → Changed D → Run S C K (Unit {0})
  unfolding add_index is_null
  index_value name meta value c =
      if is_null value
      then give tt
      else (result (unwrap c.id) >>= λ tuple_id. storage (
          add_index kv cache x z name (record { id = meta.id; column_values = value ∷ [] })
            (tuple_id ∷ []) true))

  -- The entry of the old value in the unique index gives way to one of the new value.
  abbrev pub replace_entry :
      Bytes → Option IndexMeta → DataValue D → DataValue D → Changed D → Run S C K (Unit {0})
  unfolding del_index
  replace_entry name none old value c = give tt
  replace_entry name (some meta) old value c =
      storage (del_index kv cache x z name (record { id = meta.id; column_values = old ∷ [] }))
      >> index_value name meta value c

  abbrev pub replace_unique :
      Bytes
      → TableCatalog D R
      → Option ℕ
      → DataValue D
      → DataValue D
      → Changed D
      → Run S C K (Unit {0})
  unfolding get_unique_index value_eq
  replace_unique name table_catalog id old value c =
      if value_eq x value old
      then give tt
      else (result (unwrap id) >>= λ col_id.
          catalog (get_unique_index table_catalog col_id) >>= λ meta.
          replace_entry name meta old value c)

  -- The i-th column of the row, which has a new value.
  abbrev pub change_column :
      Bytes
      → TableCatalog D R
      → ℕ
      → ColumnCatalog D R
      → DataValue D
      → Changed D
      → Run S C K (Changed D)
  change_column name table_catalog i col value c =
      (if col.desc.is_primary then replace_id name value c else give c) >>= λ c'.
      result (unwrap (get_elem? c'.values i)) >>= λ old.
      (if col.desc.is_unique
        then replace_unique name table_catalog col.summary.id old value c'
        else give tt)
      >> give (record c' { values = set c'.values i value })

  unfoldable pub change_columns :
      Bytes
      → TableCatalog D R
      → NewValues D
      → ℕ
      → List (ColumnCatalog D R)
      → Changed D
      → Run S C K (Changed D)
  unfolding new_value delete add_index del_index get_unique_index value_eq is_null
  change_columns name table_catalog news i [] c = give c
  change_columns name table_catalog news i (col ∷ cols) c = elim (new_value news col.summary.id) [
    | none ↦ change_columns name table_catalog news (suc i) cols c
    | some value ↦ change_column name table_catalog i col value c >>= λ c'.
        change_columns name table_catalog news (suc i) cols c'
  ]

  unfoldable pub update_rows :
      Bytes → TableCatalog D R → NewValues D → Input K D R → Run S C K (Unit {0})
  unfolding change_columns append
  update_rows name table_catalog news [] = give tt
  update_rows name table_catalog news (ok tuple ∷ input) =
      change_columns name table_catalog news 0 tuple.columns
        (record { id = tuple.id; values = tuple.values; is_overwrite = true })
      >>= λ c.
          storage (
            append kv cache x z name (record tuple { id = c.id; values = c.values }) c.is_overwrite)
          >> update_rows name table_catalog news input
  update_rows name table_catalog news (err e ∷ input) = fail e
  update_rows name table_catalog news (panic ∷ input) = abort

  unfoldable pub execute_update : Bytes → Input K D R → Input K D R → Run S C K (Unit {0})
  unfolding table collect_values update_rows
  execute_update name values input = storage (table kv cache z name) >>= λ found. elim found [
    | none ↦ give tt
    | some table_catalog ↦
        result (collect_values values []) >>= λ news. update_rows name table_catalog news input
  ]
