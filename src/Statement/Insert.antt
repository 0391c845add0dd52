-- ===== src/Statement/Insert.antt =====
-- src/execution/executor/dml/insert.rs: the insertion of rows. The hash map from the ids of columns to
-- values is a list with later values in front; since the ids of the columns of a table differ, a value
-- that is taken out of it is not looked up again. The text of a column in an error is an argument.
use kip_sql.Prelude.{
  ℕ, Bool, true, false, not, ◌&&◌, Option, none, some, List, [], ◌∷◌, ◌++◌, ◌==◌, if◌then◌else◌,
}
use kip_sql.Prelude.Bytes.{Bytes}
use kip_sql.Prelude.Outcome.{Outcome, ok, err, panic}
use kip_sql.Prelude.Outcome
use kip_sql.Types.{TypeError}
use kip_sql.Value.{DataValue, External, is_null, none_of}
use kip_sql.Catalog.{ColumnCatalog, datatype}
use kip_sql.Catalog.Table.{TableCatalog, get_unique_index}
use kip_sql.Tuple.{Tuple}
use kip_sql.Codec.{IndexMeta, Bincode}
use kip_sql.Store.{Kv, Cache, ◌>>=◌, ◌>>◌, give, fail, abort, convert}
use kip_sql.Store.Methods.{append, add_index}
use kip_sql.Store.Reads.{table}
use kip_sql.Expression.Names.{bytes}
use kip_sql.Execute.Query.{ExecutorError, internal_error, type_error}
use kip_sql.Statement.{Run, Input, storage, result, catalog}

abbrev pub unwrap : {E A : Type 0} → Option A → Outcome E A
unwrap none = panic
unwrap (some a) = ok a

unfoldable pub value_of : {D : Type 0} → List (ℕ × DataValue D) → ℕ → Option (DataValue D)
value_of [] id = none
value_of ((id', v) ∷ rest) id = let later = value_of rest id in if id' == id then some v else later

module _ {D R : Type 0} where
  -- The values by the ids of their columns.
  unfoldable pub tuple_map :
      {E : Type 0}
      → List (ColumnCatalog D R)
      → List (DataValue D)
      → List (ℕ × DataValue D)
      → Outcome E (List (ℕ × DataValue D))
  tuple_map cols [] acc = ok acc
  tuple_map [] (v ∷ vs) acc = panic
  tuple_map (col ∷ cols) (v ∷ vs) acc = elim col.summary.id [
    | none ↦ tuple_map cols vs acc
    | some id ↦ tuple_map cols vs ((id, v) ∷ acc)
  ]

  -- The id of the first primary column.
  unfoldable pub primary_id : List (ColumnCatalog D R) → Option ℕ
  primary_id [] = none
  primary_id (col ∷ cols) =
      let rest = primary_id cols in if col.desc.is_primary then col.summary.id else rest

  -- `or_else(default_value).unwrap_or_else(none)`.
  abbrev pub filled :
      {E : Type 0}
      → (TypeError → E)
      → ColumnCatalog D R
      → Option (DataValue D)
      → Outcome E (DataValue D)
  unfolding none_of
  filled f col (some v) = ok v
  filled f col none = elim col.desc.default [
    | some v ↦ ok v
    | none ↦ convert f (none_of (datatype col))
  ]

-- Values of unique columns with the ids of their rows, by the column.
abbrev pub Uniques : Type 0 → Type 0
Uniques D = List (Option ℕ × List (DataValue D × DataValue D))

abbrev pub same_id : Option ℕ → Option ℕ → Bool
same_id none none = true
same_id (some a) (some b) = a == b
same_id _ _ = false

unfoldable pub push_unique :
    {D : Type 0} → Option ℕ → DataValue D × DataValue D → Uniques D → Uniques D
push_unique id pair [] = (id, pair ∷ []) ∷ []
push_unique id pair ((id', pairs) ∷ rest) =
    let later = push_unique id pair rest in
    if same_id id' id then (id', pairs ++ (pair ∷ [])) ∷ rest else (id', pairs) ∷ later

abbrev pub not_null_text : {D R : Type 0} → (ColumnCatalog D R → Bytes) → ColumnCatalog D R → Bytes
not_null_text show_column col =
    bytes "Non-null fields do not allow null values to be passed in: " ++ show_column col

module _ {K D R : Type 0} (show_column : ColumnCatalog D R → Bytes) where
  -- The columns and values of the stored row, and the unique values that it adds.
  unfoldable pub fill_columns :
      DataValue D
      → List (ℕ × DataValue D)
      → List (ℕ × ColumnCatalog D R)
      → Uniques D
      → Outcome (ExecutorError K) ((List (ColumnCatalog D R) × List (DataValue D)) × Uniques D)
  unfolding value_of is_null push_unique
  fill_columns tuple_id values [] uniques = ok (([], []), uniques)
  fill_columns tuple_id values ((col_id, col) ∷ cols) uniques =
      Outcome.◌>>=◌ (filled type_error col (value_of values col_id)) (λ value.
        if is_null value && not col.nullable
        then err (internal_error (not_null_text show_column col))
        else Outcome.◌>>=◌
            (fill_columns tuple_id values cols (
              if col.desc.is_unique && not (is_null value)
              then push_unique col.summary.id (tuple_id, value) uniques
              else uniques))
            (λ ((columns, vs), later). ok ((col ∷ columns, value ∷ vs), later)))

  -- The row to be stored, with the id of the primary column that the first row has set.
  unfoldable pub stored_row :
      TableCatalog D R
      → Option ℕ
      → Uniques D
      → Tuple D R
      → Outcome (ExecutorError K) (Tuple D R × ℕ × Uniques D)
  unfolding tuple_map value_of primary_id fill_columns
  stored_row table_catalog primary_key uniques tuple =
      Outcome.◌>>=◌ (tuple_map tuple.columns tuple.values []) (λ values.
        Outcome.◌>>=◌
          (unwrap (elim primary_key [ some id ↦ some id | none ↦ primary_id tuple.columns ]))
          (λ primary. Outcome.◌>>=◌ (unwrap (value_of values primary)) (λ tuple_id.
            Outcome.◌>>=◌ (fill_columns tuple_id values table_catalog.columns uniques)
              (λ ((columns, vs), later).
                ok (
                  record { id = some tuple_id; columns = columns; values = vs },
                  primary,
                  later,
                )))))

module _ {S K C D R : Type 0} (show_column : ColumnCatalog D R → Bytes) (kv : Kv S K)
    (cache : Cache C D R) (x : External D) (z : Bincode D R) where
  -- The loop over the rows, with the unique values that it collects.
  unfoldable pub insert_rows :
      Bytes → TableCatalog D R → Bool → Option ℕ → Uniques D → Input K D R → Run S C K (Uniques D)
  unfolding stored_row append
  insert_rows name table_catalog is_overwrite primary uniques [] = give uniques
  insert_rows name table_catalog is_overwrite primary uniques (ok tuple ∷ input) =
      result (stored_row show_column table_catalog primary uniques tuple) >>= λ (row, id, later).
      storage (append kv cache x z name row is_overwrite)
      >> insert_rows name table_catalog is_overwrite (some id) later input
  insert_rows name table_catalog is_overwrite primary uniques (err e ∷ input) = fail e
  insert_rows name table_catalog is_overwrite primary uniques (panic ∷ input) = abort

  unfoldable pub add_values :
      Bytes → IndexMeta → List (DataValue D × DataValue D) → Run S C K (Unit {0})
  unfolding add_index
  add_values name meta [] = give tt
  add_values name meta ((tuple_id, value) ∷ pairs) =
      storage (
        add_index kv cache x z name (record { id = meta.id; column_values = value ∷ [] })
          (tuple_id ∷ []) true)
      >> add_values name meta pairs

  abbrev pub add_found :
      Bytes → List (DataValue D × DataValue D) → Option IndexMeta → Run S C K (Unit {0})
  unfolding add_values
  add_found name pairs none = give tt
  add_found name pairs (some meta) = add_values name meta pairs

  unfoldable pub add_uniques : Bytes → TableCatalog D R → Uniques D → Run S C K (Unit {0})
  unfolding get_unique_index add_values
  add_uniques name table_catalog [] = give tt
  add_uniques name table_catalog ((col_id, pairs) ∷ uniques) = result (unwrap col_id) >>= λ id.
      catalog (get_unique_index table_catalog id) >>= λ meta.
      add_found name pairs meta >> add_uniques name table_catalog uniques

  unfoldable pub execute_insert : Bytes → Bool → Input K D R → Run S C K (Unit {0})
  unfolding table insert_rows add_uniques
  execute_insert name is_overwrite input = storage (table kv cache z name) >>= λ found. elim found [
    | none ↦ give tt
    | some table_catalog ↦ insert_rows name table_catalog is_overwrite none [] input >>= λ uniques.
        add_uniques name table_catalog uniques
  ]
