-- ===== src/Store/IndexScan.antt =====
-- src/storage/mod.rs: `IndexIter`, the rows that the ranges of an index select. `next_tuple` calls itself
-- behind each of its steps; here each step goes on with what is left of the values, the range or the ranges.
use kip_sql.Prelude.{
  ℕ, zero, suc, Bool, true, false, Option, none, some, List, [], ◌∷◌, map, if◌then◌else◌,
}
use kip_sql.Prelude.Bytes.{Bytes}
use kip_sql.Prelude.Outcome.{Outcome, ok, err, panic}
use kip_sql.Prelude.Outcome
use kip_sql.Types.{TypeError}
use kip_sql.Value.{DataValue, External}
use kip_sql.Catalog.Table.{TableCatalog, all_columns}
use kip_sql.Tuple.{Tuple}
use kip_sql.Range.{Bound, included, excluded, unbounded, ConstantBinary, scope, eq}
use kip_sql.Codec.{
  IndexMeta, Bincode, encode_index_key, encode_tuple_key, decode_index, decode_tuple, index_bound,
  tuple_bound,
}
use kip_sql.Store.{StorageError, kip_db_error, type_error, Scan, Kv, Method, ◌>>=◌, give, convert}
use kip_sql.Store.Scans.{Projector, tuple_projection, is_zero}

pub data IndexValue (D R : Type 0) : Type 0 where
  primary_key : Tuple D R → IndexValue D R
  normal : DataValue D → IndexValue D R

pub record IndexIter (K D R : Type 0) : Type 0 where
  pub offset : ℕ
  pub limit : Option ℕ
  pub projections : List R
  pub index_meta : IndexMeta
  pub table : TableCatalog D R
  pub index_values : List (IndexValue D R)
  pub binaries : List (ConstantBinary (DataValue D))
  pub scope_iter : Option (Scan K)

-- A method of `IndexIter`.
abbrev pub Finding : Type 0 → Type 0 → Type 0 → Type 0 → Type 0
Finding K D R A = Method (IndexIter K D R) (StorageError K) A

module _ {K D R : Type 0} where
  abbrev pub try : {A : Type 0} → Outcome TypeError A → Finding K D R A
  try r it = (convert type_error r, it)

  unfoldable pub val_to_key : IndexIter K D R → DataValue D → Outcome TypeError Bytes
  unfolding encode_index_key encode_tuple_key
  val_to_key it val =
      if it.index_meta.is_unique
      then encode_index_key it.table.name
          (record { id = it.index_meta.id; column_values = val ∷ [] })
      else encode_tuple_key it.table.name val

  -- `bound_encode` and `check_bound`.
  abbrev pub bound_encode :
      IndexIter K D R → Bytes → Bound (DataValue D) → Outcome TypeError (Bound Bytes)
  unfolding val_to_key
  bound_encode it bound (included val) =
      Outcome.◌>>=◌ (val_to_key it val) (λ key. ok (included key))
  bound_encode it bound (excluded val) =
      Outcome.◌>>=◌ (val_to_key it val) (λ key. ok (excluded key))
  bound_encode it bound unbounded = ok (included bound)

  abbrev pub whole_bound : IndexIter K D R → Bytes × Bytes
  unfolding index_bound tuple_bound
  whole_bound it =
      if it.index_meta.is_unique
      then index_bound it.table.name it.index_meta.id
      else tuple_bound it.table.name

  abbrev pub is_empty : IndexIter K D R → Bool
  is_empty it = elim it.scope_iter [
    | some _ ↦ false
    | none ↦ elim it.index_values [
      | _ ∷ _ ↦ false
      | [] ↦ elim it.binaries [ [] ↦ true | _ ∷ _ ↦ false ]
    ]
  ]

  -- The row that was found, or else what the next step finds.
  abbrev pub or_else :
      Option (Tuple D R) → Finding K D R (Option (Tuple D R)) → Finding K D R (Option (Tuple D R))
  or_else none next = next
  or_else (some tuple) next = give (some tuple)

module _ {S K D R : Type 0} (kv : Kv S K) (x : External D) (z : Bincode D R) (p : Projector D R)
    (tx : S) where
  abbrev pub project : Tuple D R → Finding K D R (Tuple D R)
  unfolding tuple_projection
  project tuple it = elim (tuple_projection p it.limit it.projections tuple) [
    | ok (row, limit) ↦ (ok row, record it { limit = limit })
    | err e ↦ (err (type_error e), it)
    | panic ↦ (panic, it)
  ]

  abbrev pub decoded : Option Bytes → Finding K D R (Option (Tuple D R))
  unfolding decode_tuple project all_columns
  decoded none it = (ok none, it)
  decoded (some bytes) it =
      (try (decode_tuple x (all_columns it.table) bytes) >>= project >>= λ row. give (some row)) it

  abbrev pub get : Bytes → Finding K D R (Option Bytes)
  get key it = (convert kip_db_error (kv.get tx key), it)

  unfoldable pub get_tuple_by_id : DataValue D → Finding K D R (Option (Tuple D R))
  unfolding encode_tuple_key decoded
  get_tuple_by_id tuple_id it =
      (try (encode_tuple_key it.table.name tuple_id) >>= get >>= decoded) it

  abbrev pub value_row : IndexValue D R → Finding K D R (Option (Tuple D R))
  unfolding project get_tuple_by_id
  value_row (primary_key tuple) = project tuple >>= λ row. give (some row)
  value_row (normal tuple_id) = get_tuple_by_id tuple_id

  -- Step 2: the buffered values, of which the offset takes the first.
  unfoldable pub take_values : List (IndexValue D R) → Finding K D R (Option (Tuple D R))
  unfolding value_row
  take_values [] it = (ok none, record it { index_values = [] })
  take_values (value ∷ values) it = elim it.offset [
    | suc offset ↦ take_values values (record it { index_values = values; offset = offset })
    | zero ↦
        (value_row value >>= λ found. or_else found (take_values values))
          (record it { index_values = values })
  ]

  abbrev pub values_of : IndexIter K D R → Bytes → Outcome TypeError (List (IndexValue D R))
  unfolding decode_tuple decode_index all_columns
  values_of it bytes =
      if it.index_meta.is_primary
      then Outcome.◌>>=◌ (decode_tuple x (all_columns it.table) bytes)
          (λ tuple. ok (primary_key tuple ∷ []))
      else Outcome.◌>>=◌ (decode_index z bytes) (λ ids. ok (map normal ids))

  -- Step 3: the items of the range.
  unfoldable pub read_scope : Scan K → Finding K D R (Option (Tuple D R))
  unfolding take_values values_of
  read_scope [] it = (ok none, record it { scope_iter = none })
  read_scope (ok (key, none) ∷ items) it = read_scope items (record it { scope_iter = some items })
  read_scope (ok (key, some value) ∷ items) it =
      (try (values_of it value) >>= take_values >>= λ found. or_else found (read_scope items))
        (record it { scope_iter = some items })
  read_scope (err e ∷ items) it = (err (kip_db_error e), record it { scope_iter = some items })
  read_scope (panic ∷ items) it = (panic, record it { scope_iter = some items })

  abbrev pub exact_values :
      IndexIter K D R → Option Bytes → Outcome TypeError (List (IndexValue D R))
  unfolding decode_tuple decode_index all_columns
  exact_values it none = ok []
  exact_values it (some bytes) =
      if it.index_meta.is_unique
      then Outcome.◌>>=◌ (decode_index z bytes) (λ ids. ok (map normal ids))
      else if it.index_meta.is_primary
      then Outcome.◌>>=◌ (decode_tuple x (all_columns it.table) bytes)
          (λ tuple. ok (primary_key tuple ∷ []))
      else panic

  abbrev pub open_scope : Bound (DataValue D) → Bound (DataValue D) → Finding K D R (Scan K)
  unfolding bound_encode whole_bound
  open_scope min max it =
      (try (bound_encode it (whole_bound it).0 min) >>= λ encode_min.
      try (bound_encode it (whole_bound it).1 max) >>= λ encode_max.
      λ it'. (convert kip_db_error (kv.iter tx encode_min encode_max), it'))
        it

  -- Step 4: what one range or value selects.
  abbrev pub read_binary : ConstantBinary (DataValue D) → Finding K D R (Option (Tuple D R))
  unfolding val_to_key read_scope take_values exact_values open_scope
  read_binary (scope min max) it = (open_scope min max >>= read_scope) it
  read_binary (eq val) it =
      (try (val_to_key it val) >>= get >>= λ found it'.
      (try (exact_values it' found) >>= take_values) it')
        it
  read_binary _ it = (ok none, it)

  unfoldable pub read_binaries :
      List (ConstantBinary (DataValue D)) → Finding K D R (Option (Tuple D R))
  unfolding read_binary
  read_binaries [] it = (ok none, record it { binaries = [] })
  read_binaries (binary ∷ binaries) it =
      (read_binary binary >>= λ found. or_else found (read_binaries binaries))
        (record it { binaries = binaries })

  abbrev pub scope_rest : Option (Scan K) → Finding K D R (Option (Tuple D R))
  unfolding read_scope
  scope_rest none = give none
  scope_rest (some items) = read_scope items

  unfoldable pub next_tuple : Finding K D R (Option (Tuple D R))
  unfolding take_values read_binaries scope_rest
  next_tuple it =
      if is_zero it.limit
      then (ok none, record it { scope_iter = none; binaries = [] })
      else if is_empty it
      then (ok none, record it { scope_iter = none; binaries = [] })
      else (take_values it.index_values >>= λ found. or_else found (λ it'.
            (scope_rest it'.scope_iter >>= λ found'.
            or_else found' (λ it''. read_binaries it''.binaries it''))
              it'))
          it
