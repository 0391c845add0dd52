-- ===== src/Store/Rows.antt =====
-- src/storage/kip.rs: what `append` and `add_index` do to the entries of the store.
use kip_sql.Prelude.{
  ◌≡◌, refl, ap, ◌∙◌, Bool, true, false, not, ◌&&◌, none, some, map, if◌then◌else◌, Bool-cases, inl,
  inr, is_some, List, arith, Option, ◌∷◌, [],
}
use kip_sql.Prelude.Bytes.{Bytes}
use kip_sql.Prelude.Outcome.{Outcome, ok, err, panic}
use kip_sql.Value.{DataValue, External, value_eq}
use kip_sql.Value.Raw.RoundTrip.{stored, KeepsFixed}
use kip_sql.Tuple.{Tuple, serialize_to}
use kip_sql.Tuple.RoundTrip.{AllMatch, primary_value, deserialize_from-serialize_to}
use kip_sql.Codec.{
  Bincode, encode_tuple, encode_tuple_key, decode_tuple, Index, encode_index, decode_index,
}
use kip_sql.Store.{
  Kv, Cache, Transaction, StorageError, duplicate_primary_key, proceed, convert, type_error, ◌>>=◌,
}
use kip_sql.Store.Methods.{
  append, unless_present, kv_set, same_row, add_index, existing_index, kv_get,
}
use kip_sql.Store.Laws.{IsStore, same, same_refl, same_eq}
use kip_sql.Types.{TypeError}

module _ {S K C D R : Type 0} (kv : Kv S K) (cache : Cache C D R) (x : External D) (z : Bincode D R)
    (laws : IsStore kv) where
  -- A row under its key: what is read back has the stored form of each value.
  abbrev pub Appended :
      Transaction S C
      → Tuple D R
      → Bytes
      → Bool
      → Outcome (StorageError K) (Unit {0}) × Transaction S C
      → Type 0
  Appended t row key true r = r ≡ (err duplicate_primary_key, t)
  Appended t row key false r =
      (s' : S) × (r ≡ (ok tt, record t { tx = s' }))
      × ((bytes : Bytes) × (laws.contents s' key ≡ some bytes)
          × (decode_tuple x row.columns bytes
              ≡ ok (record {
                id = primary_value none row.columns (map stored row.values);
                columns = row.columns;
                values = map stored row.values;
              })))
      × ((j : Bytes) → same j key ≡ false → laws.contents s' j ≡ laws.contents t.tx j)

  written :
      (t : Transaction S C) (row : Tuple D R) (key bytes : Bytes)
      → decode_tuple x row.columns bytes
        ≡ ok (record {
          id = primary_value none row.columns (map stored row.values);
          columns = row.columns;
          values = map stored row.values;
        })
      → Appended t row key false (ok tt, record t { tx = kv.set t.tx key bytes })
  written t row key bytes r = (
    kv.set t.tx key bytes,
    refl,
    (
      bytes,
      laws.set_lem t.tx key bytes key
          ∙ ap (λ b. if b then some bytes else laws.contents t.tx key) (same_refl key),
      r,
    ),
    λ j n. rw (laws.set_lem t.tx key bytes j, n) refl,
  )

  guarded :
      (t : Transaction S C) (row : Tuple D R) (key bytes : Bytes) (is_overwrite : Bool)
      → Appended t row key false (ok tt, record t { tx = kv.set t.tx key bytes })
      → Appended t row key (not is_overwrite && is_some (laws.contents t.tx key)) (
          proceed
            (unless_present kv cache x z is_overwrite key t)
            (λ _. kv_set kv cache x z key bytes))
  guarded t row key bytes true h = h
  guarded t row key bytes false h =
      rw (laws.get_lem t.tx key) (elim (Bool-cases (is_some (laws.contents t.tx key))) [
        | inl found ↦ rw found refl
        | inr free ↦ rw free h
      ])

  -- `append` of a row of storable values with an id whose key is encoded. Without `is_overwrite`, an
  -- entry under the key is an error and nothing changes. Otherwise the row is stored under the key, is
  -- decoded by its columns to the stored form of its values, and no other entry changes.
  pub append_lem :
      (fixed : KeepsFixed x) (t : Transaction S C) (name : Bytes) (row : Tuple D R)
      (id : DataValue D) (key : Bytes) (is_overwrite : Bool)
      → row.id ≡ some id
      → encode_tuple_key name id ≡ ok key
      → AllMatch row.columns row.values
      → Appended t row key
          (not is_overwrite && is_some (laws.contents t.tx key))
          (append kv cache x z name row is_overwrite t)
  unfolding append encode_tuple decode_tuple serialize_to
  append_lem fixed t name row id key is_overwrite e k m =
      let (bytes, w, r) = deserialize_from-serialize_to x fixed row m in
      rw (e, k, w) (guarded t row key bytes is_overwrite (written t row key bytes r))

  set_keeps :
      (t : Transaction S C) (key value j v : Bytes)
      → laws.contents t.tx key ≡ none
      → laws.contents t.tx j ≡ some v
      → laws.contents (kv.set t.tx key value) j ≡ some v
  set_keeps t key value j v free there = elim (Bool-cases (same j key)) [
    | inl e ↦
        let q : laws.contents t.tx j ≡ none = rw (same_eq j key e) free in
        absurd (ground (arith, q, there))
    | inr e ↦ rw (laws.set_lem t.tx key value j, e) there
  ]

  -- The state behind an answer.
  abbrev pub state : {A : Type 0} → Outcome (StorageError K) A × Transaction S C → S
  state r = r.1.tx

  same_row_keeps :
      (olds news : List (DataValue D)) (t : Transaction S C)
      → state (same_row kv cache x z olds news t) ≡ t.tx
  unfolding same_row
  same_row_keeps [] news t = refl
  same_row_keeps (old ∷ olds) [] t = refl
  same_row_keeps (old ∷ olds) (new ∷ news) t = elim (Bool-cases (value_eq x old new)) [
    | inl e ↦ rw e refl
    | inr e ↦ rw e refl
  ]

  compared_keeps :
      (r : Outcome TypeError (List (DataValue D))) (ids : List (DataValue D)) (t : Transaction S C)
      → state (
          proceed
            (convert {F = StorageError K} type_error r, t)
            (λ olds. same_row kv cache x z olds ids))
        ≡ t.tx
  compared_keeps (ok olds) ids t = same_row_keeps olds ids t
  compared_keeps (err e) ids t = refl
  compared_keeps panic ids t = refl

  existing_keeps :
      (t : Transaction S C) (key value : Bytes) (ids : List (DataValue D)) (is_unique : Bool)
      (found : Option Bytes) (j v : Bytes)
      → laws.contents t.tx key ≡ found
      → laws.contents t.tx j ≡ some v
      → laws.contents (state (existing_index kv cache x z key value ids is_unique found t)) j
        ≡ some v
  unfolding existing_index
  existing_keeps t key value ids is_unique none j v free there =
      set_keeps t key value j v free there
  existing_keeps t key value ids true (some bytes) j v e there =
      unfold decode_index in rw (compared_keeps (z.read_ids bytes) ids t) there
  existing_keeps t key value ids false (some bytes) j v e there = there

  added_keeps :
      (t : Transaction S C) (r : Outcome TypeError (Bytes × Bytes)) (ids : List (DataValue D))
      (is_unique : Bool) (j v : Bytes)
      → laws.contents t.tx j ≡ some v
      → laws.contents
          (state (
            proceed
              (convert {F = StorageError K} type_error r, t)
              (λ entry. kv_get kv cache x z entry.0 >>= λ found.
                existing_index kv cache x z entry.0 entry.1 ids is_unique found)))
          j
        ≡ some v
  added_keeps t (ok (key, value)) ids is_unique j v there =
      rw (laws.get_lem t.tx key)
        (existing_keeps t key value ids is_unique (laws.contents t.tx key) j v refl there)
  added_keeps t (err e) ids is_unique j v there = there
  added_keeps t panic ids is_unique j v there = there

  -- `add_index` changes no entry that is in the store, whatever it answers: under a key of a unique
  -- index the first row stays.
  pub add_index-keeps :
      (t : Transaction S C) (name : Bytes) (index : Index D) (ids : List (DataValue D))
      (is_unique : Bool) (j v : Bytes)
      → laws.contents t.tx j ≡ some v
      → laws.contents (state (add_index kv cache x z name index ids is_unique t)) j ≡ some v
  unfolding add_index
  add_index-keeps t name index ids is_unique j v there =
      added_keeps t (encode_index z name index ids) ids is_unique j v there
