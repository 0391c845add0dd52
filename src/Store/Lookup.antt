-- ===== src/Store/Lookup.antt =====
-- src/storage/mod.rs and src/storage/kip.rs: a row that is written with an entry in a unique index is
-- found by that index.
use kip_sql.Prelude.{
  ◌≡◌, refl, ℕ, true, false, Option, none, some, List, [], ◌∷◌, map, ◌∙◌, ap, if◌then◌else◌,
}
use kip_sql.Prelude.Bytes.{Bytes}
use kip_sql.Prelude.Outcome.{ok}
use kip_sql.Value.{DataValue, External}
use kip_sql.Value.Raw.RoundTrip.{stored, KeepsFixed}
use kip_sql.Catalog.Table.{TableCatalog, all_columns}
use kip_sql.Tuple.{Tuple}
use kip_sql.Tuple.RoundTrip.{primary_value, AllMatch}
use kip_sql.Range.{eq}
use kip_sql.Codec.{
  IndexMeta, Bincode, encode_index_key, encode_tuple_key, decode_index, decode_tuple, encode_index,
  Index,
}
use kip_sql.Store.{◌>>◌, Kv, Cache, Transaction}
use kip_sql.Store.Scans.{Projector, tuple_projection, is_zero}
use kip_sql.Store.Laws.{same, IsStore, same_refl}
use kip_sql.Store.IndexScan.{
  IndexIter, next_tuple, take_values, read_binaries, val_to_key, get_tuple_by_id,
}
use kip_sql.Store.Methods.{add_index, existing_index, append}
use kip_sql.Store.Rows.{append_lem}

-- The state in which a read by an index starts, on one value.
abbrev pub at_value :
    {K D R : Type 0}
    → TableCatalog D R
    → IndexMeta
    → Option ℕ
    → List R
    → DataValue D
    → IndexIter K D R
at_value table meta limit projections v = record {
  offset = 0;
  limit = limit;
  projections = projections;
  index_meta = meta;
  table = table;
  index_values = [];
  binaries = eq v ∷ [];
  scope_iter = none;
}

-- The row as a read gives it back.
abbrev pub read_back : {D R : Type 0} → Tuple D R → Tuple D R
read_back row = record {
  id = primary_value none row.columns (map stored row.values);
  columns = row.columns;
  values = map stored row.values;
}

module _ {S K C D R : Type 0} (kv : Kv S K) (cache : Cache C D R) (x : External D) (z : Bincode D R)
    (p : Projector D R) (laws : IsStore kv) where
  found_by :
      (s : S) (table : TableCatalog D R) (meta : IndexMeta) (limit limit' : Option ℕ)
      (projections : List R) (v id : DataValue D) (index_key key ids bytes : Bytes)
      (row row' : Tuple D R)
      → meta.is_unique ≡ true
      → is_zero limit ≡ false
      → encode_index_key table.name (record { id = meta.id; column_values = v ∷ [] }) ≡ ok index_key
      → laws.contents s index_key ≡ some ids
      → decode_index z ids ≡ ok (id ∷ [])
      → encode_tuple_key table.name id ≡ ok key
      → laws.contents s key ≡ some bytes
      → decode_tuple x (all_columns table) bytes ≡ ok row
      → tuple_projection p limit projections row ≡ ok (row', limit')
      → (next_tuple kv x z p s (at_value table meta limit projections v)).0 ≡ ok (some row')
  unfolding next_tuple take_values read_binaries val_to_key get_tuple_by_id
  found_by s table meta limit limit' projections v id index_key key ids bytes row row' u l ei ci di
        et ct dt tp =
      rw (l, u, ei, laws.get_lem s index_key, ci, di, et, laws.get_lem s key, ct, dt, tp) refl

  -- The new entry of a unique index.
  added_lem :
      (t : Transaction S C) (name : Bytes) (index : Index D) (id : DataValue D)
      (index_key ids : Bytes)
      → encode_index_key name index ≡ ok index_key
      → z.write_ids (id ∷ []) ≡ ok ids
      → laws.contents t.tx index_key ≡ none
      → add_index kv cache x z name index (id ∷ []) true t
        ≡ (ok tt, record t { tx = kv.set t.tx index_key ids })
  unfolding add_index encode_index existing_index
  added_lem t name index id index_key ids e w c = rw (e, w, laws.get_lem t.tx index_key, c) refl

  -- A row of storable values whose key and index key are distinct and not in the store yet is appended
  -- and entered in a unique index under a value, its list of one id being written as it is read: then a
  -- read by that index at the value, with a limit that is not 0, finds the projection of the row with
  -- the stored form of its values, where that projection has a value.
  pub next_tuple-append :
      (fixed : KeepsFixed x) (t : Transaction S C) (table : TableCatalog D R) (meta : IndexMeta)
      (limit limit' : Option ℕ) (projections : List R) (v id : DataValue D)
      (index_key key ids : Bytes) (row row' : Tuple D R)
      → row.id ≡ some id
      → AllMatch row.columns row.values
      → all_columns table ≡ row.columns
      → meta.is_unique ≡ true
      → is_zero limit ≡ false
      → encode_index_key table.name (record { id = meta.id; column_values = v ∷ [] }) ≡ ok index_key
      → encode_tuple_key table.name id ≡ ok key
      → z.write_ids (id ∷ []) ≡ ok ids
      → z.read_ids ids ≡ ok (id ∷ [])
      → laws.contents t.tx key ≡ none
      → laws.contents t.tx index_key ≡ none
      → same index_key key ≡ false
      → same key index_key ≡ false
      → tuple_projection p limit projections (read_back row) ≡ ok (row', limit')
      → (s' : S) × ((append kv cache x z table.name row false
              >> add_index kv cache x z table.name
                  (record { id = meta.id; column_values = v ∷ [] })
                  (id ∷ [])
                  true)
            t
          ≡ (ok tt, record t { tx = s' }))
        × ((next_tuple kv x z p s' (at_value table meta limit projections v)).0 ≡ ok (some row'))
  next_tuple-append fixed t table meta limit limit' projections v id index_key key ids row row' e m
        cs u l ei et w r free free_index n n' tp =
      let a = append_lem kv cache x z laws fixed t table.name row id key false e et m in
      let (s1, e1, (bytes, c1, d1), frame) = rw free at a in
      let index : Index D = record { id = meta.id; column_values = v ∷ [] } in
      let c2 : laws.contents s1 index_key ≡ none = frame index_key n ∙ free_index in
      let s2 = kv.set s1 index_key ids in
      let c3 : laws.contents s2 index_key ≡ some ids =
        laws.set_lem s1 index_key ids index_key
        ∙ ap (λ b. if b then some ids else laws.contents s1 index_key) (same_refl index_key) in
      let c4 : laws.contents s2 key ≡ some bytes =
        laws.set_lem s1 index_key ids key
        ∙ ap (λ b. if b then some ids else laws.contents s1 key) n'
        ∙ c1 in
      (
        s2,
        rw e1 (added_lem (record t { tx = s1 }) table.name index id index_key ids ei w c2),
        found_by s2 table meta limit limit' projections v id index_key key ids bytes (read_back row)
            row' u l ei c3 (unfold decode_index in r) et c4 (rw cs d1) tp,
      )
