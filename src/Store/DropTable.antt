-- ===== src/Store/DropTable.antt =====
-- src/storage/kip.rs: what `drop_table` removes, and what it leaves.
use kip_sql.Prelude.{
  ◌≡◌, ◌≢◌, refl, sym, ◌∙◌, ◌⊎◌, false, arith, Bool-cases, inl, inr, none, some, Bool, Option,
  if◌then◌else◌, true,
}
use kip_sql.Prelude.Bytes.{Bytes}
use kip_sql.Codec.{
  Bincode, CodecType, column, index_meta, index, tuple, root, encode_root_table_key, key_prefix,
  columns_bound,
}
use kip_sql.Codec.Prefix.{InBound, AboveTags}
use kip_sql.Codec.Isolation.{StoredKey, root_key, StoredKey-InBound, StoredKey-isolated, bound_of}
use kip_sql.Store.Laws.{same, same_eq, IsStore, Present, same_refl}
use kip_sql.Store.{Kv, Cache, Transaction}
use kip_sql.Value.{External}
use kip_sql.Store.Methods.{drop_table}
use kip_sql.Prelude.Outcome.{ok}
use kip_sql.Store.Drop.{drop_data_lem, drop_bound_lem, outside, Cleared}

root_key_injective : (n m : Bytes) → encode_root_table_key n ≡ encode_root_table_key m → n ≡ m
unfolding encode_root_table_key key_prefix
root_key_injective n m e = ground arith

module _ {D R : Type 0} (z : Bincode D R) where
  StoredKey-root :
      (ty : CodecType) (name key : Bytes)
      → StoredKey z ty name key
      → ty ≡ root
      → key ≡ encode_root_table_key name
  StoredKey-root root name key (root_key _) e = refl
  StoredKey-root column name key s e = cc
  StoredKey-root index_meta name key s e = cc
  StoredKey-root index name key s e = cc
  StoredKey-root tuple name key s e = cc

  -- The root key of a table is the key of no other entry.
  not_root :
      (ty : CodecType) (name name' key : Bytes)
      → AboveTags name
      → AboveTags name'
      → StoredKey z ty name key
      → (name ≢ name') ⊎ (ty ≢ root)
      → same key (encode_root_table_key name') ≡ false
  not_root ty name name' key h h' s other =
      elim (Bool-cases (same key (encode_root_table_key name'))) [
        | inr e ↦ e
        | inl e ↦
            let q = same_eq key (encode_root_table_key name') e in
            let within : InBound (bound_of root name') key =
              rw q
                (StoredKey-InBound z root name' (encode_root_table_key name') (root_key name')) in
            let (r, _) = StoredKey-isolated z ty root name name' key h h' s within in
            let k = StoredKey-root ty name key s r in
            absurd
              (elim other [ inl n ↦ n (root_key_injective name name' (sym k ∙ q)) | inr n ↦ n r ])
      ]

module _ {S K C D R : Type 0} (kv : Kv S K) (cache : Cache C D R) (x : External D) (z : Bincode D R)
    (laws : IsStore kv) where
  -- What the store holds of a table that was dropped, and of the others.
  pub record Dropped (s s' : S) (name' : Bytes) : Type 0 where
    pub gone :
        (ty : CodecType) (key : Bytes)
        → StoredKey z ty name' key
        → ty ≢ index_meta
        → laws.contents s' key ≡ none
    pub left :
        (key : Bytes)
        → StoredKey z index_meta name' key
        → laws.contents s' key ≡ laws.contents s key
    pub others :
        (ty : CodecType) (name key : Bytes)
        → AboveTags name
        → StoredKey z ty name key
        → name ≢ name'
        → laws.contents s' key ≡ laws.contents s key

  none_after : (b : Bool) (o : Option Bytes) → o ≡ none → (if b then none else o) ≡ none
  none_after b o h = ground arith

  -- Behind the rows and index entries (`s1`), the columns (`s2`) and the root (`s3`).
  gone_lem :
      (s1 s2 s3 : S) (name' : Bytes)
      → AboveTags name'
      → ((key : Bytes)
          → StoredKey z tuple name' key ⊎ StoredKey z index name' key
          → laws.contents s1 key ≡ none)
      → Cleared kv cache x z laws s1 s2 (columns_bound name')
      → ((j : Bytes)
          → laws.contents s3 j
            ≡ (if same j (encode_root_table_key name') then none else laws.contents s2 j))
      → (ty : CodecType) (key : Bytes) → StoredKey z ty name' key
      → ty ≢ index_meta
      → laws.contents s3 key ≡ none
  gone_lem s1 s2 s3 name' h' rows c2 h3 column key stored n =
      h3 key ∙ none_after _ _ (c2.gone key (StoredKey-InBound z column name' key stored))
  gone_lem s1 s2 s3 name' h' rows c2 h3 index_meta key stored n = absurd (n refl)
  gone_lem s1 s2 s3 name' h' rows c2 h3 index key stored n =
      h3 key
      ∙ none_after _ _ (
          c2.kept key (
            outside kv cache x z laws index column name' name' key h' h' stored (λ e. cc)
              (inr (λ e. cc)))
          ∙ rows key (inr stored))
  gone_lem s1 s2 s3 name' h' rows c2 h3 tuple key stored n =
      h3 key
      ∙ none_after _ _ (
          c2.kept key (
            outside kv cache x z laws tuple column name' name' key h' h' stored (λ e. cc)
              (inr (λ e. cc)))
          ∙ rows key (inl stored))
  gone_lem s1 s2 s3 name' h' rows c2 h3 root key stored n =
      let q = StoredKey-root z root name' key stored refl in
      let e : same key (encode_root_table_key name') ≡ true =
        rw q (same_refl (encode_root_table_key name')) in
      h3 key ∙ rw e refl

  kept_lem :
      (s1 s2 s3 : S) (ty : CodecType) (name name' key : Bytes)
      → AboveTags name
      → AboveTags name'
      → StoredKey z ty name key
      → Cleared kv cache x z laws s1 s2 (columns_bound name')
      → ((j : Bytes)
          → laws.contents s3 j
            ≡ (if same j (encode_root_table_key name') then none else laws.contents s2 j))
      → (name ≢ name') ⊎ ((ty ≢ root) × (ty ≢ column))
      → laws.contents s3 key ≡ laws.contents s1 key
  kept_lem s1 s2 s3 ty name name' key h h' stored c2 h3 other =
      let r : (name ≢ name') ⊎ (ty ≢ root) = elim other [ inl n ↦ inl n | inr n ↦ inr n.0 ] in
      let c : (name ≢ name') ⊎ (ty ≢ column) = elim other [ inl n ↦ inl n | inr n ↦ inr n.1 ] in
      h3 key
      ∙ rw (not_root z ty name name' key h h' stored r)
          (c2.kept key (outside kv cache x z laws ty column name name' key h h' stored (λ e. cc) c))

  -- `drop_table` on a table that is there succeeds and empties the cache of it. Of its entries, the
  -- columns, the rows, the index entries and the root are gone, and the descriptions of its indexes
  -- stay in the store. Every entry of another table is kept. The names have no byte 0 or 1.
  pub drop_table_lem :
      (t : Transaction S C) (name' : Bytes)
      → AboveTags name'
      → Present (laws.contents t.tx) (encode_root_table_key name')
      → (s' : S) × (drop_table kv cache x z name' t
          ≡ (ok tt, record { tx = s'; cache = cache.forget t.cache name' }))
        × Dropped t.tx s' name'
  unfolding drop_table
  drop_table_lem t name' h' (v, present) =
      let rk = encode_root_table_key name' in
      let (s1, e1, gone1, kept1) = drop_data_lem kv cache x z laws t name' h' in
      let (s2, e2, c2) =
        drop_bound_lem kv cache x z laws (record t { tx = s1 }) (columns_bound name') in
      let there : laws.contents s2 rk ≡ some v =
        c2.kept rk (
          outside kv cache x z laws root column name' name' rk h' h' (root_key name') (λ e. cc)
            (inr (λ e. cc)))
        ∙ kept1 root name' rk h' (root_key name') (inr (λ e. cc, λ e. cc))
        ∙ present in
      let (s3, e3, h3) = laws.remove_lem s2 rk v there in
      (
        s3,
        rw (e1, e2, e3) refl,
        record {
          gone = gone_lem s1 s2 s3 name' h' gone1 c2 h3;
          left = λ key stored.
              kept_lem s1 s2 s3 index_meta name' name' key h' h' stored c2 h3
                (inr (λ e. cc, λ e. cc))
              ∙ kept1 index_meta name' key h' stored (inr (λ e. cc, λ e. cc));
          others = λ ty name key h stored n.
              kept_lem s1 s2 s3 ty name name' key h h' stored c2 h3 (inl n)
              ∙ kept1 ty name key h stored (inl n);
        },
      )
