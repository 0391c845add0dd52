-- ===== src/Store/Drop.antt =====
-- src/storage/kip.rs: `_drop_data`, `drop_data` and `drop_table`.
use kip_sql.Prelude.{
  ◌≡◌, refl, false, Option, none, List, [], ◌∷◌, if◌then◌else◌, All, arith, Bool-cases,
  Option-cases, inl, inr, ◌≢◌, ◌⊎◌, ◌∙◌,
}
use kip_sql.Prelude.Bytes.{Bytes}
use kip_sql.Prelude.Outcome.{ok}
use kip_sql.Value.{External}
use kip_sql.Codec.{Bincode, CodecType, tuple_bound, all_index_bound}
use kip_sql.Codec.Prefix.{InBound, AboveTags}
use kip_sql.Store.{Kv, Cache, Transaction}
use kip_sql.Store.Methods.{remove_keys, drop_bound, drop_data}
use kip_sql.Store.Laws.{
  IsStore, same, mem, Distinct, Present, live, live_keys-all_ok, live-Distinct, live-Present,
  live-InBound, live-mem, mem-All, Item, Lists,
}
use kip_sql.Codec.Isolation.{StoredKey, bound_of, StoredKey-isolated, StoredKey-InBound}

module _ {S K C D R : Type 0} (kv : Kv S K) (cache : Cache C D R) (x : External D) (z : Bincode D R)
    (laws : IsStore kv) where
  still-Present :
      (s s' : S) (k : Bytes) (ks : List Bytes)
      → ((j : Bytes) → laws.contents s' j ≡ (if same j k then none else laws.contents s j))
      → All (λ j. same j k ≡ false) ks
      → All (Present (laws.contents s)) ks
      → All (Present (laws.contents s')) ks
  still-Present s s' k [] h d p = tt
  still-Present s s' k (j ∷ ks) h d p =
      ((p.0.0, rw (h j, d.0) p.0.1), still-Present s s' k ks h d.1 p.1)

  removed_step :
      (j k : Bytes) (ks : List Bytes) (o : Option Bytes)
      → (if mem j ks then none else if same j k then none else o)
        ≡ (if mem j (k ∷ ks) then none else o)
  removed_step j k ks o = ground arith

  pub remove_keys_lem :
      (t : Transaction S C) (ks : List Bytes)
      → All (Present (laws.contents t.tx)) ks
      → Distinct ks
      → (s' : S) × (remove_keys kv cache x z ks t ≡ (ok tt, record t { tx = s' }))
        × ((j : Bytes) → laws.contents s' j ≡ (if mem j ks then none else laws.contents t.tx j))
  unfolding remove_keys
  remove_keys_lem t [] p d = (t.tx, refl, λ j. refl)
  remove_keys_lem t (k ∷ ks) p d =
      let (s1, e1, h1) = laws.remove_lem t.tx k p.0.0 p.0.1 in
      let (s2, e2, h2) =
        remove_keys_lem (record t { tx = s1 }) ks (still-Present t.tx s1 k ks h1 d.0 p.1) d.1 in
      (s2, rw e1 e2, λ j. rw (h2 j, h1 j) (removed_step j k ks (laws.contents t.tx j)))

  -- What a drop of one bound does to the store.
  pub record Cleared (s s' : S) (bound : Bytes × Bytes) : Type 0 where
    pub gone : (j : Bytes) → InBound bound j → laws.contents s' j ≡ none
    pub kept : (j : Bytes) → ¬ InBound bound j → laws.contents s' j ≡ laws.contents s j

  gone_lem :
      (s : S) (bound : Bytes × Bytes) (items : List Item) (j : Bytes)
      → Lists (laws.contents s) bound items
      → InBound bound j
      → (if mem j (live items) then none else laws.contents s j) ≡ none
  gone_lem s bound items j lists i = elim (Option-cases (laws.contents s j)) [
    | inl e ↦ ground (arith, e)
    | inr (v, e) ↦
        rw (live-mem (laws.contents s) bound items j v lists.truthful e (lists.complete j v i e))
          refl
  ]

  kept_lem :
      (s : S) (bound : Bytes × Bytes) (items : List Item) (j : Bytes)
      → Lists (laws.contents s) bound items
      → ¬ InBound bound j
      → (if mem j (live items) then none else laws.contents s j) ≡ laws.contents s j
  kept_lem s bound items j lists n = elim (Bool-cases (mem j (live items))) [
    | inl m ↦ absurd (
        n (
          mem-All (InBound bound) j (live items)
            (live-InBound (laws.contents s) bound items lists.truthful) m))
    | inr m ↦ rw m refl
  ]

  pub drop_bound_lem :
      (t : Transaction S C) (bound : Bytes × Bytes)
      → (s' : S) × (drop_bound kv cache x z bound t ≡ (ok tt, record t { tx = s' }))
        × Cleared t.tx s' bound
  unfolding drop_bound
  drop_bound_lem t bound =
      let (items, e, lists) = laws.iter_lem t.tx bound in
      let (s', e', h) =
        remove_keys_lem t (live items)
          (live-Present (laws.contents t.tx) bound items lists.truthful)
          (live-Distinct items lists.ordered) in
      (
        s',
        rw (e, live_keys-all_ok {K = K} items) e',
        record {
          gone = λ j i. rw (h j) (gone_lem t.tx bound items j lists i);
          kept = λ j n. rw (h j) (kept_lem t.tx bound items j lists n);
        },
      )

  -- An entry outside the rows and the index entries of the table.
  abbrev pub IsOther : CodecType → Bytes → Bytes → Type 0
  IsOther ty name name' = (name ≢ name') ⊎ ((ty ≢ CodecType.tuple) × (ty ≢ CodecType.index))

  pub outside :
      (ty ty' : CodecType) (name name' key : Bytes)
      → AboveTags name
      → AboveTags name'
      → StoredKey z ty name key
      → ty' ≢ CodecType.root
      → (name ≢ name') ⊎ (ty ≢ ty')
      → ¬ InBound (bound_of ty' name') key
  outside ty ty' name name' key h h' s n other i =
      let (e, o) = StoredKey-isolated z ty ty' name name' key h h' s i in
      elim other [ inl m ↦ elim o [ inl r ↦ n r | inr q ↦ m q ] | inr m ↦ m e ]

  no_index :
      (ty : CodecType) (name name' : Bytes)
      → IsOther ty name name'
      → (name ≢ name') ⊎ (ty ≢ CodecType.index)
  no_index ty name name' (inl n) = inl n
  no_index ty name name' (inr n) = inr n.1

  no_tuple :
      (ty : CodecType) (name name' : Bytes)
      → IsOther ty name name'
      → (name ≢ name') ⊎ (ty ≢ CodecType.tuple)
  no_tuple ty name name' (inl n) = inl n
  no_tuple ty name name' (inr n) = inr n.0

  -- `drop_data` succeeds; every row and index entry that is written for the table is gone, and every
  -- entry of another kind or of another table is kept, where the names have no byte 0 or 1.
  pub drop_data_lem :
      (t : Transaction S C) (name' : Bytes)
      → AboveTags name'
      → (s' : S) × (drop_data kv cache x z name' t ≡ (ok tt, record t { tx = s' }))
        × ((key : Bytes)
            → StoredKey z CodecType.tuple name' key ⊎ StoredKey z CodecType.index name' key
            → laws.contents s' key ≡ none)
        × ((ty : CodecType) (name key : Bytes)
            → AboveTags name
            → StoredKey z ty name key
            → IsOther ty name name'
            → laws.contents s' key ≡ laws.contents t.tx key)
  unfolding drop_data
  drop_data_lem t name' h' =
      let (s1, e1, c1) = drop_bound_lem t (tuple_bound name') in
      let (s2, e2, c2) = drop_bound_lem (record t { tx = s1 }) (all_index_bound name') in
      (
        s2,
        rw e1 e2,
        λ key stored. elim stored [
          | inl row ↦
              c2.kept key (
                outside CodecType.tuple CodecType.index name' name' key h' h' row (λ e. cc)
                  (inr (λ e. cc)))
              ∙ c1.gone key (StoredKey-InBound z CodecType.tuple name' key row)
          | inr entry ↦ c2.gone key (StoredKey-InBound z CodecType.index name' key entry)
        ],
        λ ty name key h stored other.
            c2.kept key (
              outside ty CodecType.index name name' key h h' stored (λ e. cc)
                (no_index ty name name' other))
            ∙ c1.kept key (
                outside ty CodecType.tuple name name' key h h' stored (λ e. cc)
                  (no_tuple ty name name' other)),
      )
