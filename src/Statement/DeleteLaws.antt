-- ===== src/Statement/DeleteLaws.antt =====
-- src/execution/executor/dml/delete.rs: which entries of the store a deletion removes.
use kip_sql.Prelude.{
  ◌≡◌, refl, ap, ◌∙◌, ◌⊎◌, inl, inr, ℕ, true, false, Option, none, some, List, [], ◌∷◌, ◌++◌, All,
  get_elem?, if◌then◌else◌,
}
use kip_sql.Prelude.Bytes.{Bytes}
use kip_sql.Prelude.Outcome.{Outcome, ok, err, panic}
use kip_sql.Value.{DataValue, External, is_null}
use kip_sql.Tuple.{Tuple}
use kip_sql.Codec.{IndexMeta, Bincode, encode_tuple_key, encode_index_key}
use kip_sql.Store.{Kv, Cache, Transaction, StorageError, Method, proceed, ◌>>◌}
use kip_sql.Store.Methods.{remove_keys, del_index, delete, kv_remove}
use kip_sql.Store.Laws.{IsStore, mem, Distinct, Present}
use kip_sql.Store.Drop.{remove_keys_lem}
use kip_sql.Execute.Query.{ExecutorError}
use kip_sql.Statement.{Run, Input, raised, storage, remove_indexes, delete_row, delete_rows}

-- A row with the keys of its entries in unique indexes, and its own key.
abbrev pub Keyed : Type 0 → Type 0 → Type 0
Keyed D R = Tuple D R × (List Bytes × Bytes)

module _ {D : Type 0} where
  -- The keys under which the values of the row that are not null stand in the unique indexes.
  unfoldable pub IndexKeys : Bytes → List (ℕ × IndexMeta) → List (DataValue D) → List Bytes → Type 0
  unfolding is_null encode_index_key
  IndexKeys name [] values ks = ks ≡ []
  IndexKeys name ((i, meta) ∷ metas) values ks =
      (v : DataValue D) × (get_elem? values i ≡ some v)
      × ((is_null v ≡ true) × IndexKeys name metas values ks
          ⊎ (is_null v ≡ false)
            × ((k : Bytes) × (rest : List Bytes) × (ks ≡ k ∷ rest)
                × (encode_index_key name (record { id = meta.id; column_values = v ∷ [] }) ≡ ok k)
                × IndexKeys name metas values rest))

module _ {D R : Type 0} where
  unfoldable pub IsKeyed : Bytes → List (ℕ × IndexMeta) → Keyed D R → Type 0
  unfolding IndexKeys encode_tuple_key
  IsKeyed name metas (row, (ks, k)) =
      ((id : DataValue D) × (row.id ≡ some id) × (encode_tuple_key name id ≡ ok k))
      × IndexKeys name metas row.values ks

  abbrev pub all_keys : List (Keyed D R) → List Bytes
  all_keys [] = []
  all_keys ((row, (ks, k)) ∷ rows) = ks ++ (k ∷ all_keys rows)

  abbrev pub yielded : {K : Type 0} → List (Keyed D R) → Input K D R
  yielded [] = []
  yielded ((row, keys) ∷ rows) = ok row ∷ yielded rows

module _ {S K C D R : Type 0} (kv : Kv S K) (cache : Cache C D R) (x : External D)
    (z : Bincode D R) where
  raised_then :
      {A B : Type 0} (r : Outcome (StorageError K) A × Transaction S C)
      (f : A → Method (Transaction S C) (StorageError K) B)
      → raised (proceed r f) ≡ proceed (raised r) (λ a. storage (f a))
  raised_then (ok a, t) f = refl
  raised_then (err e, t) f = refl
  raised_then (panic, t) f = refl

  removes : List Bytes → Run S C K (Unit {0})
  removes ks = storage (remove_keys kv cache x z ks)

  removes-cons :
      (k : Bytes) (ks : List Bytes) (t : Transaction S C)
      → removes (k ∷ ks) t ≡ (storage (kv_remove kv cache x z k) >> removes ks) t
  unfolding removes remove_keys
  removes-cons k ks t = raised_then (kv_remove kv cache x z k t) (λ u. remove_keys kv cache x z ks)

  proceed_assoc :
      {A B E : Type 0} (r : Outcome (ExecutorError K) A × Transaction S C) (f : A → Run S C K B)
      (g : B → Run S C K E)
      → proceed (proceed r f) g ≡ proceed r (λ a t. proceed (f a t) g)
  proceed_assoc (ok a, t) f g = refl
  proceed_assoc (err e, t) f g = refl
  proceed_assoc (panic, t) f g = refl

  proceed_ext :
      {A B : Type 0} (r : Outcome (ExecutorError K) A × Transaction S C) (f g : A → Run S C K B)
      → ((a : A) (t : Transaction S C) → f a t ≡ g a t)
      → proceed r f ≡ proceed r g
  proceed_ext (ok a, t) f g h = h a t
  proceed_ext (err e, t) f g h = refl
  proceed_ext (panic, t) f g h = refl

  remove_indexes-removes :
      (name : Bytes) (metas : List (ℕ × IndexMeta)) (values : List (DataValue D))
      (ks rest : List Bytes) (t : Transaction S C)
      → IndexKeys name metas values ks
      → (remove_indexes kv cache x z name metas values >> removes rest) t ≡ removes (ks ++ rest) t
  unfolding remove_indexes IndexKeys del_index
  remove_indexes-removes name [] values ks rest t h = rw h refl
  remove_indexes-removes name ((i, meta) ∷ metas) values ks rest t (v, e, inl (n, h)) =
      rw (e, n) (remove_indexes-removes name metas values ks rest t h)
  remove_indexes-removes name ((i, meta) ∷ metas) values ks rest t
        (v, e, inr (n, (k, more, q, ek, h))) =
      rw (q, e, n, ek, removes-cons k (more ++ rest) t)
        (proceed_assoc (raised (kv_remove kv cache x z k t))
            (λ u. remove_indexes kv cache x z name metas values) (λ u. removes rest)
          ∙ proceed_ext (raised (kv_remove kv cache x z k t))
              (λ u. remove_indexes kv cache x z name metas values >> removes rest)
              (λ u. removes (more ++ rest))
              (λ u t'. remove_indexes-removes name metas values more rest t' h))

  delete_row-removes :
      (name : Bytes) (o : Option (DataValue D)) (id : DataValue D) (k : Bytes) (rest : List Bytes)
      (next : Run S C K (Unit {0})) (t : Transaction S C)
      → o ≡ some id
      → encode_tuple_key name id ≡ ok k
      → ((t' : Transaction S C) → next t' ≡ removes rest t')
      → (delete_row kv cache x z name o >> next) t ≡ removes (k ∷ rest) t
  unfolding delete_row delete
  delete_row-removes name o id k rest next t e ek h =
      rw (e, ek, removes-cons k rest t)
        (proceed_ext (raised (kv_remove kv cache x z k t)) (λ u. next) (λ u. removes rest)
          (λ u t'. h t'))

  delete_rows-removes :
      (name : Bytes) (metas : List (ℕ × IndexMeta)) (rows : List (Keyed D R)) (t : Transaction S C)
      → All (IsKeyed name metas) rows
      → delete_rows kv cache x z name metas (yielded rows) t ≡ removes (all_keys rows) t
  unfolding delete_rows IsKeyed removes remove_keys
  delete_rows-removes name metas [] t h = refl
  delete_rows-removes name metas ((row, (ks, k)) ∷ rows) t (((id, e, ek), hs), h) =
      proceed_assoc (remove_indexes kv cache x z name metas row.values t)
        (λ u. delete_row kv cache x z name row.id)
        (λ u. delete_rows kv cache x z name metas (yielded rows))
      ∙ proceed_ext (remove_indexes kv cache x z name metas row.values t)
          (λ u.
            delete_row kv cache x z name row.id
            >> delete_rows kv cache x z name metas (yielded rows))
          (λ u. removes (k ∷ all_keys rows))
          (λ u t'.
            delete_row-removes name row.id id k (all_keys rows)
              (delete_rows kv cache x z name metas (yielded rows)) t' e ek
              (λ t''. delete_rows-removes name metas rows t'' h))
      ∙ remove_indexes-removes name metas row.values ks (k ∷ all_keys rows) t hs

  -- Where the keys of the rows and of their values in unique indexes are encoded, are in the store and
  -- differ, deleting the rows succeeds: these entries are gone, and no other changes.
  pub delete_rows_lem :
      (laws : IsStore kv) (t : Transaction S C) (name : Bytes) (metas : List (ℕ × IndexMeta))
      (rows : List (Keyed D R))
      → All (IsKeyed name metas) rows
      → All (Present (laws.contents t.tx)) (all_keys rows)
      → Distinct (all_keys rows)
      → (s' : S) × (delete_rows kv cache x z name metas (yielded rows) t
          ≡ (ok tt, record t { tx = s' }))
        × ((j : Bytes)
            → laws.contents s' j ≡ (if mem j (all_keys rows) then none else laws.contents t.tx j))
  unfolding removes
  delete_rows_lem laws t name metas rows h p d =
      let (s', e, c) = remove_keys_lem kv cache x z laws t (all_keys rows) p d in
      (s', delete_rows-removes name metas rows t h ∙ ap raised e, c)
