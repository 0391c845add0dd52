-- ===== src/Codec/Isolation.antt =====
-- Which keys of src/storage/table_codec.rs the scans of a table read.
use kip_sql.Prelude.{
  ℕ, ◌≡◌, refl, sym, ap, ◌∙◌, Option, none, some, List, [], ◌∷◌, ◌++◌, arith, ◌<◌, ◌⊎◌, inr, inl,
}
use mathlib.Core.List.{append_assoc, append-nil}
use kip_sql.Prelude.Bytes.{Bytes, be_bytes}
use kip_sql.Prelude.Outcome.{Outcome, ok, ◌>>=◌, err, panic}
use kip_sql.Types.{TypeError}
use kip_sql.Value.{DataValue}
use kip_sql.Value.Key.{to_index_key, to_primary_key}
use kip_sql.Catalog.{ColumnCatalog}
use kip_sql.Codec.{
  CodecType, column, index_meta, index, tuple, root, key_prefix, Index, IndexMeta, Bincode,
  encode_tuple_key, encode_index_key, encode_index_meta, encode_column, encode_root_table_key,
  append_values, tuple_bound, index_meta_bound, all_index_bound, columns_bound, root_table_bound,
}
use kip_sql.Codec.Prefix.{
  Extends, to_primary_key-Extends, to_index_key-Extends, AboveTags, InBound, InBound-refl,
  InBound-eq,
}

-- The bounds of the scan of one kind.
abbrev pub bound_of : CodecType → Bytes → Bytes × Bytes
bound_of column name = columns_bound name
bound_of index_meta name = index_meta_bound name
bound_of index name = all_index_bound name
bound_of tuple name = tuple_bound name
bound_of root name = root_table_bound

-- The keys that are written for a table.
pub data StoredKey {D R : Type 0} (z : Bincode D R) : CodecType → Bytes → Bytes → Type 0 where
  column_key :
      (name : Bytes) (c : ColumnCatalog D R) {key value : Bytes}
      → encode_column z name c ≡ ok (key, value)
      → StoredKey z column name key
  meta_key :
      (name : Bytes) (meta : IndexMeta) {key value : Bytes}
      → encode_index_meta z name meta ≡ ok (key, value)
      → StoredKey z index_meta name key
  index_key :
      (name : Bytes) (i : Index D) {key : Bytes}
      → encode_index_key name i ≡ ok key
      → StoredKey z index name key
  tuple_key :
      (name : Bytes) (id : DataValue D) {key : Bytes}
      → encode_tuple_key name id ≡ ok key
      → StoredKey z tuple name key
  root_key : (name : Bytes) → StoredKey z root name (encode_root_table_key name)

-- The bytes before the first tag: those of the table, or of "Root", and a last one for the kind.
abbrev base : CodecType → Bytes → Bytes
base root name = 82 ∷ 111 ∷ 111 ∷ []
base _ name = name

abbrev code : CodecType → ℕ
code root = 116
code column = 48
code index_meta = 49
code index = 50
code tuple = 51

abbrev scan_prefix : CodecType → Bytes → Bytes
scan_prefix ty name = base ty name ++ (code ty ∷ [])

extended :
    (p : Bytes) (r : Outcome TypeError Bytes) {key : Bytes}
    → Extends p r
    → r ≡ ok key
    → (t : Bytes) × (key ≡ p ++ t)
extended p (ok k) x e = (x.0, ground (arith, x.1))
extended p (err _) x e = cc
extended p panic x e = cc

behind : (b k t : Bytes) (r : Outcome TypeError Bytes) → k ≡ b ++ t → Extends k r → Extends b r
behind b k t (ok l) e (u, f) = (t ++ u, f ∙ ap (◌++ u) e ∙ append_assoc b t u)
behind b k t (err _) e x = tt
behind b k t panic e x = tt

bind-Extends :
    (b : Bytes) (r : Outcome TypeError Bytes) (f : Bytes → Outcome TypeError Bytes)
    → Extends b r
    → ((k : Bytes) → Extends k (f k))
    → Extends b (r >>= f)
bind-Extends b (ok k) f (t, e) h = behind b k t (f k) e (h k)
bind-Extends b (err _) f x h = tt
bind-Extends b panic f x h = tt

append_values-Extends :
    {D : Type 0} (vs : List (DataValue D)) (b : Bytes) → Extends b (append_values vs b)
unfolding append_values
append_values-Extends [] b = ([], sym (append-nil b))
append_values-Extends (v ∷ vs) b =
    bind-Extends b (to_index_key v b) (append_values vs) (to_index_key-Extends v b)
      (append_values-Extends vs)

-- The keys of columns and of index descriptions, from what bincode gives.
written :
    (p key value suffix : Bytes) (w : Outcome TypeError Bytes)
    → ◌≡◌ {A = Outcome TypeError (Bytes × Bytes)}
        (w >>= λ bytes. ok ((p ++ (0 ∷ [])) ++ suffix, bytes))
        (ok (key, value))
    → key ≡ p ++ (0 ∷ suffix)
written p key value suffix (ok bytes) e = ground (arith, append_assoc p (0 ∷ []) suffix)
written p key value suffix (err _) e = cc
written p key value suffix panic e = cc

column_written :
    (p key value : Bytes) (w : Outcome TypeError Bytes) (o : Option ℕ)
    → ◌≡◌ {A = Outcome TypeError (Bytes × Bytes)}
        (w >>= λ bytes. elim o [
          | none ↦ panic
          | some id ↦ ok ((p ++ (0 ∷ [])) ++ be_bytes 4 id, bytes)
        ])
        (ok (key, value))
    → (t : Bytes) × (key ≡ p ++ (0 ∷ t))
column_written p key value (ok bytes) (some id) e =
    (be_bytes 4 id, ground (arith, append_assoc p (0 ∷ []) (be_bytes 4 id)))
column_written p key value (ok bytes) none e = cc
column_written p key value (err _) o e = cc
column_written p key value panic o e = cc

StoredKey-prefix :
    {D R : Type 0} (z : Bincode D R) (ty : CodecType) (name key : Bytes)
    → StoredKey z ty name key
    → (t : Bytes) × (key ≡ scan_prefix ty name ++ (0 ∷ t))
unfolding encode_tuple_key encode_index_key encode_index_meta encode_column encode_root_table_key
    key_prefix
StoredKey-prefix z column name key (column_key _ c {value = value} e) =
    column_written (scan_prefix column name) key value (z.write_column c) c.summary.id e
StoredKey-prefix z index_meta name key (meta_key _ meta {value = value} e) = (
  be_bytes 4 meta.id,
  written (scan_prefix index_meta name) key value (be_bytes 4 meta.id) (z.write_meta meta) e,
)
StoredKey-prefix z index name key (index_key _ i e) =
    let p = scan_prefix index name ++ (0 ∷ []) in
    let q = (p ++ be_bytes 4 i.id) ++ (0 ∷ []) in
    let (t, k) =
      extended q (append_values i.column_values q) (append_values-Extends i.column_values q) e in
    (
      be_bytes 4 i.id ++ ((0 ∷ []) ++ t),
      k
          ∙ append_assoc (p ++ be_bytes 4 i.id) (0 ∷ []) t
          ∙ append_assoc p (be_bytes 4 i.id) ((0 ∷ []) ++ t)
          ∙ append_assoc (scan_prefix index name) (0 ∷ []) (be_bytes 4 i.id ++ ((0 ∷ []) ++ t)),
    )
StoredKey-prefix z tuple name key (tuple_key _ id e) =
    let p = scan_prefix tuple name ++ (0 ∷ []) in
    let (t, k) = extended p (to_primary_key id p) (to_primary_key-Extends id p) e in
    (t, k ∙ append_assoc (scan_prefix tuple name) (0 ∷ []) t)
StoredKey-prefix z root name key (root_key _) = (name, refl)

bound_of-scan_prefix :
    (ty : CodecType) (name : Bytes)
    → bound_of ty name ≡ (scan_prefix ty name ++ (0 ∷ []), scan_prefix ty name ++ (1 ∷ []))
unfolding tuple_bound index_meta_bound all_index_bound columns_bound root_table_bound key_prefix
bound_of-scan_prefix column name = refl
bound_of-scan_prefix index_meta name = refl
bound_of-scan_prefix index name = refl
bound_of-scan_prefix tuple name = refl
bound_of-scan_prefix root name = refl

snoc-AboveTags : (p : Bytes) (n : ℕ) → AboveTags p → 1 < n → AboveTags (p ++ (n ∷ []))
snoc-AboveTags [] n h l = (l, tt)
snoc-AboveTags (x ∷ p) n h l = (h.0, snoc-AboveTags p n h.1 l)

scan_prefix-AboveTags :
    (ty : CodecType) (name : Bytes) → AboveTags name → AboveTags (scan_prefix ty name)
scan_prefix-AboveTags column name h = snoc-AboveTags name 48 h (omega arith)
scan_prefix-AboveTags index_meta name h = snoc-AboveTags name 49 h (omega arith)
scan_prefix-AboveTags index name h = snoc-AboveTags name 50 h (omega arith)
scan_prefix-AboveTags tuple name h = snoc-AboveTags name 51 h (omega arith)
scan_prefix-AboveTags root name h = (omega arith, (omega arith, (omega arith, (omega arith, tt))))

snoc_injective : (p q : Bytes) (m n : ℕ) → p ++ (m ∷ []) ≡ q ++ (n ∷ []) → (p ≡ q) × (m ≡ n)
snoc_injective [] [] m n e = (refl, cc)
snoc_injective [] (y ∷ []) m n e = cc
snoc_injective [] (y ∷ (z ∷ q)) m n e = cc
snoc_injective (x ∷ []) [] m n e = cc
snoc_injective (x ∷ (z ∷ p)) [] m n e = cc
snoc_injective (x ∷ p) (y ∷ q) m n e =
    let (f, g) = snoc_injective p q m n cc in (ground (arith, f), g)

same_base :
    (ty ty' : CodecType) (name name' : Bytes)
    → code ty ≡ code ty'
    → base ty name ≡ base ty' name'
    → (ty ≡ ty') × ((ty' ≡ root) ⊎ (name ≡ name'))
same_base column column name name' c b = (refl, inr b)
same_base index_meta index_meta name name' c b = (refl, inr b)
same_base index index name name' c b = (refl, inr b)
same_base tuple tuple name name' c b = (refl, inr b)
same_base root root name name' c b = (refl, inl refl)
same_base _ _ name name' c b = ground arith

module _ {D R : Type 0} (z : Bincode D R) where
  -- The scan of a table for one kind of entry reads every key of that kind that is written for the
  -- table.
  pub StoredKey-InBound :
      (ty : CodecType) (name key : Bytes) → StoredKey z ty name key → InBound (bound_of ty name) key
  StoredKey-InBound ty name key s =
      let (t, e) = StoredKey-prefix z ty name key s in
      rw (e, bound_of-scan_prefix ty name) (InBound-refl (scan_prefix ty name) t)

  -- Where the names of tables have no byte 0 or 1, the scan of a table for one kind of entry reads
  -- no key of another kind, and no key of another table, but that of the root reads those of all
  -- tables.
  pub StoredKey-isolated :
      (ty ty' : CodecType) (name name' key : Bytes)
      → AboveTags name
      → AboveTags name'
      → StoredKey z ty name key
      → InBound (bound_of ty' name') key
      → (ty ≡ ty') × ((ty' ≡ root) ⊎ (name ≡ name'))
  StoredKey-isolated ty ty' name name' key h h' s i =
      let (t, e) = StoredKey-prefix z ty name key s in
      let i' = rw (e, bound_of-scan_prefix ty' name') at i in
      let same =
        InBound-eq (scan_prefix ty name) (scan_prefix ty' name') t (scan_prefix-AboveTags ty name h)
          (scan_prefix-AboveTags ty' name' h') i' in
      let (b, c) = snoc_injective (base ty name) (base ty' name') (code ty) (code ty') same in
      same_base ty ty' name name' c b
