-- ===== src/Catalog/Table/Build.antt =====
-- src/catalog/table.rs: the catalogs that `new` makes.
use kip_sql.Prelude.{
  ℕ, suc, ◌+◌, ◌^◌, ◌<◌, ◌≤◌, ◌≡◌, refl, ◌∙◌, Bool, true, Option, none, some, List, [], ◌∷◌, ◌++◌,
  length, Ordering, compare, is_eq, is_some, if◌then◌else◌, arith, Bool-cases, inl, inr, false, sym,
  length-append,
}
use kip_sql.Prelude.Bytes.{Bytes, compare_bytes, compare_bytes-eq}
use kip_sql.Prelude.Sorted.{
  find, insert, contains_key, values, find-insert_self, find-insert_ne, insert-last, values-append,
}
use kip_sql.Prelude.Outcome.{Outcome, ok, err}
use kip_sql.Catalog.{ColumnCatalog}
use kip_sql.Catalog.Table.{
  TableCatalog, CatalogError, duplicated, column_text, as_u32, with_id, add_column, all_columns,
  add_columns, new_table,
}
use mathlib.Core.List.{append-nil, append_assoc}
use kip_sql.Catalog.Table.Lookup.{
  bytes-IsOrder, nat-IsOrder, is_named, id_of, Numbered-below, Numbered-append, id_of-append,
  IsCatalog,
}

if_some : (o : Option ℕ) → o ≡ (if is_some o then o else none)
if_some none = refl
if_some (some k) = refl

has : Bytes → List Bytes → Bool
has n [] = false
has n (m ∷ ms) = if is_eq (compare_bytes n m) then true else has n ms

eq_of_is_eq : (o : Ordering) → is_eq o ≡ true → o ≡ Ordering.eq
eq_of_is_eq o h = ground arith

module _ {D R : Type 0} where
  named-insert :
      (idxs : List (Bytes × ℕ)) (m : List (ℕ × ColumnCatalog D R)) (n : ℕ) (c d : ColumnCatalog D R)
      → ((q : Bytes) → find compare_bytes q idxs ≡ id_of q m)
      → id_of c.summary.name m ≡ none
      → d.summary.name ≡ c.summary.name
      → (q : Bytes)
      → find compare_bytes q (insert compare_bytes c.summary.name n idxs)
        ≡ id_of q (m ++ ((n, d) ∷ []))
  named-insert idxs m n c d h free same q = elim (Bool-cases (is_named q c)) [
    | inl e ↦
        let k = compare_bytes-eq q c.summary.name (eq_of_is_eq _ e) in
        let f : id_of q m ≡ none = rw k free in
        rw (id_of-append q m n d, f, same, e, k)
          (find-insert_self bytes-IsOrder c.summary.name n idxs)
    | inr e ↦
        rw (id_of-append q m n d, same, e)
          (find-insert_ne bytes-IsOrder q c.summary.name n idxs e ∙ h q ∙ if_some (id_of q m))
  ]

  add_column_lem :
      (t : TableCatalog D R) (col : ColumnCatalog D R)
      → IsCatalog t
      → length t.columns < 2 ^ 32
      → id_of col.summary.name t.columns ≡ none
      → (t' : TableCatalog D R) × (add_column t col ≡ ok (t', length t.columns))
        × IsCatalog t'
        × (t'.name ≡ t.name)
        × (t'.columns ≡ t.columns ++ ((length t.columns, with_id (length t.columns) col) ∷ []))
  unfolding add_column contains_key
  add_column_lem t col h small free =
      let n = length t.columns in
      let t' = record t {
        column_idxs = insert compare_bytes col.summary.name n t.column_idxs;
        columns = insert compare n (with_id n col) t.columns;
      } in
      let zero : 0 + n ≡ n = omega arith in
      let last : t'.columns ≡ t.columns ++ ((n, with_id n col) ∷ []) =
        insert-last nat-IsOrder n (with_id n col) t.columns
          (rw zero at (Numbered-below 0 t.columns h.numbered)) in
      let small' : as_u32 n ≡ n = omega arith in
      (
        t',
        rw (h.named col.summary.name, free, small') refl,
        record {
          numbered = rw last (rw zero at (Numbered-append 0 t.columns col h.numbered));
          named = λ q.
              rw last
                (named-insert t.column_idxs t.columns n col (with_id n col) h.named free refl q);
        },
        refl,
        last,
      )

  add_column_twice :
      (t : TableCatalog D R) (col : ColumnCatalog D R)
      → IsCatalog t
      → is_some (id_of col.summary.name t.columns) ≡ true
      → add_column t col ≡ err (duplicated column_text col.summary.name)
  unfolding add_column contains_key
  add_column_twice t col h twice = rw (h.named col.summary.name, twice) refl

  none_of_is_some :
      (n : Bytes) (m : List (ℕ × ColumnCatalog D R))
      → is_some (id_of n m) ≡ false
      → id_of n m ≡ none
  none_of_is_some n m h = ground arith

  -- The columns with the ids that a new table gives them.
  unfoldable pub number : ℕ → List (ColumnCatalog D R) → List (ColumnCatalog D R)
  number n [] = []
  number n (c ∷ cs) = with_id n c ∷ number (suc n) cs

  -- The first name that has been seen before.
  unfoldable pub duplicate : List Bytes → List (ColumnCatalog D R) → Option Bytes
  unfolding has
  duplicate seen [] = none
  duplicate seen (c ∷ cs) =
      let name = c.summary.name in
      let rest = duplicate (name ∷ seen) cs in if has name seen then some name else rest

  abbrev pub Built :
      Bytes
      → List (ColumnCatalog D R)
      → Option Bytes
      → Outcome CatalogError (TableCatalog D R)
      → Type 0
  Built name cs (some twice) r = r ≡ err (duplicated column_text twice)
  Built name cs none r =
      (t : TableCatalog D R) × (r ≡ ok t) × (t.name ≡ name) × (all_columns t ≡ cs) × IsCatalog t

  seen_append :
      (n : Bytes) (m : List (ℕ × ColumnCatalog D R)) (k : ℕ) (c : ColumnCatalog D R)
      (seen : List Bytes)
      → has n seen ≡ is_some (id_of n m)
      → has n (c.summary.name ∷ seen) ≡ is_some (id_of n (m ++ ((k, c) ∷ [])))
  unfolding has
  seen_append n m k c seen h = rw (id_of-append n m k c) (ground arith)

  with_column :
      (m : List (ℕ × ColumnCatalog D R)) (c : ColumnCatalog D R) (cs : List (ColumnCatalog D R))
      → values (m ++ ((length m, with_id (length m) c) ∷ []))
          ++ number (length (m ++ ((length m, with_id (length m) c) ∷ []))) cs
        ≡ values m ++ (with_id (length m) c ∷ number (suc (length m)) cs)
  with_column m c cs =
      let e : length (m ++ ((length m, with_id (length m) c) ∷ [])) ≡ suc (length m) =
        length-append m ((length m, with_id (length m) c) ∷ []) ∙ omega arith in
      rw (e, values-append)
        (append_assoc (values m) (with_id (length m) c ∷ []) (number (suc (length m)) cs))

  add_columns_lem :
      (t : TableCatalog D R) (cs : List (ColumnCatalog D R)) (seen : List Bytes)
      → IsCatalog t
      → length t.columns + length cs ≤ 2 ^ 32
      → ((n : Bytes) → has n seen ≡ is_some (id_of n t.columns))
      → Built t.name
          (all_columns t ++ number (length t.columns) cs)
          (duplicate seen cs)
          (add_columns t cs)
  unfolding duplicate add_columns number all_columns
  add_columns_lem t [] seen h small eq = (t, refl, refl, sym (append-nil (all_columns t)), h)
  add_columns_lem t (c ∷ cs) seen h small eq = elim (Bool-cases (has c.summary.name seen)) [
    | inl twice ↦ rw (twice, add_column_twice t c h (sym (eq c.summary.name) ∙ twice)) refl
    | inr new ↦
        let n = length t.columns in
        let free = none_of_is_some c.summary.name t.columns (sym (eq c.summary.name) ∙ new) in
        let (t', e, inv, name, cols) = add_column_lem t c h (omega arith) free in
        let more : length t'.columns + length cs ≤ 2 ^ 32 =
          rw cols (omega (arith, length-append {0} t.columns ((n, with_id n c) ∷ []))) in
        let rest =
          add_columns_lem t' cs (c.summary.name ∷ seen) inv more
            (λ q. rw cols (seen_append q t.columns n (with_id n c) seen (eq q))) in
        let q : all_columns t' ++ number (length t'.columns) cs
            ≡ all_columns t ++ (with_id n c ∷ number (suc n) cs) =
          rw cols (with_column t.columns c cs) in
        rw (new, e) (rw (name, q) at rest)
  ]

  -- Of columns that are not empty, and at most 2 ^ 32, `new_table` makes a catalog: the columns are the
  -- given ones in their order, each with its place as its id, and the two maps agree with that list.
  -- When a name stands twice, the answer is the error for the first name that does.
  pub new_table_lem :
      (name : Bytes) (c : ColumnCatalog D R) (cs : List (ColumnCatalog D R))
      → length (c ∷ cs) ≤ 2 ^ 32
      → Built name (number 0 (c ∷ cs)) (duplicate [] (c ∷ cs)) (new_table name (c ∷ cs))
  unfolding new_table all_columns id_of has
  new_table_lem name c cs small =
      add_columns_lem (record { name = name; column_idxs = []; columns = []; indexes = [] })
        (c ∷ cs) [] (record { numbered = tt; named = λ n. refl }) (omega arith) (λ n. refl)
