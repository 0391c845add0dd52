-- ===== src/Catalog/Table/Lookup.antt =====
-- src/catalog/table.rs: the two maps of a table catalog, and the search they stand for.
use kip_sql.Prelude.{
  ℕ, suc, ◌+◌, ◌<◌, ◌≤◌, ◌≡◌, refl, ap, ◌∙◌, Bool, Option, none, some, List, [], ◌∷◌, ◌++◌, length,
  Ordering, compare, is_eq, is_some, if◌then◌else◌, All, arith, compare_refl, Bool-cases, inl, inr,
}
use kip_sql.Prelude.Bytes.{Bytes, compare_bytes, compare_bytes_refl, compare_bytes-eq}
use kip_sql.Prelude.Sorted.{find, values, IsOrder}
use kip_sql.Catalog.{ColumnCatalog}
use kip_sql.Catalog.Table.{TableCatalog, with_id, get_column_by_name, all_columns, column_at}

pub bytes-IsOrder : IsOrder compare_bytes
bytes-IsOrder = record { same = compare_bytes_refl; equal = compare_bytes-eq }

pub nat-IsOrder : IsOrder compare
nat-IsOrder = record { same = compare_refl; equal = λ j k h. ground arith }

module _ {D R : Type 0} where
  -- The columns are numbered from a number on, in their keys and in themselves.
  abbrev pub Numbered : ℕ → List (ℕ × ColumnCatalog D R) → Type 0
  Numbered n [] = Unit
  Numbered n ((k, c) ∷ m) = (k ≡ n) × (c.summary.id ≡ some n) × Numbered (suc n) m

  abbrev pub is_named : Bytes → ColumnCatalog D R → Bool
  is_named n c = is_eq (compare_bytes n c.summary.name)

  unfoldable pub id_of : Bytes → List (ℕ × ColumnCatalog D R) → Option ℕ
  id_of n [] = none
  id_of n ((k, c) ∷ m) = if is_named n c then some k else id_of n m

  -- The search that the two maps stand for.
  unfoldable pub find_named : Bytes → List (ColumnCatalog D R) → Option (ColumnCatalog D R)
  find_named n [] = none
  find_named n (c ∷ cs) = if is_named n c then some c else find_named n cs

  pub record IsCatalog (t : TableCatalog D R) : Type 0 where
    pub numbered : Numbered 0 t.columns
    pub named : (n : Bytes) → find compare_bytes n t.column_idxs ≡ id_of n t.columns

  pub Numbered-below :
      (n : ℕ) (m : List (ℕ × ColumnCatalog D R))
      → Numbered n m
      → All (λ e. compare (n + length m) e.0 ≡ Ordering.gt) m
  Numbered-below n [] h = tt
  Numbered-below n ((k, c) ∷ m) h =
      let e : suc n + length m ≡ n + suc (length m) = omega arith in
      (ground arith, rw e at (Numbered-below (suc n) m h.2))

  pub Numbered-append :
      (n : ℕ) (m : List (ℕ × ColumnCatalog D R)) (c : ColumnCatalog D R)
      → Numbered n m
      → Numbered n (m ++ ((n + length m, with_id (n + length m) c) ∷ []))
  Numbered-append n [] c h = (omega arith, ap some (omega arith), tt)
  Numbered-append n ((k, d) ∷ m) c h =
      let e : suc n + length m ≡ n + suc (length m) = omega arith in
      (h.0, h.1, rw e at (Numbered-append (suc n) m c h.2))

  pub id_of-append :
      (n : Bytes) (m : List (ℕ × ColumnCatalog D R)) (k : ℕ) (c : ColumnCatalog D R)
      → id_of n (m ++ ((k, c) ∷ []))
        ≡ (if is_some (id_of n m) then id_of n m else if is_named n c then some k else none)
  unfolding id_of
  id_of-append n [] k c = refl
  id_of-append n ((j, d) ∷ m) k c = ground (arith, id_of-append n m k c)

  id_of-gt :
      (n : Bytes) (k : ℕ) (m : List (ℕ × ColumnCatalog D R)) (j : ℕ)
      → Numbered k m
      → id_of n m ≡ some j
      → k ≤ j
  unfolding id_of
  id_of-gt n k [] j h e = absurd (ground arith)
  id_of-gt n k ((i, d) ∷ m) j h e = ground (arith, id_of-gt n (suc k) m j)

  column_at-cons :
      (o : Option ℕ) (i : ℕ) (c : ColumnCatalog D R) (m : List (ℕ × ColumnCatalog D R))
      → ((j : ℕ) → o ≡ some j → i < j)
      → column_at ((i, c) ∷ m) o ≡ column_at m o
  unfolding column_at find
  column_at-cons none i c m h = refl
  column_at-cons (some j) i c m h = ground (arith, h j refl)

  find_named_lem :
      (n : Bytes) (k : ℕ) (m : List (ℕ × ColumnCatalog D R))
      → Numbered k m
      → column_at m (id_of n m) ≡ find_named n (values m)
  unfolding id_of find_named
  find_named_lem n k [] h = unfold column_at in refl
  find_named_lem n k ((i, c) ∷ m) h = elim (Bool-cases (is_named n c)) [
    | inl e ↦ unfold column_at find in rw (e, compare_refl) refl
    | inr e ↦ rw e (
        column_at-cons (id_of n m) i c m
          (λ j q. let g = id_of-gt n (suc k) m j h.2 q in omega (arith, h.0))
        ∙ find_named_lem n (suc k) m h.2)
  ]

  -- In a catalog, the column that the two maps give for a name is the first column of that name.
  pub get_column_by_name_lem :
      (t : TableCatalog D R) (n : Bytes)
      → IsCatalog t
      → get_column_by_name t n ≡ find_named n (all_columns t)
  unfolding get_column_by_name all_columns
  get_column_by_name_lem t n h = rw (h.named n) (find_named_lem n 0 t.columns h.numbered)
