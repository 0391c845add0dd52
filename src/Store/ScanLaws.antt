-- ===== src/Store/ScanLaws.antt =====
-- What a scan of src/storage/kip.rs yields.
use kip_sql.Prelude.{
  ℕ, zero, suc, ◌+◌, ◌-◌, ◌^◌, ◌<◌, ◌≤◌, ◌%◌, ◌≡◌, refl, ap, sym, ◌∙◌, false, Option, none, some,
  List, [], ◌∷◌, map, take, drop, length, arith, length-drop,
}
use kip_sql.Prelude.Bytes.{Bytes}
use kip_sql.Prelude.Outcome.{Outcome, ok, err, panic}
use kip_sql.Prelude.Outcome
use kip_sql.Value.{External, DataValue}
use kip_sql.Tuple.{Tuple}
use kip_sql.Codec.{decode_tuple}
use kip_sql.Store.{StorageError, type_error, convert}
use kip_sql.Store.Laws.{Item, all_ok}
use kip_sql.Store.Scans.{
  KipIter, Projector, project_values, project_columns, tuple_projection, sub_one, skip, next_live,
  next_tuple, scan_rows, skip_offset, decode_project, is_zero, yielded, found,
}
use kip_sql.Catalog.{ColumnCatalog}
use kip_sql.Types.{TypeError}

-- The values of the items that were not removed.
abbrev pub live_rows : List Item → List Bytes
live_rows [] = []
live_rows ((k, none) ∷ items) = live_rows items
live_rows ((k, some v) ∷ items) = v ∷ live_rows items

abbrev pub take_limit : {A : Type 0} → Option ℕ → List A → List A
take_limit none rows = rows
take_limit (some n) rows = take n rows

-- The stream ends behind its first failure.
abbrev pub cut : {E A : Type 0} → List (Outcome E A) → List (Outcome E A)
cut [] = []
cut (ok a ∷ r) = ok a ∷ cut r
cut (err e ∷ r) = err e ∷ []
cut (panic ∷ r) = panic ∷ []

abbrev pub IsLimit : Option ℕ → Type 0
IsLimit none = Unit
IsLimit (some n) = n < 2 ^ 64

skip-nil : {K : Type 0} (n : ℕ) → skip {K = K} n [] ≡ (ok tt, zero, [])
unfolding skip
skip-nil zero = refl
skip-nil {K} (suc n) = skip-nil {K = K} n

skip-all_ok :
    {K : Type 0} (n : ℕ) (items : List Item)
    → skip {K = K} n (all_ok items) ≡ (ok tt, zero, all_ok (drop n items))
unfolding skip
skip-all_ok zero items = refl
skip-all_ok {K} (suc n) [] = skip-nil {K = K} n
skip-all_ok {K} (suc n) (e ∷ items) = skip-all_ok {K = K} n items

module _ {K D R : Type 0} (x : External D) (p : Projector D R) (columns : List (ColumnCatalog D R))
    (projections : List R) where
  -- The iterator over the items.
  abbrev pub over : ℕ → Option ℕ → List Item → KipIter K D R
  over offset limit items = record {
    offset = offset;
    limit = limit;
    projections = projections;
    all_columns = columns;
    iter = all_ok items;
  }

  -- The row of a stored value: decoded, and projected.
  unfoldable pub row_of : Bytes → Outcome (StorageError K) (Tuple D R)
  row_of value = convert type_error (
      Outcome.◌>>=◌ (decode_tuple x columns value) (λ t.
        Outcome.◌>>=◌ (project_values p projections t)
          (λ vs. ok (record { id = t.id; columns = project_columns p projections; values = vs }))))

  abbrev with_limit :
      Option ℕ
      → Outcome (StorageError K) (Tuple D R)
      → Outcome (StorageError K) (Tuple D R × Option ℕ)
  with_limit limit (ok t) = ok (t, limit)
  with_limit limit (err e) = err e
  with_limit limit panic = panic

  projected :
      (limit : Option ℕ) (t : Tuple D R) (r : Outcome TypeError (List (DataValue D)))
      → convert {F = StorageError K} type_error (
          Outcome.◌>>=◌ r (λ vs. ok (
            record { id = t.id; columns = project_columns p projections; values = vs },
            sub_one limit,
          )))
        ≡ with_limit (sub_one limit) (
            convert type_error (
              Outcome.◌>>=◌ r (λ vs.
                ok (record { id = t.id; columns = project_columns p projections; values = vs }))))
  projected limit t (ok vs) = refl
  projected limit t (err e) = refl
  projected limit t panic = refl

  decoded :
      (limit : Option ℕ) (r : Outcome TypeError (Tuple D R))
      → convert {F = StorageError K} type_error
          (Outcome.◌>>=◌ r (tuple_projection p limit projections))
        ≡ with_limit (sub_one limit) (
            convert type_error (
              Outcome.◌>>=◌ r (λ t. Outcome.◌>>=◌ (project_values p projections t) (λ vs.
                ok (record { id = t.id; columns = project_columns p projections; values = vs })))))
  unfolding tuple_projection
  decoded limit (ok t) = projected limit t (project_values p projections t)
  decoded limit (err e) = refl
  decoded limit panic = refl

  decode_project_lem :
      (limit : Option ℕ) (items : List Item) (v : Bytes)
      → decode_project x p (over 0 limit items) v ≡ with_limit (sub_one limit) (row_of v)
  unfolding row_of tuple_projection decode_tuple
  decode_project_lem limit items v = decoded limit (decode_tuple x columns v)

  -- A row and what follows it.
  abbrev followed :
      Outcome (StorageError K) (Tuple D R)
      → List (Outcome (StorageError K) (Tuple D R))
      → List (Outcome (StorageError K) (Tuple D R))
  followed (ok t) rest = ok t ∷ rest
  followed (err e) rest = err e ∷ []
  followed panic rest = panic ∷ []

  cut-followed :
      (r : Outcome (StorageError K) (Tuple D R))
      (rest : List (Outcome (StorageError K) (Tuple D R)))
      → cut (r ∷ rest) ≡ followed r (cut rest)
  cut-followed (ok t) rest = refl
  cut-followed (err e) rest = refl
  cut-followed panic rest = refl

  yielded-found :
      (limit : Option ℕ) (r : Outcome (StorageError K) (Tuple D R)) (it : KipIter K D R)
      (rest : KipIter K D R → List (Outcome (StorageError K) (Tuple D R)))
      → yielded x p (found (with_limit limit r) it) rest
        ≡ followed r (rest (record it { limit = limit }))
  yielded-found limit (ok t) it rest = refl
  yielded-found limit (err e) it rest = refl
  yielded-found limit panic it rest = refl

  scan_step :
      (fuel : ℕ) (limit : Option ℕ) (k v : Bytes) (items : List Item)
      → is_zero limit ≡ false
      → scan_rows x p (suc fuel) (over 0 limit ((k, some v) ∷ items))
        ≡ followed (row_of v) (scan_rows x p fuel (over 0 (sub_one limit) items))
  unfolding scan_rows skip_offset skip next_live
  scan_step fuel limit k v items more =
      rw (more, decode_project_lem limit items v)
        (yielded-found (sub_one limit) (row_of v) (over 0 limit items) (scan_rows x p fuel))

  scan_removed :
      (fuel : ℕ) (limit : Option ℕ) (k : Bytes) (items : List Item)
      → is_zero limit ≡ false
      → scan_rows x p (suc fuel) (over 0 limit ((k, none) ∷ items))
        ≡ scan_rows x p (suc fuel) (over 0 limit items)
  unfolding scan_rows skip_offset skip next_live
  scan_removed fuel limit k items more = rw more refl

  from_start :
      (fuel : ℕ) (limit : Option ℕ) (items : List Item)
      → length items ≤ fuel
      → IsLimit limit
      → scan_rows x p (suc fuel) (over 0 limit items)
        ≡ cut (map row_of (take_limit limit (live_rows items)))
  from_start fuel (some zero) [] enough small = unfold scan_rows skip_offset skip in refl
  from_start fuel (some zero) (e ∷ items) enough small = unfold scan_rows skip_offset skip in refl
  from_start fuel none [] enough small = unfold scan_rows skip_offset skip next_live in refl
  from_start fuel (some (suc n)) [] enough small =
      unfold scan_rows skip_offset skip next_live in refl
  from_start fuel none ((k, none) ∷ items) enough small =
      scan_removed fuel none k items refl ∙ from_start fuel none items (omega arith) small
  from_start fuel (some (suc n)) ((k, none) ∷ items) enough small =
      scan_removed fuel (some (suc n)) k items refl
      ∙ from_start fuel (some (suc n)) items (omega arith) small
  from_start zero limit ((k, some v) ∷ items) enough small = absurd (omega arith)
  from_start (suc fuel) none ((k, some v) ∷ items) enough small =
      scan_step (suc fuel) none k v items refl
      ∙ ap (followed (row_of v)) (from_start fuel none items (omega arith) small)
      ∙ sym (cut-followed (row_of v) (map row_of (live_rows items)))
  from_start (suc fuel) (some (suc n)) ((k, some v) ∷ items) enough small =
      let e : (suc n + (2 ^ 64 - 1)) % 2 ^ 64 ≡ n = omega arith in
      scan_step (suc fuel) (some (suc n)) k v items refl
      ∙ rw e (
          ap (followed (row_of v)) (from_start fuel (some n) items (omega arith) (omega arith))
          ∙ sym (cut-followed (row_of v) (map row_of (take n (live_rows items)))))

  skipped :
      (offset : ℕ) (limit : Option ℕ) (items : List Item)
      → next_tuple {K = K} x p (over offset limit items)
        ≡ next_tuple x p (over 0 limit (drop offset items))
  unfolding next_tuple skip
  skipped offset limit items = rw (skip-all_ok {K = K} offset items) refl

  -- A scan without errors of the store yields the rows of the items behind the offset, those removed
  -- in the transaction left out and at most as many as the limit, up to the first that fails. The offset
  -- counts removed items too. One round more than there are items is enough.
  pub scan_rows_lem :
      (fuel offset : ℕ) (limit : Option ℕ) (items : List Item)
      → length items ≤ fuel
      → IsLimit limit
      → scan_rows x p (suc fuel) (over offset limit items)
        ≡ cut (map row_of (take_limit limit (live_rows (drop offset items))))
  unfolding scan_rows
  scan_rows_lem fuel offset limit items enough small =
      ap (λ step. yielded x p step (scan_rows x p fuel)) (skipped offset limit items)
      ∙ from_start fuel limit (drop offset items) (omega (arith, length-drop {0} offset items))
          small
