-- ===== src/Store/Scans.antt =====
-- src/storage/kip.rs: `KipIter`, the scan of a table. src/storage/mod.rs: `tuple_projection`.
use kip_sql.Prelude.{
  ℕ, zero, suc, ◌+◌, ◌-◌, ◌%◌, ◌^◌, Bool, true, false, Option, none, some, List, [], ◌∷◌,
  if◌then◌else◌,
}
use kip_sql.Prelude.Bytes.{Bytes}
use kip_sql.Prelude.Outcome.{Outcome, ok, err, panic}
use kip_sql.Prelude.Outcome
use kip_sql.Types.{TypeError}
use kip_sql.Value.{DataValue, External}
use kip_sql.Catalog.{ColumnCatalog}
use kip_sql.Tuple.{Tuple}
use kip_sql.Codec.{decode_tuple}
use kip_sql.Store.{StorageError, kip_db_error, type_error, Scan, Method, ◌>>=◌, ◌>>◌, give, convert}

-- What a scan asks of expressions: their value on a row, and the column of that value.
pub record Projector (D R : Type 0) : Type 0 where
  pub eval : R → Tuple D R → Outcome TypeError (DataValue D)
  pub output_columns : R → ColumnCatalog D R

pub record KipIter (K D R : Type 0) : Type 0 where
  pub offset : ℕ
  pub limit : Option ℕ
  pub projections : List R
  pub all_columns : List (ColumnCatalog D R)
  pub iter : Scan K

-- `num.sub_assign(1)` on `usize`.
abbrev pub sub_one : Option ℕ → Option ℕ
sub_one none = none
sub_one (some num) = some ((num + (2 ^ 64 - 1)) % 2 ^ 64)

abbrev pub is_zero : Option ℕ → Bool
is_zero (some zero) = true
is_zero _ = false

module _ {D R : Type 0} (p : Projector D R) where
  -- The values and the columns of the projected row.
  unfoldable pub project_values : List R → Tuple D R → Outcome TypeError (List (DataValue D))
  project_values [] tuple = ok []
  project_values (e ∷ es) tuple =
      Outcome.◌>>=◌ (p.eval e tuple)
        (λ v. Outcome.◌>>=◌ (project_values es tuple) (λ vs. ok (v ∷ vs)))

  abbrev pub project_columns : List R → List (ColumnCatalog D R)
  project_columns [] = []
  project_columns (e ∷ es) = p.output_columns e ∷ project_columns es

  -- The projected row, and the limit behind it.
  unfoldable pub tuple_projection :
      Option ℕ → List R → Tuple D R → Outcome TypeError (Tuple D R × Option ℕ)
  unfolding project_values
  tuple_projection limit projections tuple = Outcome.◌>>=◌ (project_values projections tuple) (λ vs.
      ok (
        record { id = tuple.id; columns = project_columns projections; values = vs },
        sub_one limit,
      ))

-- A method of `KipIter`.
abbrev pub Scanning : Type 0 → Type 0 → Type 0 → Type 0 → Type 0
Scanning K D R A = Method (KipIter K D R) (StorageError K) A

module _ {K : Type 0} where
  -- The loop over the offset, with the offset and the items that it leaves.
  unfoldable pub skip : ℕ → Scan K → Outcome K (Unit {0}) × ℕ × Scan K
  skip zero items = (ok tt, zero, items)
  skip (suc n) [] = skip n []
  skip (suc n) (ok _ ∷ items) = skip n items
  skip (suc n) (err e ∷ items) = (err e, suc n, items)
  skip (suc n) (panic ∷ items) = (panic, suc n, items)

  -- The next value that was not removed.
  unfoldable pub next_live : Scan K → Outcome K (Option Bytes) × Scan K
  next_live [] = (ok none, [])
  next_live (ok (key, some value) ∷ items) = (ok (some value), items)
  next_live (ok (key, none) ∷ items) = next_live items
  next_live (err e ∷ items) = (err e, items)
  next_live (panic ∷ items) = (panic, items)

module _ {K D R : Type 0} where
  unfoldable pub skip_offset : Scanning K D R (Unit {0})
  unfolding skip
  skip_offset it =
      let (r, offset, iter) = skip it.offset it.iter in
      (convert kip_db_error r, record it { offset = offset; iter = iter })

  abbrev pub found :
      Outcome (StorageError K) (Tuple D R × Option ℕ) → Scanning K D R (Option (Tuple D R))
  found (ok (tuple, limit)) it = (ok (some tuple), record it { limit = limit })
  found (err e) it = (err e, it)
  found panic it = (panic, it)

  abbrev pub take_live : Scanning K D R (Option Bytes)
  unfolding next_live
  take_live it =
      let (r, iter) = next_live it.iter in (convert kip_db_error r, record it { iter = iter })

module _ {K D R : Type 0} (x : External D) (p : Projector D R) where
  abbrev pub decode_project :
      KipIter K D R → Bytes → Outcome (StorageError K) (Tuple D R × Option ℕ)
  unfolding decode_tuple tuple_projection
  decode_project it value = convert type_error (
      Outcome.◌>>=◌ (decode_tuple x it.all_columns value)
        (tuple_projection p it.limit it.projections))

  abbrev pub next_row : Scanning K D R (Option (Tuple D R))
  next_row it =
      if is_zero it.limit
      then (ok none, it)
      else ((take_live >>= λ value. elim value [
        | none ↦ give none
        | some value ↦ λ it'. found (decode_project it' value) it'
      ])
          it)

  unfoldable pub next_tuple : Scanning K D R (Option (Tuple D R))
  unfolding skip_offset
  next_tuple = skip_offset >> next_row

  abbrev pub yielded :
      Outcome (StorageError K) (Option (Tuple D R)) × KipIter K D R
      → (KipIter K D R → List (Outcome (StorageError K) (Tuple D R)))
      → List (Outcome (StorageError K) (Tuple D R))
  yielded (ok none, it) rest = []
  yielded (ok (some tuple), it) rest = ok tuple ∷ rest it
  yielded (err e, it) rest = err e ∷ []
  yielded (panic, it) rest = panic ∷ []

  -- What `SeqScan::_execute` of src/execution/executor/dql/seq_scan.rs yields of the iterator, an error
  -- being the last. The fuel bounds the rows.
  unfoldable pub scan_rows : ℕ → KipIter K D R → List (Outcome (StorageError K) (Tuple D R))
  unfolding next_tuple
  scan_rows zero it = []
  scan_rows (suc fuel) it = yielded (next_tuple it) (scan_rows fuel)
