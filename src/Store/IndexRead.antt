-- ===== src/Store/IndexRead.antt =====
-- src/storage/kip.rs: `read_by_index`. src/execution/executor/dql/index_scan.rs: the scan of an index.
use kip_sql.Prelude.{ℕ, zero, suc, Option, none, some, List, [], ◌∷◌}
use kip_sql.Prelude.Bytes.{Bytes}
use kip_sql.Prelude.Outcome.{Outcome, ok, err, panic}
use kip_sql.Value.{DataValue, External}
use kip_sql.Tuple.{Tuple}
use kip_sql.Range.{ConstantBinary}
use kip_sql.Codec.{IndexMeta, Bincode}
use kip_sql.Store.{StorageError, table_not_found, Kv, Cache, Transaction, Method, ◌>>=◌, give, fail}
use kip_sql.Store.Reads.{table}
use kip_sql.Store.Scans.{Projector}
use kip_sql.Store.IndexScan.{IndexIter, next_tuple}

-- `KipTransaction::read_by_index`.
module _ {S K C D R : Type 0} (kv : Kv S K) (cache : Cache C D R) (z : Bincode D R) where
  unfoldable pub read_by_index :
      Bytes
      → Option ℕ × Option ℕ
      → List R
      → IndexMeta
      → List (ConstantBinary (DataValue D))
      → Method (Transaction S C) (StorageError K) (IndexIter K D R)
  unfolding table
  read_by_index table_name bounds projections index_meta binaries =
      table kv cache z table_name >>= λ found. elim found [
        | none ↦ fail table_not_found
        | some catalog ↦ give (record {
          offset = elim bounds.0 [ none ↦ 0 | some n ↦ n ];
          limit = bounds.1;
          projections = projections;
          index_meta = index_meta;
          table = catalog;
          index_values = [];
          binaries = binaries;
          scope_iter = none;
        })
      ]

module _ {K D R : Type 0} where
  abbrev pub row_then :
      Outcome (StorageError K) (Option (Tuple D R))
      → List (Outcome (StorageError K) (Tuple D R))
      → List (Outcome (StorageError K) (Tuple D R))
  row_then (ok none) rest = []
  row_then (ok (some tuple)) rest = ok tuple ∷ rest
  row_then (err e) rest = err e ∷ []
  row_then panic rest = panic ∷ []

module _ {S K D R : Type 0} (kv : Kv S K) (x : External D) (z : Bincode D R) (p : Projector D R)
    (tx : S) where
  -- What `IndexScan::_execute` of src/execution/executor/dql/index_scan.rs yields of the iterator. The fuel
  -- bounds the rows.
  unfoldable pub index_rows : ℕ → IndexIter K D R → List (Outcome (StorageError K) (Tuple D R))
  unfolding next_tuple
  index_rows zero it = []
  index_rows (suc fuel) it =
      let (r, it') = next_tuple kv x z p tx it in row_then r (index_rows fuel it')
