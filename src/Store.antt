-- ===== src/Store.antt =====
-- src/storage/mod.rs and src/storage/kip.rs: a transaction over an ordered key-value store. The store is
-- the crate kip_db: a record of operations on a state `S` with errors `K`. An iterator of it is the list
-- of what its calls of `try_next` give, in order; a key that the transaction removed comes with no value.
pub mod Methods
pub mod Laws
pub mod Drop
pub mod DropTable
pub mod Memory
pub mod Rows
mod Tests
pub mod Reads
pub mod Scans
pub mod ScanLaws
pub mod IndexScan
pub mod Lookup
pub mod IndexRead
use kip_sql.Prelude.{ℕ, Option, none, some, List, [], ◌∷◌}
use kip_sql.Prelude.Bytes.{Bytes}
use kip_sql.Prelude.Outcome.{Outcome, ok, err, panic}
use kip_sql.Types.{TypeError}
use kip_sql.Catalog.Table.{TableCatalog, CatalogError}
use kip_sql.Range.{Bound}

pub data StorageError (K : Type 0) : Type 0 where
  catalog_error : CatalogError → StorageError K
  kip_db_error : K → StorageError K
  type_error : TypeError → StorageError K
  duplicate_primary_key duplicate_unique_value table_not_found table_exists : StorageError K

-- What is left of an iterator.
abbrev pub Scan : Type 0 → Type 0
Scan K = List (Outcome K (Bytes × Option Bytes))

-- `mvcc::Transaction` of the crate.
pub record Kv (S K : Type 0) : Type 0 where
  pub get : S → Bytes → Outcome K (Option Bytes)
  pub set : S → Bytes → Bytes → S
  pub remove : S → Bytes → Outcome K S
  pub iter : S → Bound Bytes → Bound Bytes → Outcome K (Scan K)

-- `ShardingLruCache` of the crate, from names to catalogs. A look-up is a use, and changes the order.
pub record Cache (C D R : Type 0) : Type 0 where
  pub look_up : C → Bytes → Option (TableCatalog D R) × C
  pub put : C → Bytes → TableCatalog D R → C
  pub get_or_insert : C → Bytes → TableCatalog D R → Option (TableCatalog D R) × C
  pub forget : C → Bytes → C

-- `KipTransaction`.
pub record Transaction (S C : Type 0) : Type 0 where
  pub tx : S
  pub cache : C

-- A method: what it answers, and the transaction behind it, also after an error.
abbrev pub Method : Type 0 → Type 0 → Type 0 → Type 0
Method T E A = T → Outcome E A × T

module _ {T E : Type 0} where
  abbrev pub proceed : {A B : Type 0} → Outcome E A × T → (A → Method T E B) → Outcome E B × T
  proceed (ok a, t) f = f a t
  proceed (err e, t) f = (err e, t)
  proceed (panic, t) f = (panic, t)

  infixl 5 ◌>>=◌ ◌>>◌
  abbrev pub ◌>>=◌ : {A B : Type 0} → Method T E A → (A → Method T E B) → Method T E B
  ◌>>=◌ m f t = proceed (m t) f

  abbrev pub ◌>>◌ : {A B : Type 0} → Method T E A → Method T E B → Method T E B
  ◌>>◌ m n t = proceed (m t) (λ _. n)

  abbrev pub give : {A : Type 0} → A → Method T E A
  give a t = (ok a, t)

  abbrev pub fail : {A : Type 0} → E → Method T E A
  fail e t = (err e, t)

  abbrev pub abort : {A : Type 0} → Method T E A
  abort t = (panic, t)

-- `?` on an error of another type.
abbrev pub convert : {E F A : Type 0} → (E → F) → Outcome E A → Outcome F A
convert f (ok a) = ok a
convert f (err e) = err (f e)
convert f panic = panic
