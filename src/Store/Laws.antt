-- ===== src/Store/Laws.antt =====
-- What src/storage/kip.rs relies on of the crate kip_db, and the loops over a scan under these laws.
use kip_sql.Prelude.{
  ◌≡◌, refl, Bool, true, false, Option, none, some, List, [], ◌∷◌, Ordering, is_eq, if◌then◌else◌,
  All, arith, Bool-cases, inl, inr,
}
use kip_sql.Prelude.Bytes.{
  Bytes, compare_bytes, compare_bytes-eq, compare_bytes_swap, compare_bytes_refl,
}
use kip_sql.Prelude.Outcome.{ok}
use kip_sql.Prelude.Sort.{Sorted}
use kip_sql.Range.{included}
use kip_sql.Codec.Prefix.{InBound}
use kip_sql.Store.{Kv, Scan}
use kip_sql.Store.Methods.{live_keys}

abbrev pub same : Bytes → Bytes → Bool
same j k = is_eq (compare_bytes j k)

pub same_eq : (j k : Bytes) → same j k ≡ true → j ≡ k
same_eq j k h = compare_bytes-eq j k (ground arith)

pub same_refl : (k : Bytes) → same k k ≡ true
same_refl k = rw (compare_bytes_refl k) refl

abbrev pub Item : Type 0
Item = Bytes × Option Bytes

-- The key is that of an item.
abbrev pub listed : Bytes → List Item → Bool
listed j [] = false
listed j (e ∷ items) = if same j e.0 then true else listed j items

abbrev pub all_ok : {K : Type 0} → List Item → Scan K
all_ok [] = []
all_ok (e ∷ items) = ok e ∷ all_ok items

-- A scan lists, in the order of their keys, keys of the bound with what the store holds under them:
-- all keys that hold a value, and perhaps keys that were removed.
pub record Lists (contents : Bytes → Option Bytes) (bound : Bytes × Bytes) (items : List Item)
    : Type 0 where
  pub truthful : All (λ e. InBound bound e.0 × (contents e.0 ≡ e.1)) items
  pub complete : (k v : Bytes) → InBound bound k → contents k ≡ some v → listed k items ≡ true
  pub ordered : Sorted (λ e f. compare_bytes e.0 f.0 ≡ Ordering.lt) items

-- The store maps keys to values; a key can be removed when it is there.
pub record IsStore {S K : Type 0} (kv : Kv S K) : Type 0 where
  pub contents : S → Bytes → Option Bytes
  pub get_lem : (s : S) (k : Bytes) → kv.get s k ≡ ok (contents s k)
  pub set_lem :
      (s : S) (k v j : Bytes)
      → contents (kv.set s k v) j ≡ (if same j k then some v else contents s j)
  pub remove_lem :
      (s : S) (k v : Bytes)
      → contents s k ≡ some v
      → (s' : S) × (kv.remove s k ≡ ok s')
        × ((j : Bytes) → contents s' j ≡ (if same j k then none else contents s j))
  pub iter_lem :
      (s : S) (bound : Bytes × Bytes)
      → (items : List Item) × (kv.iter s (included bound.0) (included bound.1) ≡ ok (all_ok items))
        × Lists (contents s) bound items

abbrev pub live : List Item → List Bytes
live [] = []
live ((k, none) ∷ items) = live items
live ((k, some v) ∷ items) = k ∷ live items

abbrev pub mem : Bytes → List Bytes → Bool
mem j [] = false
mem j (k ∷ ks) = if same j k then true else mem j ks

abbrev pub Distinct : List Bytes → Type 0
Distinct [] = Unit
Distinct (k ∷ ks) = All (λ j. same j k ≡ false) ks × Distinct ks

pub live_keys-all_ok :
    {K : Type 0} (items : List Item) → live_keys {K = K} (all_ok items) ≡ ok (live items)
unfolding live_keys
live_keys-all_ok [] = refl
live_keys-all_ok ((k, none) ∷ items) = live_keys-all_ok items
live_keys-all_ok {K} ((k, some v) ∷ items) = rw (live_keys-all_ok {K = K} items) refl

live-All : (P : Bytes → Type 0) (items : List Item) → All (λ e. P e.0) items → All P (live items)
live-All P [] h = tt
live-All P ((k, none) ∷ items) h = live-All P items h.1
live-All P ((k, some v) ∷ items) h = (h.0, live-All P items h.1)

pub mem-All : (P : Bytes → Type 0) (j : Bytes) (ks : List Bytes) → All P ks → mem j ks ≡ true → P j
mem-All P j [] h m = absurd (ground arith)
mem-All P j (k ∷ ks) h m = elim (Bool-cases (same j k)) [
  | inl e ↦ rw (same_eq j k e) h.0
  | inr e ↦ mem-All P j ks h.1 (rw e at m)
]

lt_not_same :
    (e : Item) (items : List Item)
    → All (λ f. compare_bytes e.0 f.0 ≡ Ordering.lt) items
    → All (λ f. same f.0 e.0 ≡ false) items
lt_not_same e [] h = tt
lt_not_same e (f ∷ items) h =
    (ground (arith, compare_bytes_swap e.0 f.0, h.0), lt_not_same e items h.1)

pub live-Distinct :
    (items : List Item)
    → Sorted (λ e f. compare_bytes e.0 f.0 ≡ Ordering.lt) items
    → Distinct (live items)
live-Distinct [] h = tt
live-Distinct ((k, none) ∷ items) h = live-Distinct items h.1
live-Distinct ((k, some v) ∷ items) h = (
  live-All (λ j. same j k ≡ false) items (lt_not_same (k, some v) items h.0),
  live-Distinct items h.1,
)

abbrev pub Present : (Bytes → Option Bytes) → Bytes → Type 0
Present f k = (v : Bytes) × (f k ≡ some v)

pub live-Present :
    (f : Bytes → Option Bytes) (bound : Bytes × Bytes) (items : List Item)
    → All (λ e. InBound bound e.0 × (f e.0 ≡ e.1)) items
    → All (Present f) (live items)
live-Present f bound [] h = tt
live-Present f bound ((k, none) ∷ items) h = live-Present f bound items h.1
live-Present f bound ((k, some v) ∷ items) h = ((v, h.0.1), live-Present f bound items h.1)

pub live-InBound :
    (f : Bytes → Option Bytes) (bound : Bytes × Bytes) (items : List Item)
    → All (λ e. InBound bound e.0 × (f e.0 ≡ e.1)) items
    → All (InBound bound) (live items)
live-InBound f bound [] h = tt
live-InBound f bound ((k, none) ∷ items) h = live-InBound f bound items h.1
live-InBound f bound ((k, some v) ∷ items) h = (h.0.0, live-InBound f bound items h.1)

-- A listed key that holds a value is among the live ones.
pub live-mem :
    (f : Bytes → Option Bytes) (bound : Bytes × Bytes) (items : List Item) (j v : Bytes)
    → All (λ e. InBound bound e.0 × (f e.0 ≡ e.1)) items
    → f j ≡ some v
    → listed j items ≡ true
    → mem j (live items) ≡ true
live-mem f bound [] j v h e l = l
live-mem f bound ((k, none) ∷ items) j v h e l = elim (Bool-cases (same j k)) [
  | inl q ↦ let r : f j ≡ none = rw (same_eq j k q) h.0.1 in absurd (ground (arith, r, e))
  | inr q ↦ live-mem f bound items j v h.1 e (rw q at l)
]
live-mem f bound ((k, some w) ∷ items) j v h e l = elim (Bool-cases (same j k)) [
  | inl q ↦ rw q refl
  | inr q ↦ rw q (live-mem f bound items j v h.1 e (rw q at l))
]
