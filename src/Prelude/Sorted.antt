-- ===== src/Prelude/Sorted.antt =====
-- `BTreeMap`: an association list in the order of its keys.
use mathlib.Core.Path.{◌≡◌, refl, ap}
use mathlib.Core.Bool.{Bool, false}
use mathlib.Core.List.{List, [], ◌∷◌, ◌++◌}
use mathlib.Core.Option.{Option, none, some}
use Prim.Native.Nat.{Ordering}
use kip_sql.Prelude.Tests.{is_eq, is_some, if◌then◌else◌}
use kip_sql.Prelude.Lists.{All}

-- What the maps need of `Ord`: only equal keys compare as equal.
pub record IsOrder {K : Type 0} (cmp : K → K → Ordering) : Type 0 where
  pub same : (k : K) → cmp k k ≡ Ordering.eq
  pub equal : (j k : K) → cmp j k ≡ Ordering.eq → j ≡ k

module _ {K V : Type 0} where
  abbrev pub values : List (K × V) → List V
  values [] = []
  values ((_, v) ∷ m) = v ∷ values m

  pub values-append : (m n : List (K × V)) → values (m ++ n) ≡ values m ++ values n
  values-append [] n = refl
  values-append ((k, v) ∷ m) n = ap (◌∷◌ v) (values-append m n)

module _ {K V : Type 0} (cmp : K → K → Ordering) where
  unfoldable pub find : K → List (K × V) → Option V
  find k [] = none
  find k ((j, v) ∷ m) = if is_eq (cmp k j) then some v else find k m

  abbrev pub place : K → V → K → V → List (K × V) → List (K × V) → Ordering → List (K × V)
  place k v j w m rest Ordering.lt = (k, v) ∷ (j, w) ∷ m
  place k v j w m rest Ordering.eq = (k, v) ∷ m
  place k v j w m rest Ordering.gt = (j, w) ∷ rest

  unfoldable pub insert : K → V → List (K × V) → List (K × V)
  insert k v [] = (k, v) ∷ []
  insert k v ((j, w) ∷ m) = let rest = insert k v m in place k v j w m rest (cmp k j)

  unfoldable pub contains_key : K → List (K × V) → Bool
  unfolding find
  contains_key k m = is_some (find k m)

module _ {K V : Type 0} {cmp : K → K → Ordering} (order : IsOrder cmp) where
  insert_step :
      (k : K) (v : V) (j : K) (w : V) (m rest : List (K × V)) (o : Ordering)
      → cmp k j ≡ o
      → find cmp k rest ≡ some v
      → find cmp k (place cmp k v j w m rest o) ≡ some v
  unfolding find
  insert_step k v j w m rest Ordering.lt e h = rw order.same refl
  insert_step k v j w m rest Ordering.eq e h = rw order.same refl
  insert_step k v j w m rest Ordering.gt e h = rw e h

  pub find-insert_self : (k : K) (v : V) (m : List (K × V)) → find cmp k (insert cmp k v m) ≡ some v
  unfolding find insert
  find-insert_self k v [] = rw order.same refl
  find-insert_self k v ((j, w) ∷ m) =
      insert_step k v j w m (insert cmp k v m) (cmp k j) refl (find-insert_self k v m)

  other_step :
      (i k : K) (v : V) (j : K) (w : V) (m rest : List (K × V)) (o : Ordering)
      → cmp k j ≡ o
      → is_eq (cmp i k) ≡ false
      → find cmp i rest ≡ find cmp i m
      → find cmp i (place cmp k v j w m rest o) ≡ find cmp i ((j, w) ∷ m)
  unfolding find
  other_step i k v j w m rest Ordering.lt e n h = rw n refl
  other_step i k v j w m rest Ordering.eq e n h = let q = order.equal k j e in rw (← q, n) refl
  other_step i k v j w m rest Ordering.gt e n h = ap (if◌then◌else◌ (is_eq (cmp i j)) (some w)) h

  pub find-insert_ne :
      (i k : K) (v : V) (m : List (K × V))
      → is_eq (cmp i k) ≡ false
      → find cmp i (insert cmp k v m) ≡ find cmp i m
  unfolding find insert
  find-insert_ne i k v [] n = rw n refl
  find-insert_ne i k v ((j, w) ∷ m) n =
      other_step i k v j w m (insert cmp k v m) (cmp k j) refl n (find-insert_ne i k v m n)

  -- A key above all others is put last.
  pub insert-last :
      (k : K) (v : V) (m : List (K × V))
      → All (λ e. cmp k e.0 ≡ Ordering.gt) m
      → insert cmp k v m ≡ m ++ ((k, v) ∷ [])
  unfolding insert
  insert-last k v [] h = refl
  insert-last k v ((j, w) ∷ m) h = rw h.0 (ap (◌∷◌ (j, w)) (insert-last k v m h.1))
