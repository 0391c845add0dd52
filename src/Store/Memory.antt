-- ===== src/Store/Memory.antt =====
-- A store in memory that meets what src/storage/kip.rs relies on: the entries in the order of their
-- keys, those removed without a value.
use kip_sql.Prelude.{
  ◌≡◌, refl, ap, ◌∙◌, Bool, true, not, ◌&&◌, Option, none, some, List, [], ◌∷◌, Ordering, is_lt,
  is_gt, is_some, if◌then◌else◌, All, arith, Bool-cases, inl, inr, reverse_cmp,
}
use kip_sql.Prelude.Bytes.{
  Bytes, compare_bytes, compare_bytes_refl, compare_bytes-eq, compare_bytes_swap,
}
use kip_sql.Prelude.Outcome.{ok, err}
use kip_sql.Prelude.Sort.{Sorted}
use kip_sql.Prelude.Sorted.{find, insert, place, find-insert_self, find-insert_ne}
use kip_sql.Range.{Bound, included, excluded, unbounded}
use kip_sql.Codec.Prefix.{InBound}
use kip_sql.Catalog.Table.Lookup.{bytes-IsOrder}
use kip_sql.Store.{Kv}
use kip_sql.Store.Laws.{IsStore, Item, listed, all_ok, same, same_eq}

abbrev pub Before : Bytes → Item → Type 0
Before k e = compare_bytes k e.0 ≡ Ordering.lt

abbrev pub InOrder : List Item → Type 0
InOrder = Sorted (λ e. Before e.0)

pub record Memory : Type 0 where
  pub entries : List Item
  pub in_order : InOrder entries

compare_bytes_trans :
    (a b c : Bytes)
    → compare_bytes a b ≡ Ordering.lt
    → compare_bytes b c ≡ Ordering.lt
    → compare_bytes a c ≡ Ordering.lt
unfolding compare_bytes
compare_bytes_trans [] [] c h l = ground arith
compare_bytes_trans [] (y ∷ b) [] h l = ground arith
compare_bytes_trans [] (y ∷ b) (z ∷ c) h l = refl
compare_bytes_trans (x ∷ a) [] c h l = ground arith
compare_bytes_trans (x ∷ a) (y ∷ b) [] h l = ground arith
compare_bytes_trans (x ∷ a) (y ∷ b) (z ∷ c) h l = ground (arith, compare_bytes_trans a b c)

Before-trans :
    (a k : Bytes) (m : List Item)
    → compare_bytes a k ≡ Ordering.lt
    → All (Before k) m
    → All (Before a) m
Before-trans a k [] h l = tt
Before-trans a k (e ∷ m) h l = (compare_bytes_trans a k e.0 h l.0, Before-trans a k m h l.1)

All-place :
    (a k : Bytes) (v : Option Bytes) (j : Bytes) (w : Option Bytes) (m rest : List Item)
    (o : Ordering)
    → compare_bytes a k ≡ Ordering.lt
    → All (Before a) ((j, w) ∷ m)
    → All (Before a) rest
    → All (Before a) (place compare_bytes k v j w m rest o)
All-place a k v j w m rest Ordering.lt l h r = (l, h)
All-place a k v j w m rest Ordering.eq l h r = (l, h.1)
All-place a k v j w m rest Ordering.gt l h r = (h.0, r)

All-insert :
    (a k : Bytes) (v : Option Bytes) (m : List Item)
    → compare_bytes a k ≡ Ordering.lt
    → All (Before a) m
    → All (Before a) (insert compare_bytes k v m)
unfolding insert
All-insert a k v [] l h = (l, tt)
All-insert a k v ((j, w) ∷ m) l h =
    All-place a k v j w m (insert compare_bytes k v m) (compare_bytes k j) l h
      (All-insert a k v m l h.1)

place-InOrder :
    (k : Bytes) (v : Option Bytes) (j : Bytes) (w : Option Bytes) (m rest : List Item)
    (o : Ordering)
    → compare_bytes k j ≡ o
    → InOrder ((j, w) ∷ m)
    → InOrder rest
    → (compare_bytes j k ≡ Ordering.lt → All (Before j) rest)
    → InOrder (place compare_bytes k v j w m rest o)
place-InOrder k v j w m rest Ordering.lt e h r f = ((e, Before-trans k j m e h.0), h)
place-InOrder k v j w m rest Ordering.eq e h r f = (rw (compare_bytes-eq k j e) h.0, h.1)
place-InOrder k v j w m rest Ordering.gt e h r f =
    (f (compare_bytes_swap k j ∙ ap reverse_cmp e), r)

pub insert-InOrder :
    (k : Bytes) (v : Option Bytes) (m : List Item)
    → InOrder m
    → InOrder (insert compare_bytes k v m)
unfolding insert
insert-InOrder k v [] h = (tt, tt)
insert-InOrder k v ((j, w) ∷ m) h =
    place-InOrder k v j w m (insert compare_bytes k v m) (compare_bytes k j) refl h
      (insert-InOrder k v m h.1) (λ l. All-insert j k v m l h.0)

-- A key that was removed, and one that never was there, hold nothing.
abbrev pub flat : Option (Option Bytes) → Option Bytes
flat none = none
flat (some v) = v

abbrev pub held : Memory → Bytes → Option Bytes
unfolding find
held s k = flat (find compare_bytes k s.entries)

abbrev pub put : Bytes → Option Bytes → Memory → Memory
unfolding insert
put k v s = record {
  entries = insert compare_bytes k v s.entries;
  in_order = insert-InOrder k v s.entries s.in_order;
}

abbrev pub after : Bound Bytes → Bytes → Bool
after unbounded k = true
after (included lo) k = not (is_lt (compare_bytes k lo))
after (excluded lo) k = is_gt (compare_bytes k lo)

abbrev pub before : Bound Bytes → Bytes → Bool
before unbounded k = true
before (included hi) k = not (is_gt (compare_bytes k hi))
before (excluded hi) k = is_lt (compare_bytes k hi)

abbrev pub between : Bound Bytes → Bound Bytes → List Item → List Item
between lo hi [] = []
between lo hi (e ∷ m) =
    let rest = between lo hi m in if after lo e.0 && before hi e.0 then e ∷ rest else rest

-- The key is not there.
pub data KeyNotFound : Type 0 where
  key_not_found : KeyNotFound

unfoldable pub memory : Kv Memory KeyNotFound
unfolding find insert compare_bytes
memory = record {
  get = λ s k. ok (held s k);
  set = λ s k v. put k (some v) s;
  remove = λ s k. if is_some (held s k) then ok (put k none s) else err key_not_found;
  iter = λ s lo hi. ok (all_ok (between lo hi s.entries));
}

pub held-put :
    (s : Memory) (k : Bytes) (v : Option Bytes) (j : Bytes)
    → held (put k v s) j ≡ (if same j k then v else held s j)
unfolding held put
held-put s k v j = elim (Bool-cases (same j k)) [
  | inl e ↦ rw (e, same_eq j k e, find-insert_self bytes-IsOrder k v s.entries) refl
  | inr e ↦ rw (e, find-insert_ne bytes-IsOrder j k v s.entries e) refl
]

find_behind :
    (k : Bytes) (w : Option Bytes) (m n : List Item)
    → All (Before k) n
    → All (λ e. find compare_bytes e.0 m ≡ some e.1) n
    → All (λ e. find compare_bytes e.0 ((k, w) ∷ m) ≡ some e.1) n
unfolding find
find_behind k w m [] b h = tt
find_behind k w m (e ∷ n) b h =
    (ground (arith, compare_bytes_swap k e.0, b.0, h.0), find_behind k w m n b.1 h.1)

pub find-All : (m : List Item) → InOrder m → All (λ e. find compare_bytes e.0 m ≡ some e.1) m
find-All [] h = tt
find-All (e ∷ m) h =
    (unfold find in rw (compare_bytes_refl e.0) refl, find_behind e.0 e.1 m m h.0 (find-All m h.1))

within :
    (k lo hi : Bytes)
    → (after (included lo) k && before (included hi) k) ≡ true
    → InBound (lo, hi) k
within k lo hi h = (λ e. ground arith, λ e. ground arith)

within_true :
    (k lo hi : Bytes)
    → InBound (lo, hi) k
    → (after (included lo) k && before (included hi) k) ≡ true
within_true k lo hi i = ground (arith, i.0, i.1)

pub between-truthful :
    (f : Bytes → Option Bytes) (lo hi : Bytes) (m : List Item)
    → All (λ e. f e.0 ≡ e.1) m
    → All (λ e. InBound (lo, hi) e.0 × (f e.0 ≡ e.1)) (between (included lo) (included hi) m)
between-truthful f lo hi [] h = tt
between-truthful f lo hi (e ∷ m) h =
    elim (Bool-cases (after (included lo) e.0 && before (included hi) e.0)) [
      | inl b ↦ rw b ((within e.0 lo hi b, h.0), between-truthful f lo hi m h.1)
      | inr b ↦ rw b (between-truthful f lo hi m h.1)
    ]

between-All :
    (P : Item → Type 0) (lo hi : Bound Bytes) (m : List Item) → All P m → All P (between lo hi m)
between-All P lo hi [] h = tt
between-All P lo hi (e ∷ m) h = elim (Bool-cases (after lo e.0 && before hi e.0)) [
  | inl b ↦ rw b (h.0, between-All P lo hi m h.1)
  | inr b ↦ rw b (between-All P lo hi m h.1)
]

pub between-InOrder : (lo hi : Bound Bytes) (m : List Item) → InOrder m → InOrder (between lo hi m)
between-InOrder lo hi [] h = tt
between-InOrder lo hi (e ∷ m) h = elim (Bool-cases (after lo e.0 && before hi e.0)) [
  | inl b ↦ rw b (between-All (Before e.0) lo hi m h.0, between-InOrder lo hi m h.1)
  | inr b ↦ rw b (between-InOrder lo hi m h.1)
]

pub between-listed :
    (k v lo hi : Bytes) (m : List Item)
    → InBound (lo, hi) k
    → flat (find compare_bytes k m) ≡ some v
    → listed k (between (included lo) (included hi) m) ≡ true
unfolding find
between-listed k v lo hi [] i h = cc
between-listed k v lo hi (e ∷ m) i h = elim (Bool-cases (same k e.0)) [
  | inl q ↦ rw (← same_eq k e.0 q, within_true k lo hi i, compare_bytes_refl) refl
  | inr q ↦ elim (Bool-cases (after (included lo) e.0 && before (included hi) e.0)) [
    | inl b ↦ rw (b, q) (between-listed k v lo hi m i (rw q at h))
    | inr b ↦ rw b (between-listed k v lo hi m i (rw q at h))
  ]
]

pub flat-All :
    (m n : List Item)
    → All (λ e. find compare_bytes e.0 m ≡ some e.1) n
    → All (λ e. flat (find compare_bytes e.0 m) ≡ e.1) n
flat-All m [] h = tt
flat-All m (e ∷ n) h = (rw h.0 refl, flat-All m n h.1)

-- The store in memory has the laws.
unfoldable pub memory-IsStore : IsStore memory
unfolding memory find insert compare_bytes
memory-IsStore = record {
  contents = λ s k. held s k;
  get_lem = λ s k. refl;
  set_lem = λ s k v j. held-put s k (some v) j;
  remove_lem = λ s k v h. (put k none s, rw h refl, λ j. held-put s k none j);
  iter_lem = λ s bound. (
    between (included bound.0) (included bound.1) s.entries,
    refl,
    record {
      truthful =
          between-truthful (held s) bound.0 bound.1 s.entries
            (flat-All s.entries s.entries (find-All s.entries s.in_order));
      complete = λ k v i h. between-listed k v bound.0 bound.1 s.entries i h;
      ordered = between-InOrder (included bound.0) (included bound.1) s.entries s.in_order;
    },
  );
}
