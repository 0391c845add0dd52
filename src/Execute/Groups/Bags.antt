-- ===== src/Execute/Groups/Bags.antt =====
-- Rows put into groups by their keys, as src/execution/executor/dql/aggregate/hash_agg.rs promises of a
-- hash aggregation, and entries of a map that are updated row by row.
use kip_sql.Prelude.{
  ◌≡◌, refl, sym, ap, ◌∙◌, inl, inr, Bool, true, false, Bool-cases, Option, none, some, List, [],
  ◌∷◌, ◌++◌, if◌then◌else◌,
}
use kip_sql.Prelude.Outcome.{Outcome, ok, err, panic, ◌>>=◌, to_option}
use mathlib.Core.Path.{fun_ext}

abbrev pub bind : {A B : Type 0} → Option A → (A → Option B) → Option B
bind none f = none
bind (some a) f = f a

pub bind-none : {A B : Type 0} (o : Option A) → bind {B = B} o (λ a. none) ≡ none
bind-none none = refl
bind-none (some a) = refl

pub bind-some : {A : Type 0} (o : Option A) → bind o (λ a. some a) ≡ o
bind-some none = refl
bind-some (some a) = refl

pub bind_assoc :
    {A B C : Type 0} (o : Option A) (f : A → Option B) (g : B → Option C)
    → bind (bind o f) g ≡ bind o (λ a. bind (f a) g)
bind_assoc none f g = refl
bind_assoc (some a) f g = refl

pub to_option-bind :
    {E A B : Type 0} (r : Outcome E A) (f : A → Outcome E B)
    → to_option (r >>= f) ≡ bind (to_option r) (λ a. to_option (f a))
to_option-bind (ok a) f = refl
to_option-bind (err e) f = refl
to_option-bind panic f = refl

-- Groups of keys `K` with rows `V`.
module _ {K V : Type 0} (same : K → K → Bool) where
  -- The row joins the first group of its key, or starts one.
  unfoldable pub add_row : K → V → List (K × List V) → List (K × List V)
  add_row k v [] = (k, v ∷ []) ∷ []
  add_row k v ((k', rows) ∷ bags) =
      let rest = add_row k v bags in
      if same k' k then (k', rows ++ (v ∷ [])) ∷ bags else (k', rows) ∷ rest

  unfoldable pub add_rows : List (K × V) → List (K × List V) → List (K × List V)
  unfolding add_row
  add_rows [] bags = bags
  add_rows ((k, v) ∷ rows) bags = add_rows rows (add_row k v bags)

-- States `A` that rows are fed to.
module _ {K V A : Type 0} (same : K → K → Bool) (start : Option A) (update : A → V → Option A) where
  unfoldable pub feed_rows : A → List V → Option A
  feed_rows a [] = some a
  feed_rows a (v ∷ rows) = bind (update a v) (λ a'. feed_rows a' rows)

  -- Each group is fed its rows in their order.
  unfoldable pub fed : List (K × List V) → Option (List (K × A))
  unfolding feed_rows
  fed [] = some []
  fed ((k, rows) ∷ bags) =
      bind (bind start (λ a. feed_rows a rows)) (λ a. bind (fed bags) (λ gs. some ((k, a) ∷ gs)))

  unfoldable pub entry : K → V → List (K × A) → Option (List (K × A))
  entry k v [] = bind start (λ a. bind (update a v) (λ a'. some ((k, a') ∷ [])))
  entry k v ((k', a) ∷ gs) =
      let rest = entry k v gs in
      if same k' k
      then bind (update a v) (λ a'. some ((k', a') ∷ gs))
      else bind rest (λ gs'. some ((k', a) ∷ gs'))

  feed_rows-snoc :
      (a : A) (rows : List V) (v : V)
      → feed_rows a (rows ++ (v ∷ [])) ≡ bind (feed_rows a rows) (λ a'. update a' v)
  unfolding feed_rows
  feed_rows-snoc a [] v = bind-some (update a v)
  feed_rows-snoc a (w ∷ rows) v =
      ap (bind (update a w)) (fun_ext (λ a'. feed_rows-snoc a' rows v))
      ∙ sym (bind_assoc (update a w) (λ a'. feed_rows a' rows) (λ a'. update a' v))

  start_snoc :
      (rows : List V) (v : V)
      → bind start (λ a. feed_rows a (rows ++ (v ∷ [])))
        ≡ bind (bind start (λ a. feed_rows a rows)) (λ a'. update a' v)
  start_snoc rows v =
      ap (bind start) (fun_ext (λ a. feed_rows-snoc a rows v))
      ∙ sym (bind_assoc start (λ a. feed_rows a rows) (λ a'. update a' v))

  here :
      (k k' : K) (v : V) (o : Option A) (groups : Option (List (K × A)))
      → same k' k ≡ true
      → bind (bind o (λ a. update a v)) (λ a. bind groups (λ gs. some ((k', a) ∷ gs)))
        ≡ bind (bind o (λ a. bind groups (λ gs. some ((k', a) ∷ gs)))) (entry k v)
  unfolding entry
  here k k' v none groups h = refl
  here k k' v (some a) none h = bind-none (update a v)
  here k k' v (some a) (some gs) h = rw h refl

  further :
      (k k' : K) (v : V) (o : Option A) (groups : Option (List (K × A)))
      → same k' k ≡ false
      → bind o (λ a. bind (bind groups (entry k v)) (λ gs. some ((k', a) ∷ gs)))
        ≡ bind (bind o (λ a. bind groups (λ gs. some ((k', a) ∷ gs)))) (entry k v)
  unfolding entry
  further k k' v none groups h = refl
  further k k' v (some a) none h = refl
  further k k' v (some a) (some gs) h = rw h refl

  fed-add_row :
      (k : K) (v : V) (bags : List (K × List V))
      → fed (add_row same k v bags) ≡ bind (fed bags) (entry k v)
  unfolding fed add_row entry feed_rows
  fed-add_row k v [] =
      rw (start_snoc [] v, bind-some start)
        (bind_assoc start (λ a. update a v) (λ a. some ((k, a) ∷ [])))
  fed-add_row k v ((k', rows) ∷ bags) = elim (Bool-cases (same k' k)) [
    | inl h ↦
        rw (h, start_snoc rows v) (here k k' v (bind start (λ a. feed_rows a rows)) (fed bags) h)
    | inr h ↦
        rw (h, fed-add_row k v bags)
          (further k k' v (bind start (λ a. feed_rows a rows)) (fed bags) h)
  ]

  -- Entries that are updated row by row.
  unfoldable pub entries : List (K × V) → List (K × A) → Option (List (K × A))
  unfolding entry
  entries [] gs = some gs
  entries ((k, v) ∷ rows) gs = bind (entry k v gs) (entries rows)

  pub fed-add_rows :
      (rows : List (K × V)) (bags : List (K × List V))
      → fed (add_rows same rows bags) ≡ bind (fed bags) (entries rows)
  unfolding add_rows entries
  fed-add_rows [] bags = sym (bind-some (fed bags))
  fed-add_rows ((k, v) ∷ rows) bags =
      fed-add_rows rows (add_row same k v bags)
      ∙ ap (λ o. bind o (entries rows)) (fed-add_row k v bags)
      ∙ bind_assoc (fed bags) (entry k v) (entries rows)
