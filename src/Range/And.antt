-- ===== src/Range/And.antt =====
-- `and_scope_aggregation` of src/expression/simplify.rs against the meaning of a condition.
use kip_sql.Prelude.{
  ◌≡◌, Bool, true, false, List, [], ◌∷◌, All, refl, Bool-cases, if◌then◌else◌, inl, inr,
}
use kip_sql.Prelude.Sort.{sort_by, sort_by-All}
use kip_sql.Prelude.Outcome.{ok}
use kip_sql.Range.{
  Bound, unbounded, ConstantBinary, scope, eq, not_eq, and_of, or_of, included, excluded,
  Comparison, Aggregate, and_step, and_fold, and_scope_aggregation, insert, remove, contains,
  bound_compared, lt_holds, gt_holds, is_empty, key_le, value_le, first_eq, scope_or_none,
}
use kip_sql.Range.Meaning.{IsLinear, BoundIs, Holds, above, below}

-- A range, or one value allowed or excluded, with values of the kind `K`.
abbrev pub IsSimple : {V : Type 0} → (V → Type 0) → ConstantBinary V → Type 0
IsSimple K (scope min max) = BoundIs K min × BoundIs K max
IsSimple K (eq w) = K w
IsSimple K (not_eq w) = K w
IsSimple K _ = ⊥

abbrev pub IsScope : {V : Type 0} → (V → Type 0) → ConstantBinary V → Type 0
IsScope K (scope min max) = BoundIs K min × BoundIs K max
IsScope K _ = ⊥

module _ {V : Type 0} (c : Comparison V) (P : V → Type 0) where
  insert-All : (ws : List V) (v : V) → All P ws → P v → All P (insert c ws v)
  unfolding insert
  insert-All ws v ps p = elim (Bool-cases (contains c ws v)) [
    | inl h ↦ rw h ps
    | inr h ↦ rw h (p, ps)
  ]

  remove-All : (ws : List V) (v : V) → All P ws → All P (remove c ws v)
  unfolding remove
  remove-All [] v ps = tt
  remove-All (w ∷ ws) v ps = elim (Bool-cases (c.same w v)) [
    | inl h ↦ rw h (remove-All ws v ps.1)
    | inr h ↦ rw h (ps.0, remove-All ws v ps.1)
  ]

module _ {V : Type 0} {c : Comparison V} {K : V → Type 0} (linear : IsLinear c K) where
  record Kinds (a : Aggregate c) : Type 0 where
    min_kind : BoundIs K a.scope_min
    max_kind : BoundIs K a.scope_max
    eq_kinds : All K a.eq_set

  record Inside (v : V) (a : Aggregate c) : Type 0 where
    over_min : above c a.scope_min v ≡ true
    under_max : below c a.scope_max v ≡ true
    all_equal : All (λ w. Holds c v (eq w)) a.eq_set

  chosen : {A : Type 0} (P : A → Type 0) (b : Bool) (x y : A) → P x → P y → P (if b then x else y)
  chosen P true x y p q = p
  chosen P false x y p q = q

  record Step (a : Aggregate c) (b : ConstantBinary V) : Type 0 where
    next : Aggregate c
    taken : and_step c a b ≡ ok next
    kinds : Kinds next
    keeps : (v : V) → K v → Inside v a → Holds c v b → Inside v next

  and_step_lem : (a : Aggregate c) (b : ConstantBinary V) → Kinds a → IsSimple K b → Step a b
  unfolding and_step Holds
  and_step_lem a (eq w) k s = record {
    next = record {
      scope_min = a.scope_min;
      scope_max = a.scope_max;
      eq_set = insert c a.eq_set w;
    };
    taken = refl;
    kinds = record {
      min_kind = k.min_kind;
      max_kind = k.max_kind;
      eq_kinds = insert-All c K a.eq_set w k.eq_kinds s;
    };
    keeps = λ v kv i h. record {
      over_min = i.over_min;
      under_max = i.under_max;
      all_equal = insert-All c (λ w. Holds c v (eq w)) a.eq_set w i.all_equal h;
    };
  }
  and_step_lem a (not_eq w) k s = record {
    next = record {
      scope_min = a.scope_min;
      scope_max = a.scope_max;
      eq_set = remove c a.eq_set w;
    };
    taken = refl;
    kinds = record {
      min_kind = k.min_kind;
      max_kind = k.max_kind;
      eq_kinds = remove-All c K a.eq_set w k.eq_kinds;
    };
    keeps = λ v kv i h. record {
      over_min = i.over_min;
      under_max = i.under_max;
      all_equal = remove-All c (λ w. Holds c v (eq w)) a.eq_set w i.all_equal;
    };
  }
  and_step_lem a (scope min max) k s = elim (Bool-cases (is_empty a.eq_set)) [
    | inl h ↦ record {
      next = record {
        scope_min = if lt_holds c (bound_compared c a.scope_min min true) then min else a.scope_min;
        scope_max =
            if gt_holds c (bound_compared c a.scope_max max false) then max else a.scope_max;
        eq_set = a.eq_set;
      };
      taken = rw h refl;
      kinds = record {
        min_kind =
            chosen (BoundIs K) (lt_holds c (bound_compared c a.scope_min min true)) min a.scope_min
              s.0 k.min_kind;
        max_kind =
            chosen (BoundIs K) (gt_holds c (bound_compared c a.scope_max max false)) max a.scope_max
              s.1 k.max_kind;
        eq_kinds = k.eq_kinds;
      };
      keeps = λ v kv i m. record {
        over_min =
            chosen (λ b. above c b v ≡ true) (lt_holds c (bound_compared c a.scope_min min true))
              min a.scope_min m.0 i.over_min;
        under_max =
            chosen (λ b. below c b v ≡ true) (gt_holds c (bound_compared c a.scope_max max false))
              max a.scope_max m.1 i.under_max;
        all_equal = i.all_equal;
      };
    }
    | inr h ↦ record { next = a; taken = rw h refl; kinds = k; keeps = λ v kv i m. i }
  ]
  and_step_lem a (and_of _) k s = elim s [ ]
  and_step_lem a (or_of _) k s = elim s [ ]

  record Fold (a : Aggregate c) (bs : List (ConstantBinary V)) : Type 0 where
    last : Aggregate c
    folded : and_fold c a bs ≡ ok last
    kinds : Kinds last
    keeps : (v : V) → K v → Inside v a → All (Holds c v) bs → Inside v last

  and_fold_lem :
      (a : Aggregate c) (bs : List (ConstantBinary V)) → Kinds a → All (IsSimple K) bs → Fold a bs
  unfolding and_fold
  and_fold_lem a [] k s = record { last = a; folded = refl; kinds = k; keeps = λ v kv i m. i }
  and_fold_lem a (b ∷ bs) k s =
      let step = and_step_lem a b k s.0 in
      let rest = and_fold_lem step.next bs step.kinds s.1 in
      record {
        last = rest.last;
        folded = rw step.taken rest.folded;
        kinds = rest.kinds;
        keeps = λ v kv i m. rest.keeps v kv (step.keeps v kv i m.0) m.1;
      }

  scope_or_none-Holds :
      (v : V) (min max : Bound V)
      → above c min v ≡ true
      → below c max v ≡ true
      → All (Holds c v) (scope_or_none c min max)
  unfolding Holds
  scope_or_none-Holds v unbounded unbounded p q = tt
  scope_or_none-Holds v unbounded (included m) p q = ((p, q), tt)
  scope_or_none-Holds v unbounded (excluded m) p q = ((p, q), tt)
  scope_or_none-Holds v (included m) max p q = ((p, q), tt)
  scope_or_none-Holds v (excluded m) max p q = ((p, q), tt)

  first_eq-Holds :
      (v : V) (ws : List V) (a : Aggregate c)
      → All (λ w. Holds c v (eq w)) ws
      → Inside v a
      → All (Holds c v) (first_eq c ws a)
  first_eq-Holds v [] a ps i = scope_or_none-Holds v a.scope_min a.scope_max i.over_min i.under_max
  first_eq-Holds v (w ∷ ws) a ps i = (ps.0, tt)

  start : Aggregate c
  start = record { scope_min = unbounded; scope_max = unbounded; eq_set = [] }

  -- Ranges, values and excluded values under an `and`, all of a kind of values that is linearly
  -- ordered, aggregate without an error or a panic, and a value of the kind that all of them
  -- select is selected by all that they become.
  pub and_scope_aggregation_sound :
      (bs : List (ConstantBinary V))
      → All (IsSimple K) bs
      → (rs : List (ConstantBinary V)) × (and_scope_aggregation c bs ≡ ok rs)
        × ((v : V) → K v → All (Holds c v) bs → All (Holds c v) rs)
  unfolding and_scope_aggregation start above below
  and_scope_aggregation_sound [] s = ([], refl, λ v kv m. tt)
  and_scope_aggregation_sound (b ∷ bs) s =
      let sorted = sort_by (key_le c) (b ∷ bs) in
      let f =
        and_fold_lem start sorted (record { min_kind = tt; max_kind = tt; eq_kinds = tt })
          (sort_by-All (key_le c) (IsSimple K) (b ∷ bs) s) in
      (
        first_eq c (sort_by (value_le c) f.last.eq_set) f.last,
        rw f.folded refl,
        λ v kv m.
            let i =
              f.keeps v kv (record { over_min = refl; under_max = refl; all_equal = tt })
                (sort_by-All (key_le c) (Holds c v) (b ∷ bs) m) in
            first_eq-Holds v (sort_by (value_le c) f.last.eq_set) f.last
              (sort_by-All (value_le c) (λ w. Holds c v (eq w)) f.last.eq_set i.all_equal) i,
      )
