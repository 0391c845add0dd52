-- ===== src/Range/Exact.antt =====
-- `and_scope_aggregation` of src/expression/simplify.rs on ranges alone: the intersection.
use kip_sql.Prelude.{
  ◌≡◌, refl, Bool, true, false, List, [], ◌∷◌, All, arith, Bool-cases, if◌then◌else◌, inl, inr,
}
use kip_sql.Prelude.Sort.{sort_by, sort_by-All, All-sort_by}
use kip_sql.Prelude.Outcome.{ok}
use kip_sql.Range.{
  Bound, unbounded, included, excluded, ConstantBinary, scope, eq, not_eq, and_of, or_of,
  Comparison, and_step, and_fold, and_scope_aggregation, bound_compared, lt_holds, gt_holds, key_le,
  scope_or_none,
}
use kip_sql.Range.Meaning.{
  IsLinear, BoundIs, Holds, above, below, above-bound_compared_gt, above-bound_compared_lt,
  below-bound_compared_gt, below-bound_compared_lt,
}
use kip_sql.Range.And.{IsScope}

module _ {V : Type 0} {c : Comparison V} {K : V → Type 0} (linear : IsLinear c K) where
  gt_of_lt :
      (a b : Bound V) (m : Bool)
      → lt_holds c (bound_compared c a b m) ≡ true
      → gt_holds c (bound_compared c a b m) ≡ false
  gt_of_lt a b m h = ground arith

  lt_of_gt :
      (a b : Bound V) (m : Bool)
      → gt_holds c (bound_compared c a b m) ≡ true
      → lt_holds c (bound_compared c a b m) ≡ false
  lt_of_gt a b m h = ground arith

  -- The higher of two lower bounds selects what both select.
  higher_min :
      (s min : Bound V) (v : V)
      → BoundIs K s
      → BoundIs K min
      → K v
      → above c (if lt_holds c (bound_compared c s min true) then min else s) v ≡ true
      → (above c s v ≡ true) × (above c min v ≡ true)
  higher_min s min v ks km kv h = elim (Bool-cases (lt_holds c (bound_compared c s min true))) [
    | inl e ↦
        let h' = rw e at h in
        (above-bound_compared_gt linear s min v ks km kv (gt_of_lt s min true e) h', h')
    | inr e ↦ let h' = rw e at h in (h', above-bound_compared_lt linear s min v ks km kv e h')
  ]

  lower_max :
      (t max : Bound V) (v : V)
      → BoundIs K t
      → BoundIs K max
      → K v
      → below c (if gt_holds c (bound_compared c t max false) then max else t) v ≡ true
      → (below c t v ≡ true) × (below c max v ≡ true)
  lower_max t max v kt km kv h = elim (Bool-cases (gt_holds c (bound_compared c t max false))) [
    | inl e ↦
        let h' = rw e at h in
        (below-bound_compared_lt linear t max v kt km kv (lt_of_gt t max false e) h', h')
    | inr e ↦ let h' = rw e at h in (h', below-bound_compared_gt linear t max v kt km kv e h')
  ]

  chosen : {A : Type 0} (P : A → Type 0) (b : Bool) (x y : A) → P x → P y → P (if b then x else y)
  chosen P true x y p q = p
  chosen P false x y p q = q

  record Between (s t : Bound V) (v : V) : Type 0 where
    over_min : above c s v ≡ true
    under_max : below c t v ≡ true

  record Narrowed (s t : Bound V) (bs : List (ConstantBinary V)) : Type 0 where
    s' : Bound V
    t' : Bound V
    folded :
        and_fold c (record { scope_min = s; scope_max = t; eq_set = [] }) bs
        ≡ ok (record { scope_min = s'; scope_max = t'; eq_set = [] })
    narrows : (v : V) → K v → Between s' t' v → Between s t v × All (Holds c v) bs

  and_fold-scopes :
      (s t : Bound V) (bs : List (ConstantBinary V))
      → BoundIs K s
      → BoundIs K t
      → All (IsScope K) bs
      → Narrowed s t bs
  unfolding and_fold and_step Holds
  and_fold-scopes s t [] ks kt m = record {
    s' = s;
    t' = t;
    folded = refl;
    narrows = λ v kv i. (i, tt);
  }
  and_fold-scopes s t (scope min max ∷ bs) ks kt (b, m) =
      let up = lt_holds c (bound_compared c s min true) in
      let down = gt_holds c (bound_compared c t max false) in
      let rest =
        and_fold-scopes (if up then min else s) (if down then max else t) bs
          (chosen (BoundIs K) up min s b.0 ks) (chosen (BoundIs K) down max t b.1 kt) m in
      record {
        s' = rest.s';
        t' = rest.t';
        folded = rest.folded;
        narrows = λ v kv i.
            let (here, more) = rest.narrows v kv i in
            let (over, over_min) = higher_min s min v ks b.0 kv here.over_min in
            let (under, under_max) = lower_max t max v kt b.1 kv here.under_max in
            (record { over_min = over; under_max = under }, ((over_min, under_max), more));
      }
  and_fold-scopes s t (eq w ∷ bs) ks kt m = elim m.0 [ ]
  and_fold-scopes s t (not_eq w ∷ bs) ks kt m = elim m.0 [ ]
  and_fold-scopes s t (and_of w ∷ bs) ks kt m = elim m.0 [ ]
  and_fold-scopes s t (or_of w ∷ bs) ks kt m = elim m.0 [ ]

  Holds-scope_or_none :
      (v : V) (s t : Bound V) → All (Holds c v) (scope_or_none c s t) → Between s t v
  unfolding Holds above below
  Holds-scope_or_none v unbounded unbounded m = record { over_min = refl; under_max = refl }
  Holds-scope_or_none v unbounded (included t) m = record { over_min = m.0.0; under_max = m.0.1 }
  Holds-scope_or_none v unbounded (excluded t) m = record { over_min = m.0.0; under_max = m.0.1 }
  Holds-scope_or_none v (included s) t m = record { over_min = m.0.0; under_max = m.0.1 }
  Holds-scope_or_none v (excluded s) t m = record { over_min = m.0.0; under_max = m.0.1 }

  -- Ranges alone under an `and`, with bounds of a kind of values that is linearly ordered: no
  -- more than their intersection remains, for a value of the kind that the result selects is
  -- selected by each of them.
  pub and_scope_aggregation_exact :
      (bs : List (ConstantBinary V))
      → All (IsScope K) bs
      → (rs : List (ConstantBinary V)) × (and_scope_aggregation c bs ≡ ok rs)
        × ((v : V) → K v → All (Holds c v) rs → All (Holds c v) bs)
  unfolding and_scope_aggregation sort_by
  and_scope_aggregation_exact [] s = ([], refl, λ v kv m. tt)
  and_scope_aggregation_exact (b ∷ bs) s =
      let f =
        and_fold-scopes unbounded unbounded (sort_by (key_le c) (b ∷ bs)) tt tt
          (sort_by-All (key_le c) (IsScope K) (b ∷ bs) s) in
      (
        scope_or_none c f.s' f.t',
        rw f.folded refl,
        λ v kv m.
            All-sort_by (key_le c) (Holds c v) (b ∷ bs)
              (f.narrows v kv (Holds-scope_or_none v f.s' f.t' m)).1,
      )
