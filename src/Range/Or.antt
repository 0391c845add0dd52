-- ===== src/Range/Or.antt =====
-- `or_scope_aggregation` of src/expression/simplify.rs against the meaning of a condition.
use kip_sql.Prelude.{
  ◌≡◌, refl, Bool, true, false, List, [], ◌∷◌, All, Bool-cases, inl, inr, ◌⊎◌, Option, some, map,
  none, if◌then◌else◌, ◌++◌, ap, ◌∙◌,
}
use kip_sql.Prelude.Outcome.{Outcome, ok, ◌>>=◌}
use kip_sql.Types.{TypeError}
use kip_sql.Range.{
  ConstantBinary, scope, eq, Comparison, Bound, included, unbounded, excluded, not_eq, and_of,
  or_of,
}
use kip_sql.Range.Meaning.{IsLinear, BoundIs, above, below, Holds}
use kip_sql.Range.Union.{
  Scope, sort_cmp, min_by, compare_min, merge_scopes, or_collect, full_margin, Collected,
  or_scope_aggregation, widen, to_scope, or_result, full_bounds, merge_loop, last_first,
}
use kip_sql.Range.Merge.{Any, IsKind, In, Any-append, merge_loop_lem, Any-last_first}
use kip_sql.Range.Extremes.{sort_cmp_lem, max_by_lem, min_by_lem}

-- A range or one value, with values of the kind `K`.
abbrev pub IsPlain : {V : Type 0} → (V → Type 0) → ConstantBinary V → Type 0
IsPlain K (scope min max) = BoundIs K min × BoundIs K max
IsPlain K (eq w) = K w
IsPlain K _ = ⊥

module _ {V : Type 0} {c : Comparison V} {K : V → Type 0} (linear : IsLinear c K) where
  record Covered (merged : Outcome TypeError (List (Scope V))) (ss : List (Scope V)) : Type 0 where
    result : List (Scope V)
    done : merged ≡ ok result
    covers : (v : V) → K v → Any (In linear v) ss → Any (In linear v) result

  lower :
      (s : Scope V) (ss : List (Scope V))
      → All (IsKind linear) (s ∷ ss)
      → Covered
          (min_by (compare_min c) s ss >>= λ t. ok (record { min = t.min; max = unbounded } ∷ []))
          (s ∷ ss)
  unfolding above below
  lower s ss ks =
      let e = min_by_lem linear s ss ks.0 ks.1 in
      record {
        result = record { min = e.extreme.min; max = unbounded } ∷ [];
        done = rw e.finds refl;
        covers = λ v kv i. inl (record {
          over_min = e.covers v kv (elim i [ inl h ↦ inl h.over_min | inr h ↦ inr h ]);
          under_max = refl;
        });
      }

  both :
      (s : Scope V) (ss : List (Scope V))
      → All (IsKind linear) (s ∷ ss)
      → Covered
          (sort_cmp (compare_min c) (s ∷ ss) >>= λ sorted.
            merge_loop c [] sorted >>= λ merged. ok (last_first [] merged))
          (s ∷ ss)
  both s ss ks =
      let sorted = sort_cmp_lem linear (s ∷ ss) ks in
      let merged = merge_loop_lem linear [] sorted.result tt sorted.kinds in
      record {
        result = last_first [] merged.result;
        done = rw (sorted.done, merged.looped) refl;
        covers = λ v kv i.
            Any-last_first (In linear v) [] merged.result
              (inl (merged.covers v kv (inr (sorted.covers v i))));
      }

  merge_bounds :
      (min max : Bound V) (s : Scope V) (ss : List (Scope V))
      → All (IsKind linear) (s ∷ ss)
      → Covered (merge_scopes c (record { min = min; max = max }) (s ∷ ss)) (s ∷ ss)
  unfolding merge_scopes above below
  merge_bounds unbounded max s ss ks =
      let e = max_by_lem linear s ss ks.0 ks.1 in
      record {
        result = record { min = unbounded; max = e.extreme.max } ∷ [];
        done = rw e.finds refl;
        covers = λ v kv i. inl (record {
          over_min = refl;
          under_max = e.covers v kv (elim i [ inl h ↦ inl h.under_max | inr h ↦ inr h ]);
        });
      }
  merge_bounds (included m) unbounded s ss ks = lower s ss ks
  merge_bounds (excluded m) unbounded s ss ks = lower s ss ks
  merge_bounds (included m) (included n) s ss ks = both s ss ks
  merge_bounds (included m) (excluded n) s ss ks = both s ss ks
  merge_bounds (excluded m) (included n) s ss ks = both s ss ks
  merge_bounds (excluded m) (excluded n) s ss ks = both s ss ks

  -- Whatever the margin is, the merged ranges cover the ranges.
  merge_scopes_lem :
      (margin : Scope V) (ss : List (Scope V))
      → All (IsKind linear) ss
      → Covered (merge_scopes c margin ss) ss
  unfolding merge_scopes
  merge_scopes_lem margin [] ks = record { result = []; done = refl; covers = λ v kv i. i }
  merge_scopes_lem margin (s ∷ ss) ks = merge_bounds margin.min margin.max s ss ks

  -- What the first loop has collected of a value's range or of the value.
  record Gathered (l : Collected c) (bs : List (ConstantBinary V)) : Type 0 where
    scope_kinds : All (IsKind linear) l.scopes
    gathers :
        (v : V)
        → Any (Holds c v) bs
        → (full_margin l.scope_margin ≡ true)
          ⊎ (Any (In linear v) l.scopes ⊎ Any (λ w. Holds c v (eq w)) l.eqs)

  pick :
      {A : Type 0} (P : A → Type 0) (b : Bool) {x y : A}
      → (b ≡ true → P x)
      → (b ≡ false → P y)
      → P (if b then x else y)
  pick P true p q = p refl
  pick P false p q = q refl

  or_collect_lem :
      (margin : Option (Scope V)) (bs : List (ConstantBinary V))
      → All (IsPlain K) bs
      → Gathered (or_collect c margin bs) bs
  unfolding or_collect Holds
  or_collect_lem margin [] ks = record { scope_kinds = tt; gathers = λ v i. absurd i }
  or_collect_lem margin (eq w ∷ bs) ks =
      let rest = or_collect_lem margin bs ks.1 in
      pick (λ l. Gathered l (eq w ∷ bs)) (full_margin margin)
        (λ full. record { scope_kinds = tt; gathers = λ v i. inl full })
        (λ bounded. record {
          scope_kinds = rest.scope_kinds;
          gathers = λ v i. elim i [
            | inl h ↦ inr (inr (inl h))
            | inr h ↦ elim (rest.gathers v h) [
              | inl full ↦ inl full
              | inr (inl k) ↦ inr (inl k)
              | inr (inr k) ↦ inr (inr (inr k))
            ]
          ];
        })
  or_collect_lem margin (scope min max ∷ bs) ks =
      let rest = or_collect_lem (some (widen c margin min max)) bs ks.1 in
      pick (λ l. Gathered l (scope min max ∷ bs)) (full_margin margin)
        (λ full. record { scope_kinds = tt; gathers = λ v i. inl full })
        (λ bounded.
          pick (λ l. Gathered l (scope min max ∷ bs)) (full_bounds min max)
            (λ full. record { scope_kinds = tt; gathers = λ v i. inl refl })
            (λ bounded. record {
              scope_kinds = (record { min_kind = ks.0.0; max_kind = ks.0.1 }, rest.scope_kinds);
              gathers = λ v i. elim i [
                | inl h ↦ inr (inl (inl (record { over_min = h.0; under_max = h.1 })))
                | inr h ↦ elim (rest.gathers v h) [
                  | inl full ↦ inl full
                  | inr (inl k) ↦ inr (inl (inr k))
                  | inr (inr k) ↦ inr (inr k)
                ]
              ];
            }))
  or_collect_lem margin (not_eq w ∷ bs) ks = elim ks.0 [ ]
  or_collect_lem margin (and_of w ∷ bs) ks = elim ks.0 [ ]
  or_collect_lem margin (or_of w ∷ bs) ks = elim ks.0 [ ]

  Any-to_scope :
      (v : V) (ss : List (Scope V)) → Any (In linear v) ss → Any (Holds c v) (map (to_scope c) ss)
  unfolding Holds
  Any-to_scope v (s ∷ ss) (inl i) = inl (i.over_min, i.under_max)
  Any-to_scope v (s ∷ ss) (inr i) = inr (Any-to_scope v ss i)
  Any-to_scope v [] i = absurd i

  Any-eq : (v : V) (ws : List V) → Any (λ w. Holds c v (eq w)) ws → Any (Holds c v) (map eq ws)
  Any-eq v (w ∷ ws) (inl i) = inl i
  Any-eq v (w ∷ ws) (inr i) = inr (Any-eq v ws i)
  Any-eq v [] i = absurd i

  record Result (bs : List (ConstantBinary V)) (r : Outcome TypeError (List (ConstantBinary V)))
      : Type 0 where
    result : List (ConstantBinary V)
    gives : r ≡ ok result
    covers : (v : V) → K v → Any (Holds c v) bs → (result ≡ []) ⊎ Any (Holds c v) result

  or_result_lem :
      (bs : List (ConstantBinary V)) (margin : Option (Scope V)) (l : Collected c)
      → margin ≡ l.scope_margin
      → Gathered l bs
      → Result bs (or_result c margin l)
  unfolding or_result
  or_result_lem bs none l e g = record { result = []; gives = refl; covers = λ v kv i. inl refl }
  or_result_lem bs (some margin) l e g = elim (Bool-cases (full_bounds margin.min margin.max)) [
    | inl full ↦ record { result = []; gives = rw full refl; covers = λ v kv i. inl refl }
    | inr partial ↦
        let m = merge_scopes_lem margin l.scopes g.scope_kinds in
        record {
          result = map (to_scope c) m.result ++ map eq l.eqs;
          gives = rw (partial, m.done) refl;
          covers = λ v kv i. inr (
              Any-append (Holds c v) (map (to_scope c) m.result) (map eq l.eqs)
                (elim (g.gathers v i) [
                  | inl full ↦
                      let f : full_bounds margin.min margin.max ≡ true = ap full_margin e ∙ full in
                      cc
                  | inr (inl k) ↦ inl (Any-to_scope v m.result (m.covers v kv k))
                  | inr (inr k) ↦ inr (Any-eq v l.eqs k)
                ]));
        }
  ]

  -- Ranges and values under an `or`, all of a kind of values that is linearly ordered, aggregate
  -- without an error or a panic, and a value of the kind that one of them selects is selected by
  -- one of the results, if there are any: no result stands for no restriction.
  pub or_scope_aggregation_sound :
      (bs : List (ConstantBinary V))
      → All (IsPlain K) bs
      → (rs : List (ConstantBinary V)) × (or_scope_aggregation c bs ≡ ok rs)
        × ((v : V) → K v → Any (Holds c v) bs → (rs ≡ []) ⊎ Any (Holds c v) rs)
  unfolding or_scope_aggregation
  or_scope_aggregation_sound bs ks =
      let l = or_collect c none bs in
      let r = or_result_lem bs l.scope_margin l refl (or_collect_lem none bs ks) in
      (r.result, r.gives, r.covers)
