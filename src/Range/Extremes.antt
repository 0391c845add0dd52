-- ===== src/Range/Extremes.antt =====
-- The sort and the greatest and least ranges of src/expression/simplify.rs.
use kip_sql.Prelude.{
  ◌≡◌, refl, Bool, true, false, List, [], ◌∷◌, All, arith, Bool-cases, inl, inr, ◌⊎◌, is_gt,
}
use kip_sql.Prelude.Outcome.{Outcome, ok}
use kip_sql.Types.{TypeError}
use kip_sql.Range.{Comparison, bound_compared, gt_holds}
use kip_sql.Range.Meaning.{
  IsLinear, above, below, above-bound_compared_gt, above-bound_compared_lt, below-bound_compared_gt,
  below-bound_compared_lt,
}
use kip_sql.Range.Union.{Scope, insert_cmp, sort_cmp, max_by, min_by, compare_max, compare_min}
use kip_sql.Range.Merge.{Any, IsKind, In, compared}

module _ {V : Type 0} {c : Comparison V} {K : V → Type 0} (linear : IsLinear c K) where
  pub record Sorted (inserted : Outcome TypeError (List (Scope V))) (before : (v : V) → Type 0)
      : Type 0 where
    pub result : List (Scope V)
    pub done : inserted ≡ ok result
    pub kinds : All (IsKind linear) result
    pub covers : (v : V) → before v → Any (In linear v) result

  insert_cmp_lem :
      (s : Scope V) (ss : List (Scope V))
      → IsKind linear s
      → All (IsKind linear) ss
      → Sorted (insert_cmp (compare_min c) s ss) (λ v. In linear v s ⊎ Any (In linear v) ss)
  unfolding insert_cmp
  insert_cmp_lem s [] k ks = record {
    result = s ∷ [];
    done = refl;
    kinds = (k, tt);
    covers = λ v i. i;
  }
  insert_cmp_lem s (t ∷ ts) k ks =
      let (o, e) = compared linear s.min t.min true k.min_kind ks.0.min_kind in
      let rest = insert_cmp_lem s ts k ks.1 in
      elim (Bool-cases (is_gt o)) [
        | inl g ↦ record {
          result = t ∷ rest.result;
          done = rw (e, g, rest.done) refl;
          kinds = (ks.0, rest.kinds);
          covers = λ v i. elim i [
            | inl h ↦ inr (rest.covers v (inl h))
            | inr (inl h) ↦ inl h
            | inr (inr h) ↦ inr (rest.covers v (inr h))
          ];
        }
        | inr g ↦ record {
          result = s ∷ (t ∷ ts);
          done = rw (e, g) refl;
          kinds = (k, ks);
          covers = λ v i. i;
        }
      ]

  pub sort_cmp_lem :
      (ss : List (Scope V))
      → All (IsKind linear) ss
      → Sorted (sort_cmp (compare_min c) ss) (λ v. Any (In linear v) ss)
  unfolding sort_cmp
  sort_cmp_lem [] ks = record { result = []; done = refl; kinds = tt; covers = λ v i. i }
  sort_cmp_lem (s ∷ ss) ks =
      let rest = sort_cmp_lem ss ks.1 in
      let more = insert_cmp_lem s rest.result ks.0 rest.kinds in
      record {
        result = more.result;
        done = rw rest.done more.done;
        kinds = more.kinds;
        covers = λ v i. more.covers v (elim i [ inl h ↦ inl h | inr h ↦ inr (rest.covers v h) ]);
      }

  -- The range with the greatest upper bound, or with the least lower bound.
  pub record Extreme (found : Outcome TypeError (Scope V)) (bound : Scope V → V → Bool)
      (before : V → Type 0) : Type 0 where
    pub extreme : Scope V
    pub finds : found ≡ ok extreme
    pub covers : (v : V) → K v → before v → bound extreme v ≡ true

  pub max_by_lem :
      (s : Scope V) (ss : List (Scope V))
      → IsKind linear s
      → All (IsKind linear) ss
      → Extreme
          (max_by (compare_max c) s ss)
          (λ t v. below c t.max v)
          (λ v. (below c s.max v ≡ true) ⊎ Any (In linear v) ss)
  unfolding max_by
  max_by_lem s [] k ks = record {
    extreme = s;
    finds = refl;
    covers = λ v kv i. elim i [ inl h ↦ h | inr h ↦ absurd h ];
  }
  max_by_lem s (t ∷ ts) k ks =
      let (o, e) = compared linear s.max t.max false k.max_kind ks.0.max_kind in
      elim (Bool-cases (is_gt o)) [
        | inl g ↦
            let gt : gt_holds c (bound_compared c s.max t.max false) ≡ true = rw e g in
            let rest = max_by_lem s ts k ks.1 in
            record {
              extreme = rest.extreme;
              finds = rw (e, g) rest.finds;
              covers = λ v kv i. rest.covers v kv (elim i [
                | inl h ↦ inl h
                | inr (inl h) ↦ inl (
                    below-bound_compared_lt linear s.max t.max v k.max_kind ks.0.max_kind kv
                      (ground arith) h.under_max)
                | inr (inr h) ↦ inr h
              ]);
            }
        | inr g ↦
            let le : gt_holds c (bound_compared c s.max t.max false) ≡ false = rw e g in
            let rest = max_by_lem t ts ks.0 ks.1 in
            record {
              extreme = rest.extreme;
              finds = rw (e, g) rest.finds;
              covers = λ v kv i. rest.covers v kv (elim i [
                | inl h ↦
                    inl (
                      below-bound_compared_gt linear s.max t.max v k.max_kind ks.0.max_kind kv le h)
                | inr (inl h) ↦ inl h.under_max
                | inr (inr h) ↦ inr h
              ]);
            }
      ]

  pub min_by_lem :
      (s : Scope V) (ss : List (Scope V))
      → IsKind linear s
      → All (IsKind linear) ss
      → Extreme
          (min_by (compare_min c) s ss)
          (λ t v. above c t.min v)
          (λ v. (above c s.min v ≡ true) ⊎ Any (In linear v) ss)
  unfolding min_by
  min_by_lem s [] k ks = record {
    extreme = s;
    finds = refl;
    covers = λ v kv i. elim i [ inl h ↦ h | inr h ↦ absurd h ];
  }
  min_by_lem s (t ∷ ts) k ks =
      let (o, e) = compared linear s.min t.min true k.min_kind ks.0.min_kind in
      elim (Bool-cases (is_gt o)) [
        | inl g ↦
            let gt : gt_holds c (bound_compared c s.min t.min true) ≡ true = rw e g in
            let rest = min_by_lem t ts ks.0 ks.1 in
            record {
              extreme = rest.extreme;
              finds = rw (e, g) rest.finds;
              covers = λ v kv i. rest.covers v kv (elim i [
                | inl h ↦ inl (
                    above-bound_compared_lt linear s.min t.min v k.min_kind ks.0.min_kind kv
                      (ground arith) h)
                | inr (inl h) ↦ inl h.over_min
                | inr (inr h) ↦ inr h
              ]);
            }
        | inr g ↦
            let le : gt_holds c (bound_compared c s.min t.min true) ≡ false = rw e g in
            let rest = min_by_lem s ts k ks.1 in
            record {
              extreme = rest.extreme;
              finds = rw (e, g) rest.finds;
              covers = λ v kv i. rest.covers v kv (elim i [
                | inl h ↦ inl h
                | inr (inl h) ↦ inl (
                    above-bound_compared_gt linear s.min t.min v k.min_kind ks.0.min_kind kv le
                      h.over_min)
                | inr (inr h) ↦ inr h
              ]);
            }
      ]
