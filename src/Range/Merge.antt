-- ===== src/Range/Merge.antt =====
-- The last loop of `or_scope_aggregation` of src/expression/simplify.rs: merged ranges cover the
-- ranges.
use kip_sql.Prelude.{
  ◌≡◌, refl, Bool, true, false, some, List, [], ◌∷◌, ◌++◌, All, arith, Bool-cases, inl, inr, ◌⊎◌,
  Ordering, is_gt, is_lt,
}
use kip_sql.Prelude.Outcome.{ok}
use kip_sql.Range.{
  Bound, unbounded, included, excluded, Comparison, bound_compared, lt_holds, gt_holds,
}
use kip_sql.Range.Meaning.{
  IsLinear, BoundIs, above, below, above-bound_compared_gt, below-bound_compared_gt,
  below-bound_compared_lt,
}
use kip_sql.Range.Union.{Scope, merge_loop, last_first}

abbrev pub Any : {A : Type 0} → (A → Type 0) → List A → Type 0
Any P [] = ⊥
Any P (x ∷ xs) = P x ⊎ Any P xs

pub Any-append :
    {A : Type 0} (P : A → Type 0) (xs ys : List A) → Any P xs ⊎ Any P ys → Any P (xs ++ ys)
Any-append P [] ys (inl h) = absurd h
Any-append P [] ys (inr h) = h
Any-append P (x ∷ xs) ys (inl (inl h)) = inl h
Any-append P (x ∷ xs) ys (inl (inr h)) = inr (Any-append P xs ys (inl h))
Any-append P (x ∷ xs) ys (inr h) = inr (Any-append P xs ys (inr h))

pub Any-last_first :
    {A : Type 0} (P : A → Type 0) (done xs : List A)
    → Any P xs ⊎ Any P done
    → Any P (last_first done xs)
Any-last_first P done [] (inl h) = absurd h
Any-last_first P done [] (inr h) = h
Any-last_first P done (x ∷ xs) (inl (inl h)) = Any-last_first P (x ∷ done) xs (inr (inl h))
Any-last_first P done (x ∷ xs) (inl (inr h)) = Any-last_first P (x ∷ done) xs (inl h)
Any-last_first P done (x ∷ xs) (inr h) = Any-last_first P (x ∷ done) xs (inr (inr h))

module _ {V : Type 0} {c : Comparison V} {K : V → Type 0} (linear : IsLinear c K) where
  pub record IsKind (s : Scope V) : Type 0 where
    pub min_kind : BoundIs K s.min
    pub max_kind : BoundIs K s.max

  pub record In (v : V) (s : Scope V) : Type 0 where
    pub over_min : above c s.min v ≡ true
    pub under_max : below c s.max v ≡ true

  pub compared :
      (a b : Bound V) (m : Bool)
      → BoundIs K a
      → BoundIs K b
      → (o : Ordering) × (bound_compared c a b m ≡ some o)
  unfolding bound_compared
  compared unbounded unbounded m ka kb = (_, refl)
  compared unbounded (included _) m ka kb = (_, refl)
  compared unbounded (excluded _) m ka kb = (_, refl)
  compared (included _) unbounded m ka kb = (_, refl)
  compared (excluded _) unbounded m ka kb = (_, refl)
  compared (included a) (included b) m ka kb = (_, linear.compares a b ka kb)
  compared (excluded a) (excluded b) m ka kb = (_, linear.compares a b ka kb)
  compared (included a) (excluded b) m ka kb = rw (linear.compares a b ka kb) (_, refl)
  compared (excluded a) (included b) m ka kb = rw (linear.compares a b ka kb) (_, refl)

  -- A range is in the range that it extends.
  extended :
      (last s : Scope V) (v : V)
      → IsKind last
      → IsKind s
      → K v
      → gt_holds c (bound_compared c last.min s.min true) ≡ false
      → lt_holds c (bound_compared c last.max s.max false) ≡ true
      → In v last ⊎ In v s
      → In v (record { min = last.min; max = s.max })
  extended last s v kl ks kv g l (inl i) = record {
    over_min = i.over_min;
    under_max =
        below-bound_compared_gt linear last.max s.max v kl.max_kind ks.max_kind kv (ground arith)
          i.under_max;
  }
  extended last s v kl ks kv g l (inr i) = record {
    over_min =
        above-bound_compared_gt linear last.min s.min v kl.min_kind ks.min_kind kv g i.over_min;
    under_max = i.under_max;
  }

  swallowed :
      (last s : Scope V) (v : V)
      → IsKind last
      → IsKind s
      → K v
      → gt_holds c (bound_compared c last.min s.min true) ≡ false
      → lt_holds c (bound_compared c last.max s.max false) ≡ false
      → In v s
      → In v last
  swallowed last s v kl ks kv g l i = record {
    over_min =
        above-bound_compared_gt linear last.min s.min v kl.min_kind ks.min_kind kv g i.over_min;
    under_max =
        below-bound_compared_lt linear last.max s.max v kl.max_kind ks.max_kind kv l i.under_max;
  }

  pub record Merged (merged ss : List (Scope V)) : Type 0 where
    pub result : List (Scope V)
    pub looped : merge_loop c merged ss ≡ ok result
    pub covers : (v : V) → K v → Any (In v) merged ⊎ Any (In v) ss → Any (In v) result

  pub merge_loop_lem :
      (merged ss : List (Scope V)) → All IsKind merged → All IsKind ss → Merged merged ss
  unfolding merge_loop
  merge_loop_lem merged [] km ks = record {
    result = merged;
    looped = refl;
    covers = λ v kv i. elim i [ inl h ↦ h | inr h ↦ absurd h ];
  }
  merge_loop_lem [] (s ∷ ss) km ks =
      let rest = merge_loop_lem (s ∷ []) ss (ks.0, tt) ks.1 in
      record {
        result = rest.result;
        looped = rest.looped;
        covers = λ v kv i.
            rest.covers v kv
              (elim i [ inl h ↦ absurd h | inr (inl h) ↦ inl (inl h) | inr (inr h) ↦ inr h ]);
      }
  merge_loop_lem (last ∷ merged) (s ∷ ss) km ks =
      let (o, e) = compared last.min s.min true km.0.min_kind ks.0.min_kind in
      let (p, f) = compared last.max s.max false km.0.max_kind ks.0.max_kind in
      elim (Bool-cases (is_gt o)) [
        | inl g ↦
            let rest = merge_loop_lem (s ∷ (last ∷ merged)) ss (ks.0, km) ks.1 in
            record {
              result = rest.result;
              looped = rw (e, g) rest.looped;
              covers = λ v kv i. rest.covers v kv (elim i [
                | inl h ↦ inl (inr h)
                | inr (inl h) ↦ inl (inl h)
                | inr (inr h) ↦ inr h
              ]);
            }
        | inr g ↦
            let min_le : gt_holds c (bound_compared c last.min s.min true) ≡ false = rw e g in
            elim (Bool-cases (is_lt p)) [
              | inl l ↦
                  let max_lt : lt_holds c (bound_compared c last.max s.max false) ≡ true = rw f l in
                  let wide : Scope V = record { min = last.min; max = s.max } in
                  let rest =
                    merge_loop_lem (wide ∷ merged) ss
                      (record { min_kind = km.0.min_kind; max_kind = ks.0.max_kind }, km.1) ks.1 in
                  record {
                    result = rest.result;
                    looped = rw (e, g, f, l) rest.looped;
                    covers = λ v kv i. rest.covers v kv (elim i [
                      | inl (inl h) ↦
                          inl (inl (extended last s v km.0 ks.0 kv min_le max_lt (inl h)))
                      | inl (inr h) ↦ inl (inr h)
                      | inr (inl h) ↦
                          inl (inl (extended last s v km.0 ks.0 kv min_le max_lt (inr h)))
                      | inr (inr h) ↦ inr h
                    ]);
                  }
              | inr l ↦
                  let max_ge : lt_holds c (bound_compared c last.max s.max false) ≡ false =
                    rw f l in
                  let rest = merge_loop_lem (last ∷ merged) ss km ks.1 in
                  record {
                    result = rest.result;
                    looped = rw (e, g, f, l) rest.looped;
                    covers = λ v kv i. rest.covers v kv (elim i [
                      | inl h ↦ inl h
                      | inr (inl h) ↦ inl (inl (swallowed last s v km.0 ks.0 kv min_le max_ge h))
                      | inr (inr h) ↦ inr h
                    ]);
                  }
            ]
      ]
