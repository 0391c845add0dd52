-- ===== src/Range/Covers.antt =====
-- `rearrange` of src/expression/simplify.rs when every condition under the `or` is a range.
use kip_sql.Prelude.{
  ◌≡◌, refl, ◌⊎◌, inl, inr, Bool, true, false, Option, none, some, List, [], ◌∷◌, arith, Bool-cases,
  is_lt, All, ltb, length,
}
use kip_sql.Prelude.Sort.{sort_by, insert_by, Sorted, sort_by-All, sort_by-Sorted}
use kip_sql.Range.{
  unbounded, ConstantBinary, scope, Comparison, lt_holds, or_equal, Bound, bound_compared, gt_holds,
  Binaries, to_list, or_of,
}
use kip_sql.Range.Meaning.{
  IsLinear, BoundIs, above, above-bound_compared_gt, above-bound_compared_lt, Holds, below,
  below-bound_compared_lt, below-bound_compared_gt,
}
use kip_sql.Range.Merge.{Any, Any-last_first}
use kip_sql.Range.Union.{full_bounds, last_first}
use kip_sql.Range.Rearrange.{
  start_le, start_of, merge_conditions, extend, flatten, all_ranges, rearrange,
}
use kip_sql.Prelude.Outcome.{ok}

-- A range that is bounded on a side, with bounds of the kind.
abbrev pub IsBounded : {V : Type 0} → (V → Type 0) → ConstantBinary V → Type 0
IsBounded K (scope min max) = BoundIs K min × BoundIs K max × (full_bounds min max ≡ false)
IsBounded K _ = ⊥

module _ {A : Type 0} (le : A → A → Bool) (P : A → Type 0) where
  insert_by-Any : (x : A) (ys : List A) → P x ⊎ Any P ys → Any P (insert_by le x ys)
  unfolding insert_by
  insert_by-Any x [] (inl p) = inl p
  insert_by-Any x [] (inr p) = absurd p
  insert_by-Any x (y ∷ ys) i = elim (Bool-cases (le x y)) [
    | inl h ↦ rw h i
    | inr h ↦ rw h (elim i [
      | inl p ↦ inr (insert_by-Any x ys (inl p))
      | inr (inl p) ↦ inl p
      | inr (inr p) ↦ inr (insert_by-Any x ys (inr p))
    ])
  ]

  sort_by-Any : (xs : List A) → Any P xs → Any P (sort_by le xs)
  unfolding sort_by
  sort_by-Any [] i = absurd i
  sort_by-Any (x ∷ xs) (inl p) = insert_by-Any x (sort_by le xs) (inl p)
  sort_by-Any (x ∷ xs) (inr p) = insert_by-Any x (sort_by le xs) (inr (sort_by-Any xs p))

module _ {V : Type 0} {c : Comparison V} {K : V → Type 0} (linear : IsLinear c K) where
  -- The first range begins below the second.
  StartsFirst : ConstantBinary V → ConstantBinary V → Type 0
  StartsFirst a b =
      (v : V) → K v → above c (start_of c b) v ≡ true → above c (start_of c a) v ≡ true

  or_equal_lt : (o : Option _) → is_lt (or_equal o) ≡ lt_holds c o
  or_equal_lt none = refl
  or_equal_lt (some o) = refl

  starts_yes :
      (a b : ConstantBinary V)
      → IsBounded K a
      → IsBounded K b
      → start_le c a b ≡ true
      → StartsFirst a b
  unfolding StartsFirst
  starts_yes (scope s t) (scope s' t') ka kb h v kv l =
      above-bound_compared_gt linear s s' v ka.0 kb.0 kv (ground arith) l
  starts_yes _ _ ka kb h v kv l = ground arith

  starts_no :
      (a b : ConstantBinary V)
      → IsBounded K a
      → IsBounded K b
      → start_le c a b ≡ false
      → StartsFirst b a
  unfolding StartsFirst
  starts_no (scope s t) (scope s' t') ka kb h v kv l =
      above-bound_compared_lt linear s s' v ka.0 kb.0 kv (ground arith) l
  starts_no _ _ ka kb h v kv l = ground arith

  Selected : V → List (ConstantBinary V) → Type 0
  Selected v bs = Any (Holds c v) bs

  pushed :
      (v : V) (ms : List (ConstantBinary V)) (b : ConstantBinary V) (cs : List (ConstantBinary V))
      → Selected v ms ⊎ Selected v (b ∷ cs)
      → Selected v (b ∷ ms) ⊎ Selected v cs
  unfolding Selected
  pushed v ms b cs (inl i) = inl (inr i)
  pushed v ms b cs (inr (inl h)) = inl (inl h)
  pushed v ms b cs (inr (inr i)) = inr i

  extended :
      (v : V) (a b d : ConstantBinary V) (ms cs : List (ConstantBinary V))
      → (Holds c v a → Holds c v d)
      → (Holds c v b → Holds c v d)
      → Selected v (a ∷ ms) ⊎ Selected v (b ∷ cs)
      → Selected v (d ∷ ms) ⊎ Selected v cs
  unfolding Selected
  extended v a b d ms cs f g (inl (inl h)) = inl (inl (f h))
  extended v a b d ms cs f g (inl (inr i)) = inl (inr i)
  extended v a b d ms cs f g (inr (inl h)) = inl (inl (g h))
  extended v a b d ms cs f g (inr (inr i)) = inr i

  skipped :
      (v : V) (a b : ConstantBinary V) (ms cs : List (ConstantBinary V))
      → (Holds c v b → Holds c v a)
      → Selected v (a ∷ ms) ⊎ Selected v (b ∷ cs)
      → Selected v (a ∷ ms) ⊎ Selected v cs
  skipped v a b ms cs g i = extended v a b a ms cs (λ h. h) g i

  below_longer :
      (a b : Bound V) (v : V)
      → BoundIs K a
      → BoundIs K b
      → K v
      → is_lt (or_equal (bound_compared c a b false)) ≡ false
      → below c b v ≡ true
      → below c a v ≡ true
  below_longer a b v ka kb kv h l =
      below-bound_compared_lt linear a b v ka kb kv
        (rw (or_equal_lt (bound_compared c a b false)) at h) l

  lt-not_gt : (o : Option _) → is_lt (or_equal o) ≡ true → gt_holds c o ≡ false
  lt-not_gt none h = refl
  lt-not_gt (some o) h = ground arith

  below_shorter :
      (a b : Bound V) (v : V)
      → BoundIs K a
      → BoundIs K b
      → K v
      → is_lt (or_equal (bound_compared c a b false)) ≡ true
      → below c a v ≡ true
      → below c b v ≡ true
  below_shorter a b v ka kb kv h l =
      below-bound_compared_gt linear a b v ka kb kv (lt-not_gt (bound_compared c a b false) h) l

  merge_conditions-covers :
      (min max : Bound V) (merged conditions : List (ConstantBinary V))
      → BoundIs K min
      → BoundIs K max
      → All (IsBounded K) conditions
      → All (StartsFirst (scope min max)) conditions
      → Sorted StartsFirst conditions
      → (v : V) → K v
      → Selected v (scope min max ∷ merged) ⊎ Selected v conditions
      → Selected v (merge_conditions c (scope min max ∷ merged) conditions)
  unfolding Selected StartsFirst merge_conditions extend Holds
  merge_conditions-covers min max ms [] kmin kmax ks first sorted v kv (inl i) = i
  merge_conditions-covers min max ms [] kmin kmax ks first sorted v kv (inr i) = absurd i
  merge_conditions-covers min max ms (scope s t ∷ cs) kmin kmax ks first sorted v kv i =
      elim (Bool-cases (is_lt (or_equal (bound_compared c max s false)))) [
        | inl gap ↦ elim (Bool-cases (is_lt (or_equal (bound_compared c max t false)))) [
          | inl longer ↦
              rw (longer, gap)
                (merge_conditions-covers s t (scope min max ∷ ms) cs ks.0.0 ks.0.1 ks.1 sorted.0
                  sorted.1 v kv (pushed v (scope min max ∷ ms) (scope s t) cs i))
          | inr covered ↦
              rw (covered, gap)
                (merge_conditions-covers min max ms cs kmin kmax ks.1 first.1 sorted.1 v kv (
                  skipped v (scope min max) (scope s t) ms cs
                    (λ h. (first.0 v kv h.0, below_longer max t v kmax ks.0.1 kv covered h.1)) i))
        ]
        | inr touches ↦ elim (Bool-cases (is_lt (or_equal (bound_compared c max t false)))) [
          | inl longer ↦
              rw (longer, touches)
                (merge_conditions-covers min t ms cs kmin ks.0.1 ks.1 first.1 sorted.1 v kv (
                  extended v (scope min max) (scope s t) (scope min t) ms cs
                    (λ h. (h.0, below_shorter max t v kmax ks.0.1 kv longer h.1))
                    (λ h. (first.0 v kv h.0, h.1)) i))
          | inr covered ↦
              rw (covered, touches)
                (merge_conditions-covers min max ms cs kmin kmax ks.1 first.1 sorted.1 v kv (
                  skipped v (scope min max) (scope s t) ms cs
                    (λ h. (first.0 v kv h.0, below_longer max t v kmax ks.0.1 kv covered h.1)) i))
        ]
      ]
  merge_conditions-covers min max ms (_ ∷ cs) kmin kmax ks first sorted v kv i = ground arith

  -- The first condition of the sorted list opens the merged list.
  merge_conditions-start :
      (conditions : List (ConstantBinary V))
      → All (IsBounded K) conditions
      → Sorted StartsFirst conditions
      → (v : V) → K v
      → Selected v conditions
      → Selected v (merge_conditions c [] conditions)
  unfolding Selected merge_conditions extend StartsFirst
  merge_conditions-start [] ks sorted v kv i = i
  merge_conditions-start (scope s t ∷ cs) ks sorted v kv (inl h) =
      merge_conditions-covers s t [] cs ks.0.0 ks.0.1 ks.1 sorted.0 sorted.1 v kv (inl (inl h))
  merge_conditions-start (scope s t ∷ cs) ks sorted v kv (inr i) =
      merge_conditions-covers s t [] cs ks.0.0 ks.0.1 ks.1 sorted.0 sorted.1 v kv (inr i)
  merge_conditions-start (_ ∷ cs) ks sorted v kv i = ground arith

  flatten_bounded :
      (conditions : List (ConstantBinary V))
      → All (IsBounded K) conditions
      → flatten c conditions ≡ ok conditions
  unfolding flatten
  flatten_bounded [] ks = refl
  flatten_bounded (scope unbounded unbounded ∷ cs) ks = ground arith
  flatten_bounded (scope s t ∷ cs) ks = rw (flatten_bounded cs ks.1) refl
  flatten_bounded (_ ∷ cs) ks = ground arith

  all_ranges_bounded :
      (conditions : List (ConstantBinary V))
      → All (IsBounded K) conditions
      → all_ranges c conditions ≡ true
  all_ranges_bounded [] ks = refl
  all_ranges_bounded (scope s t ∷ cs) ks = all_ranges_bounded cs ks.1
  all_ranges_bounded (_ ∷ cs) ks = ground arith

  rearrange_bounded :
      (bs : Binaries V)
      → All (IsBounded K) (to_list bs)
      → rearrange c (or_of bs)
        ≡ ok (last_first [] (merge_conditions c [] (sort_by (start_le c) (to_list bs))))
  unfolding rearrange
  rearrange_bounded bs ks =
      rw (flatten_bounded (to_list bs) ks, all_ranges_bounded (to_list bs) ks)
        (elim (Bool-cases (ltb 1 (length (to_list bs)))) [
          | inl many ↦ rw many refl
          | inr one ↦ rw one refl
        ])

  -- On values the comparison orders linearly, the ranges under an `or`, each bounded on a side, are
  -- rearranged without a panic, and a value of the kind that one of them holds is held by one of the
  -- rearranged ranges.
  pub rearrange_covers :
      (bs : Binaries V)
      → All (IsBounded K) (to_list bs)
      → (rs : List (ConstantBinary V)) × (rearrange c (or_of bs) ≡ ok rs)
        × ((v : V) → K v → Any (Holds c v) (to_list bs) → Any (Holds c v) rs)
  unfolding rearrange Selected StartsFirst
  rearrange_covers bs ks =
      let sorted = sort_by (start_le c) (to_list bs) in
      (
        last_first [] (merge_conditions c [] sorted),
        rearrange_bounded bs ks,
        λ v kv i. Any-last_first (Holds c v) [] (merge_conditions c [] sorted) (
            inl (
              merge_conditions-start sorted (sort_by-All (start_le c) (IsBounded K) (to_list bs) ks)
                (sort_by-Sorted (start_le c) (IsBounded K) StartsFirst
                  (λ x y z f g w kw h. f w kw (g w kw h)) starts_yes starts_no (to_list bs) ks)
                v kv (sort_by-Any (start_le c) (Holds c v) (to_list bs) i))),
      )
