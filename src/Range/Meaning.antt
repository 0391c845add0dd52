-- ===== src/Range/Meaning.antt =====
-- What a range of src/expression/simplify.rs selects, when the values are linearly ordered.
use kip_sql.Prelude.{
  ◌≡◌, ◌≢◌, Bool, true, false, some, Ordering, reverse_cmp, is_lt, is_gt, is_eq, not, arith, refl,
}
use kip_sql.Range.{
  Bound, included, excluded, unbounded, ConstantBinary, scope, eq, not_eq, Comparison,
  bound_compared, lt_holds, gt_holds, or_equal,
}

-- On the values of a kind `K`, the comparison always answers, and is a linear order.
pub record IsLinear {V : Type 0} (c : Comparison V) (K : V → Type 0) : Type 0 where
  pub order : V → V → Ordering
  pub compares : (a b : V) → K a → K b → c.cmp a b ≡ some (order a b)
  pub equals : (a b : V) → K a → K b → c.same a b ≡ is_eq (order a b)
  pub swap : (a b : V) → K a → K b → order b a ≡ reverse_cmp (order a b)
  pub equal : (a b d : V) → K a → K b → K d → order a b ≡ Ordering.eq → order a d ≡ order b d
  pub less :
      (a b d : V)
      → K a
      → K b
      → K d
      → order a b ≡ Ordering.lt
      → order b d ≡ Ordering.lt
      → order a d ≡ Ordering.lt

module _ {V : Type 0} (c : Comparison V) where
  -- The value lies above a lower bound, or below an upper bound.
  unfoldable pub above : Bound V → V → Bool
  above unbounded v = true
  above (included m) v = not (is_gt (or_equal (c.cmp m v)))
  above (excluded m) v = is_lt (or_equal (c.cmp m v))

  unfoldable pub below : Bound V → V → Bool
  below unbounded v = true
  below (included m) v = not (is_lt (or_equal (c.cmp m v)))
  below (excluded m) v = is_gt (or_equal (c.cmp m v))

  -- The value is one that the condition selects; `and_of` and `or_of` are no ranges.
  unfoldable pub Holds : V → ConstantBinary V → Type 0
  Holds v (scope min max) = (above min v ≡ true) × (below max v ≡ true)
  Holds v (eq w) = or_equal (c.cmp w v) ≡ Ordering.eq
  Holds v (not_eq w) = or_equal (c.cmp w v) ≢ Ordering.eq
  Holds v _ = ⊥

-- How two bounds and a value can stand to each other.
abbrev Triangle : Ordering → Ordering → Ordering → Type 0
Triangle Ordering.eq bv av = av ≡ bv
Triangle ab Ordering.eq av = av ≡ ab
Triangle Ordering.lt Ordering.lt av = av ≡ Ordering.lt
Triangle Ordering.gt Ordering.gt av = av ≡ Ordering.gt
Triangle _ _ av = Unit

Triangle_lem :
    (ab bv av ba vb va : Ordering)
    → ba ≡ reverse_cmp ab
    → vb ≡ reverse_cmp bv
    → va ≡ reverse_cmp av
    → (ab ≡ Ordering.eq → av ≡ bv)
    → (vb ≡ Ordering.eq → va ≡ ba)
    → (ab ≡ Ordering.lt → bv ≡ Ordering.lt → av ≡ Ordering.lt)
    → (vb ≡ Ordering.lt → ba ≡ Ordering.lt → va ≡ Ordering.lt)
    → Triangle ab bv av
Triangle_lem Ordering.eq bv av ba vb va p q r e f l m = e refl
Triangle_lem Ordering.lt Ordering.eq av ba vb va p q r e f l m = ground arith
Triangle_lem Ordering.lt Ordering.lt av ba vb va p q r e f l m = l refl refl
Triangle_lem Ordering.lt Ordering.gt av ba vb va p q r e f l m = tt
Triangle_lem Ordering.gt Ordering.eq av ba vb va p q r e f l m = ground arith
Triangle_lem Ordering.gt Ordering.lt av ba vb va p q r e f l m = tt
Triangle_lem Ordering.gt Ordering.gt av ba vb va p q r e f l m = ground arith

abbrev pub BoundIs : {V : Type 0} → (V → Type 0) → Bound V → Type 0
BoundIs P (included m) = P m
BoundIs P (excluded m) = P m
BoundIs P unbounded = Unit

module _ {V : Type 0} {c : Comparison V} {K : V → Type 0} (linear : IsLinear c K) where
  triangle :
      (a b v : V)
      → K a
      → K b
      → K v
      → Triangle (linear.order a b) (linear.order b v) (linear.order a v)
  triangle a b v ka kb kv =
      Triangle_lem (linear.order a b) (linear.order b v) (linear.order a v) (linear.order b a)
        (linear.order v b) (linear.order v a) (linear.swap a b ka kb) (linear.swap b v kb kv)
        (linear.swap a v ka kv) (linear.equal a b v ka kb kv) (linear.equal v b a kv kb ka)
        (linear.less a b v ka kb kv) (linear.less v b a kv kb ka)

  -- A lower bound that is not greater selects more.
  pub above-bound_compared_gt :
      (a b : Bound V) (v : V)
      → BoundIs K a
      → BoundIs K b
      → K v
      → gt_holds c (bound_compared c a b true) ≡ false
      → above c b v ≡ true
      → above c a v ≡ true
  unfolding bound_compared above
  above-bound_compared_gt unbounded unbounded v ka kb kv h l = ground arith
  above-bound_compared_gt unbounded (included n) v ka kb kv h l = ground arith
  above-bound_compared_gt unbounded (excluded n) v ka kb kv h l = ground arith
  above-bound_compared_gt (included m) unbounded v ka kb kv h l = ground arith
  above-bound_compared_gt (included m) (included n) v ka kb kv h l = ground (
    arith,
    linear.compares m n ka kb,
    linear.compares n v kb kv,
    linear.compares m v ka kv,
    triangle m n v ka kb kv,
  )
  above-bound_compared_gt (included m) (excluded n) v ka kb kv h l = ground (
    arith,
    linear.compares m n ka kb,
    linear.compares n v kb kv,
    linear.compares m v ka kv,
    triangle m n v ka kb kv,
  )
  above-bound_compared_gt (excluded m) unbounded v ka kb kv h l = ground arith
  above-bound_compared_gt (excluded m) (included n) v ka kb kv h l = ground (
    arith,
    linear.compares m n ka kb,
    linear.compares n v kb kv,
    linear.compares m v ka kv,
    triangle m n v ka kb kv,
  )
  above-bound_compared_gt (excluded m) (excluded n) v ka kb kv h l = ground (
    arith,
    linear.compares m n ka kb,
    linear.compares n v kb kv,
    linear.compares m v ka kv,
    triangle m n v ka kb kv,
  )

  -- A lower bound that is not less selects less.
  pub above-bound_compared_lt :
      (a b : Bound V) (v : V)
      → BoundIs K a
      → BoundIs K b
      → K v
      → lt_holds c (bound_compared c a b true) ≡ false
      → above c a v ≡ true
      → above c b v ≡ true
  unfolding bound_compared above
  above-bound_compared_lt unbounded unbounded v ka kb kv h l = ground arith
  above-bound_compared_lt unbounded (included n) v ka kb kv h l = ground arith
  above-bound_compared_lt unbounded (excluded n) v ka kb kv h l = ground arith
  above-bound_compared_lt (included m) unbounded v ka kb kv h l = ground arith
  above-bound_compared_lt (included m) (included n) v ka kb kv h l = ground (
    arith,
    linear.compares m n ka kb,
    linear.compares n v kb kv,
    linear.compares m v ka kv,
    triangle m n v ka kb kv,
  )
  above-bound_compared_lt (included m) (excluded n) v ka kb kv h l = ground (
    arith,
    linear.compares m n ka kb,
    linear.compares n v kb kv,
    linear.compares m v ka kv,
    triangle m n v ka kb kv,
  )
  above-bound_compared_lt (excluded m) unbounded v ka kb kv h l = ground arith
  above-bound_compared_lt (excluded m) (included n) v ka kb kv h l = ground (
    arith,
    linear.compares m n ka kb,
    linear.compares n v kb kv,
    linear.compares m v ka kv,
    triangle m n v ka kb kv,
  )
  above-bound_compared_lt (excluded m) (excluded n) v ka kb kv h l = ground (
    arith,
    linear.compares m n ka kb,
    linear.compares n v kb kv,
    linear.compares m v ka kv,
    triangle m n v ka kb kv,
  )

  -- An upper bound that is not greater selects less.
  pub below-bound_compared_gt :
      (a b : Bound V) (v : V)
      → BoundIs K a
      → BoundIs K b
      → K v
      → gt_holds c (bound_compared c a b false) ≡ false
      → below c a v ≡ true
      → below c b v ≡ true
  unfolding bound_compared below
  below-bound_compared_gt unbounded unbounded v ka kb kv h l = ground arith
  below-bound_compared_gt unbounded (included n) v ka kb kv h l = ground arith
  below-bound_compared_gt unbounded (excluded n) v ka kb kv h l = ground arith
  below-bound_compared_gt (included m) unbounded v ka kb kv h l = ground arith
  below-bound_compared_gt (included m) (included n) v ka kb kv h l = ground (
    arith,
    linear.compares m n ka kb,
    linear.compares n v kb kv,
    linear.compares m v ka kv,
    triangle m n v ka kb kv,
  )
  below-bound_compared_gt (included m) (excluded n) v ka kb kv h l = ground (
    arith,
    linear.compares m n ka kb,
    linear.compares n v kb kv,
    linear.compares m v ka kv,
    triangle m n v ka kb kv,
  )
  below-bound_compared_gt (excluded m) unbounded v ka kb kv h l = ground arith
  below-bound_compared_gt (excluded m) (included n) v ka kb kv h l = ground (
    arith,
    linear.compares m n ka kb,
    linear.compares n v kb kv,
    linear.compares m v ka kv,
    triangle m n v ka kb kv,
  )
  below-bound_compared_gt (excluded m) (excluded n) v ka kb kv h l = ground (
    arith,
    linear.compares m n ka kb,
    linear.compares n v kb kv,
    linear.compares m v ka kv,
    triangle m n v ka kb kv,
  )

  -- An upper bound that is not less selects more.
  pub below-bound_compared_lt :
      (a b : Bound V) (v : V)
      → BoundIs K a
      → BoundIs K b
      → K v
      → lt_holds c (bound_compared c a b false) ≡ false
      → below c b v ≡ true
      → below c a v ≡ true
  unfolding bound_compared below
  below-bound_compared_lt unbounded unbounded v ka kb kv h l = ground arith
  below-bound_compared_lt unbounded (included n) v ka kb kv h l = ground arith
  below-bound_compared_lt unbounded (excluded n) v ka kb kv h l = ground arith
  below-bound_compared_lt (included m) unbounded v ka kb kv h l = ground arith
  below-bound_compared_lt (included m) (included n) v ka kb kv h l = ground (
    arith,
    linear.compares m n ka kb,
    linear.compares n v kb kv,
    linear.compares m v ka kv,
    triangle m n v ka kb kv,
  )
  below-bound_compared_lt (included m) (excluded n) v ka kb kv h l = ground (
    arith,
    linear.compares m n ka kb,
    linear.compares n v kb kv,
    linear.compares m v ka kv,
    triangle m n v ka kb kv,
  )
  below-bound_compared_lt (excluded m) unbounded v ka kb kv h l = ground arith
  below-bound_compared_lt (excluded m) (included n) v ka kb kv h l = ground (
    arith,
    linear.compares m n ka kb,
    linear.compares n v kb kv,
    linear.compares m v ka kv,
    triangle m n v ka kb kv,
  )
  below-bound_compared_lt (excluded m) (excluded n) v ka kb kv h l = ground (
    arith,
    linear.compares m n ka kb,
    linear.compares n v kb kv,
    linear.compares m v ka kv,
    triangle m n v ka kb kv,
  )
