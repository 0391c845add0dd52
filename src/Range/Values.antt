-- ===== src/Range/Values.antt =====
-- The ranges of src/expression/simplify.rs over the values of src/types/value.rs: an INTEGER column
-- is linearly ordered, its nulls included.
use kip_sql.Prelude.{◌≡◌, refl, Option, none, some, Ordering, reverse_cmp, is_eq, arith, ap}
use kip_sql.Prelude.Int.{ℤ, pos, negsuc, compare_ℤ}
use kip_sql.Types.{LogicalType}
use kip_sql.Value.{DataValue, External, int32, partial_cmp, value_eq, compare_option}
use kip_sql.Value.Raw.RoundTrip.{IsOf}
use kip_sql.Range.{Comparison}
use kip_sql.Range.Meaning.{IsLinear}

abbrev pub values : {D : Type 0} → External D → Comparison (DataValue D)
values x = record { cmp = partial_cmp x; same = value_eq x }

compare_ℤ-swap : (a b : ℤ) → compare_ℤ b a ≡ reverse_cmp (compare_ℤ a b)
compare_ℤ-swap (pos a) (pos b) = ground arith
compare_ℤ-swap (pos a) (negsuc b) = refl
compare_ℤ-swap (negsuc a) (pos b) = refl
compare_ℤ-swap (negsuc a) (negsuc b) = ground arith

compare_ℤ-eq : (a b : ℤ) → compare_ℤ a b ≡ Ordering.eq → a ≡ b
compare_ℤ-eq (pos a) (pos b) h = ground arith
compare_ℤ-eq (pos a) (negsuc b) h = cc
compare_ℤ-eq (negsuc a) (pos b) h = cc
compare_ℤ-eq (negsuc a) (negsuc b) h = ground arith

compare_ℤ-lt :
    (a b d : ℤ)
    → compare_ℤ a b ≡ Ordering.lt
    → compare_ℤ b d ≡ Ordering.lt
    → compare_ℤ a d ≡ Ordering.lt
compare_ℤ-lt (pos a) (pos b) (pos d) h k = ground arith
compare_ℤ-lt (pos a) (pos b) (negsuc d) h k = ground arith
compare_ℤ-lt (pos a) (negsuc b) d h k = cc
compare_ℤ-lt (negsuc a) b (pos d) h k = refl
compare_ℤ-lt (negsuc a) (pos b) (negsuc d) h k = cc
compare_ℤ-lt (negsuc a) (negsuc b) (negsuc d) h k = ground arith

abbrev integer_order : Option ℤ → Option ℤ → Ordering
integer_order = compare_option compare_ℤ

order_swap : (a b : Option ℤ) → integer_order b a ≡ reverse_cmp (integer_order a b)
order_swap none none = refl
order_swap none (some b) = refl
order_swap (some a) none = refl
order_swap (some a) (some b) = compare_ℤ-swap a b

order_eq : (a b : Option ℤ) → integer_order a b ≡ Ordering.eq → a ≡ b
order_eq none none h = refl
order_eq none (some b) h = cc
order_eq (some a) none h = cc
order_eq (some a) (some b) h = ap some (compare_ℤ-eq a b h)

order_lt :
    (a b d : Option ℤ)
    → integer_order a b ≡ Ordering.lt
    → integer_order b d ≡ Ordering.lt
    → integer_order a d ≡ Ordering.lt
order_lt none none d h k = cc
order_lt none (some b) none h k = cc
order_lt none (some b) (some d) h k = refl
order_lt (some a) none d h k = cc
order_lt (some a) (some b) none h k = cc
order_lt (some a) (some b) (some d) h k = compare_ℤ-lt a b d h k

module _ {D : Type 0} where
  abbrev integer_of : DataValue D → Option ℤ
  integer_of (int32 v) = v
  integer_of _ = none

  is_integer : (v : DataValue D) → IsOf LogicalType.integer v → v ≡ int32 (integer_of v)
  is_integer (int32 v) k = refl
  is_integer _ k = ground arith

  compares_lem :
      (x : External D) (a b : DataValue D)
      → IsOf LogicalType.integer a
      → IsOf LogicalType.integer b
      → (partial_cmp x a b ≡ some (integer_order (integer_of a) (integer_of b)))
        × (value_eq x a b ≡ is_eq (integer_order (integer_of a) (integer_of b)))
  unfolding partial_cmp value_eq
  compares_lem x a b ka kb = rw (is_integer a ka, is_integer b kb) (refl, refl)

  pub integers-IsLinear : (x : External D) → IsLinear (values x) (IsOf LogicalType.integer)
  integers-IsLinear x = record {
    order = λ a b. integer_order (integer_of a) (integer_of b);
    compares = λ a b ka kb. (compares_lem x a b ka kb).0;
    equals = λ a b ka kb. (compares_lem x a b ka kb).1;
    swap = λ a b ka kb. order_swap (integer_of a) (integer_of b);
    equal = λ a b d ka kb kd h.
        ap (λ o. integer_order o (integer_of d)) (order_eq (integer_of a) (integer_of b) h);
    less = λ a b d ka kb kd h k. order_lt (integer_of a) (integer_of b) (integer_of d) h k;
  }
