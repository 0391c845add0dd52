-- ===== src/Compute/Nulls.antt =====
-- Nulls in `binary_op` of src/expression/value_compute.rs.
use kip_sql.Prelude.{◌≡◌, refl, ◌⊎◌, inl, inr, Bool, true, Option, none, some, arith, ℕ}
use kip_sql.Prelude.Int.{ℤ, compare_ℤ}
use kip_sql.Prelude.Bytes.{compare_bytes}
use kip_sql.Prelude.Outcome.{Outcome, ok, err, panic, ◌>>=◌}
use kip_sql.Types.{LogicalType, TypeError, max_logical_type}
use kip_sql.Value.{DataValue, is_null, logical_type}
use kip_sql.Value.Cast.{cast}
use kip_sql.Compute.{
  Machine, unpack_i32, unpack_i64, unpack_u32, unpack_u64, unpack_f64, unpack_f32, unpack_bool,
  unpack_date, unpack_utf8,
}
use kip_sql.Compute.Binary.{
  BinaryOperator, like, not_like, plus, and, binary_op, typed_op, on_both, integer_op, bigint_op,
  u_integer_op, u_bigint_op, double_op, boolean_op, float_op, compare_op,
}
use kip_sql.Compute.NullCasts.{
  is_strict, NullOut, compare_op-null, cast-NullOut, unpack_i32-null, unpack_i64-null,
  unpack_u32-null, unpack_u64-null, unpack_f64-null, unpack_f32-null, unpack_bool-null,
  unpack_date-null, unpack_utf8-null,
}

module _ {D : Type 0} where
  joined-NullOut :
      {A : Type 0} (unpack : DataValue D → Option A)
      (f : Option A → Option A → Outcome TypeError (DataValue D))
      (a b : Outcome TypeError (DataValue D))
      → ((v : DataValue D) → is_null v ≡ true → unpack v ≡ none)
      → ((l r : Option A) → (l ≡ none) ⊎ (r ≡ none) → NullOut (f l r))
      → NullOut a ⊎ NullOut b
      → NullOut (a >>= λ l. b >>= λ r. f (unpack l) (unpack r))
  joined-NullOut unpack f (ok l) (ok r) u g (inl h) = g (unpack l) (unpack r) (inl (u l h))
  joined-NullOut unpack f (ok l) (ok r) u g (inr h) = g (unpack l) (unpack r) (inr (u r h))
  joined-NullOut unpack f (ok l) (err e) u g h = tt
  joined-NullOut unpack f (ok l) panic u g h = tt
  joined-NullOut unpack f (err e) b u g h = tt
  joined-NullOut unpack f panic b u g h = tt

  module _ (m : Machine D) where
    integer_op-null :
        (op : BinaryOperator) (l r : Option ℤ)
        → is_strict op ≡ true
        → (l ≡ none) ⊎ (r ≡ none)
        → NullOut (integer_op m op l r)
    unfolding integer_op compare_op is_null
    integer_op-null plus none none h i = refl
    integer_op-null _ l r h i = ground arith

    bigint_op-null :
        (op : BinaryOperator) (l r : Option ℤ)
        → is_strict op ≡ true
        → (l ≡ none) ⊎ (r ≡ none)
        → NullOut (bigint_op m op l r)
    unfolding bigint_op compare_op is_null
    bigint_op-null plus none none h i = refl
    bigint_op-null _ l r h i = ground arith

    u_integer_op-null :
        (op : BinaryOperator) (l r : Option ℕ)
        → is_strict op ≡ true
        → (l ≡ none) ⊎ (r ≡ none)
        → NullOut (u_integer_op m op l r)
    unfolding u_integer_op compare_op is_null
    u_integer_op-null plus none none h i = refl
    u_integer_op-null _ l r h i = ground arith

    u_bigint_op-null :
        (op : BinaryOperator) (l r : Option ℕ)
        → is_strict op ≡ true
        → (l ≡ none) ⊎ (r ≡ none)
        → NullOut (u_bigint_op m op l r)
    unfolding u_bigint_op compare_op is_null
    u_bigint_op-null plus none none h i = refl
    u_bigint_op-null _ l r h i = ground arith

    double_op-null :
        (op : BinaryOperator) (l r : Option ℕ)
        → is_strict op ≡ true
        → (l ≡ none) ⊎ (r ≡ none)
        → NullOut (double_op m op l r)
    unfolding double_op compare_op is_null
    double_op-null plus none none h i = refl
    double_op-null _ l r h i = ground arith

    boolean_op-null :
        (op : BinaryOperator) (l r : Option Bool)
        → is_strict op ≡ true
        → (l ≡ none) ⊎ (r ≡ none)
        → NullOut (boolean_op m op l r)
    unfolding boolean_op compare_op is_null
    boolean_op-null and none none h i = refl
    boolean_op-null _ l r h i = ground arith

    float_op-null :
        (op : BinaryOperator) (l r : Option ℕ)
        → is_strict op ≡ true
        → (l ≡ none) ⊎ (r ≡ none)
        → NullOut (float_op m op l r)
    unfolding float_op compare_op is_null
    float_op-null plus none none h i = refl
    float_op-null _ l r h i = ground arith

    on_both-NullOut :
        {A : Type 0} (unpack : DataValue D → Option A) (ty : LogicalType)
        (f : Option A → Option A → Outcome TypeError (DataValue D)) (left right : DataValue D)
        → ((v : DataValue D) → is_null v ≡ true → unpack v ≡ none)
        → ((l r : Option A) → (l ≡ none) ⊎ (r ≡ none) → NullOut (f l r))
        → (is_null left ≡ true) ⊎ (is_null right ≡ true)
        → NullOut (on_both m unpack ty f left right)
    on_both-NullOut unpack ty f left right u g (inl h) =
        joined-NullOut unpack f (cast m.conversions left ty) (cast m.conversions right ty) u g
          (inl (cast-NullOut m.conversions left ty h))
    on_both-NullOut unpack ty f left right u g (inr h) =
        joined-NullOut unpack f (cast m.conversions left ty) (cast m.conversions right ty) u g
          (inr (cast-NullOut m.conversions right ty h))

    typed_op-null :
        (ty : LogicalType) (op : BinaryOperator) (left right : DataValue D)
        → is_strict op ≡ true
        → (is_null left ≡ true) ⊎ (is_null right ≡ true)
        → NullOut (typed_op m ty op left right)
    unfolding typed_op is_null
    typed_op-null LogicalType.integer op left right s h =
        on_both-NullOut unpack_i32 LogicalType.integer (integer_op m op) left right unpack_i32-null
          (λ l r i. integer_op-null op l r s i) h
    typed_op-null LogicalType.bigint op left right s h =
        on_both-NullOut unpack_i64 LogicalType.bigint (bigint_op m op) left right unpack_i64-null
          (λ l r i. bigint_op-null op l r s i) h
    typed_op-null LogicalType.u_integer op left right s h =
        on_both-NullOut unpack_u32 LogicalType.u_integer (u_integer_op m op) left right
          unpack_u32-null (λ l r i. u_integer_op-null op l r s i) h
    typed_op-null LogicalType.u_bigint op left right s h =
        on_both-NullOut unpack_u64 LogicalType.u_bigint (u_bigint_op m op) left right
          unpack_u64-null (λ l r i. u_bigint_op-null op l r s i) h
    typed_op-null LogicalType.double op left right s h =
        on_both-NullOut unpack_f64 LogicalType.double (double_op m op) left right unpack_f64-null
          (λ l r i. double_op-null op l r s i) h
    typed_op-null LogicalType.boolean op left right s h =
        on_both-NullOut unpack_bool LogicalType.boolean (boolean_op m op) left right
          unpack_bool-null (λ l r i. boolean_op-null op l r s i) h
    typed_op-null LogicalType.float op left right s h =
        on_both-NullOut unpack_f32 LogicalType.float (float_op m op) left right unpack_f32-null
          (λ l r i. float_op-null op l r s i) h
    typed_op-null LogicalType.date_time op left right s h =
        on_both-NullOut unpack_date LogicalType.date_time
          (compare_op (λ a b. some (compare_ℤ a b)) op) left right unpack_date-null
          (λ l r i. compare_op-null D (λ a b. some (compare_ℤ a b)) op l r s i) h
    typed_op-null (LogicalType.varchar none) op left right s h =
        on_both-NullOut unpack_utf8 (LogicalType.varchar none)
          (compare_op (λ a b. some (compare_bytes a b)) op) left right unpack_utf8-null
          (λ l r i. compare_op-null D (λ a b. some (compare_bytes a b)) op l r s i) h
    typed_op-null LogicalType.sql_null op left right s h = refl
    typed_op-null (LogicalType.varchar (some n)) op left right s h = tt
    typed_op-null _ op left right s h = tt

    unified_op-null :
        (op : BinaryOperator) (left right : DataValue D) (ty : Outcome TypeError LogicalType)
        → is_strict op ≡ true
        → (is_null left ≡ true) ⊎ (is_null right ≡ true)
        → NullOut (ty >>= λ ty. typed_op m ty op left right)
    unified_op-null op left right (ok ty) s h = typed_op-null ty op left right s h
    unified_op-null op left right (err e) s h = tt
    unified_op-null op left right panic s h = tt

    binary_op-NullOut :
        (left right : DataValue D) (op : BinaryOperator)
        → is_strict op ≡ true
        → (is_null left ≡ true) ⊎ (is_null right ≡ true)
        → NullOut (binary_op m left right op)
    unfolding binary_op
    binary_op-NullOut left right plus s h =
        unified_op-null plus left right (max_logical_type (logical_type left) (logical_type right))
          s h
    binary_op-NullOut left right like s h = cc
    binary_op-NullOut left right not_like s h = cc
    binary_op-NullOut left right op s h =
        unified_op-null op left right (max_logical_type (logical_type left) (logical_type right)) s
          h

    null_result :
        (r : Outcome TypeError (DataValue D)) (w : DataValue D)
        → NullOut r
        → r ≡ ok w
        → is_null w ≡ true
    null_result (ok v) w h e = ground arith
    null_result (err x) w h e = cc
    null_result panic w h e = cc

    -- Every operator but `=`, `LIKE` and `NOT LIKE` answers null, if it answers, when one of its
    -- operands is null.
    pub binary_op_null :
        (left right w : DataValue D) (op : BinaryOperator)
        → is_strict op ≡ true
        → (is_null left ≡ true) ⊎ (is_null right ≡ true)
        → binary_op m left right op ≡ ok w
        → is_null w ≡ true
    binary_op_null left right w op s h e =
        null_result (binary_op m left right op) w (binary_op-NullOut left right op s h) e
