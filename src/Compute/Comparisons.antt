-- ===== src/Compute/Comparisons.antt =====
-- The comparisons of `binary_op` in src/expression/value_compute.rs against the order of values in
-- src/types/value.rs, and the types it does not support.
use kip_sql.Prelude.{
  ◌≡◌, ◌≢◌, refl, Bool, not, Option, none, some, arith, Ordering, is_lt, is_gt, is_eq,
}
use kip_sql.Prelude.Outcome.{ok, panic}
use kip_sql.Types.{max_logical_type, type_eq}
use kip_sql.Value.{
  DataValue, int8, int16, int32, int64, u_int8, u_int16, u_int32, u_int64, utf8, date32, date64,
  decimal, boolean, External, partial_cmp, logical_type,
}
use kip_sql.Value.Cast.{
  cast, varchar_cast, cast_int32, cast_int64, cast_u_int32, cast_u_int64, cast_utf8, cast_date64,
}
use kip_sql.Compute.{
  Machine, unpack_i32, unpack_i64, unpack_u32, unpack_u64, unpack_date, unpack_utf8,
}
use kip_sql.Compute.Binary.{
  BinaryOperator, gt, lt, gt_eq, lt_eq, eq, not_eq, like, not_like, plus, binary_op, typed_op,
  integer_op, bigint_op, u_integer_op, u_bigint_op, compare_op,
}

-- What an operator asks of an order, for the operators that compare.
abbrev pub asks : BinaryOperator → Option (Ordering → Bool)
asks gt = some is_gt
asks lt = some is_lt
asks gt_eq = some (λ o. not (is_lt o))
asks lt_eq = some (λ o. not (is_gt o))
asks eq = some is_eq
asks not_eq = some (λ o. not (is_eq o))
asks _ = none

-- A value that is not null, of an integer, time or text type that the operators support.
abbrev pub IsOrdered : {D : Type 0} → DataValue D → Type 0
IsOrdered (int32 (some _)) = Unit
IsOrdered (int64 (some _)) = Unit
IsOrdered (u_int32 (some _)) = Unit
IsOrdered (u_int64 (some _)) = Unit
IsOrdered (date64 (some _)) = Unit
IsOrdered (utf8 (some _)) = Unit
IsOrdered _ = ⊥

-- Two values of one of the types that have no arm.
abbrev pub AreUnsupported : {D : Type 0} → DataValue D → DataValue D → Type 0
AreUnsupported (int8 _) (int8 _) = Unit
AreUnsupported (int16 _) (int16 _) = Unit
AreUnsupported (u_int8 _) (u_int8 _) = Unit
AreUnsupported (u_int16 _) (u_int16 _) = Unit
AreUnsupported (date32 _) (date32 _) = Unit
AreUnsupported (decimal _) (decimal _) = Unit
AreUnsupported _ _ = ⊥

module _ {D : Type 0} (x : External D) (m : Machine D) where
  -- A comparison of two values of one of the types INTEGER, BIGINT, UINTEGER, UBIGINT, DATETIME
  -- and VARCHAR, neither of them null, answers what the order of values says, by which keys and
  -- ranges go.
  pub binary_op_order :
      (left right : DataValue D) (op : BinaryOperator) {f : Ordering → Bool} {o : Ordering}
      → IsOrdered left
      → IsOrdered right
      → asks op ≡ some f
      → partial_cmp x left right ≡ some o
      → binary_op m left right op ≡ ok (boolean (some (f o)))
  unfolding binary_op typed_op integer_op bigint_op u_integer_op u_bigint_op compare_op cast
      varchar_cast cast_int32 cast_int64 cast_u_int32 cast_u_int64 cast_utf8 cast_date64
      max_logical_type type_eq logical_type partial_cmp unpack_i32 unpack_i64 unpack_u32 unpack_u64
      unpack_date unpack_utf8
  binary_op_order (int32 (some a)) (int32 (some b)) gt p q h e = ground arith
  binary_op_order (int32 (some a)) (int32 (some b)) lt p q h e = ground arith
  binary_op_order (int32 (some a)) (int32 (some b)) gt_eq p q h e = ground arith
  binary_op_order (int32 (some a)) (int32 (some b)) lt_eq p q h e = ground arith
  binary_op_order (int32 (some a)) (int32 (some b)) eq p q h e = ground arith
  binary_op_order (int32 (some a)) (int32 (some b)) not_eq p q h e = ground arith
  binary_op_order (int64 (some a)) (int64 (some b)) gt p q h e = ground arith
  binary_op_order (int64 (some a)) (int64 (some b)) lt p q h e = ground arith
  binary_op_order (int64 (some a)) (int64 (some b)) gt_eq p q h e = ground arith
  binary_op_order (int64 (some a)) (int64 (some b)) lt_eq p q h e = ground arith
  binary_op_order (int64 (some a)) (int64 (some b)) eq p q h e = ground arith
  binary_op_order (int64 (some a)) (int64 (some b)) not_eq p q h e = ground arith
  binary_op_order (u_int32 (some a)) (u_int32 (some b)) gt p q h e = ground arith
  binary_op_order (u_int32 (some a)) (u_int32 (some b)) lt p q h e = ground arith
  binary_op_order (u_int32 (some a)) (u_int32 (some b)) gt_eq p q h e = ground arith
  binary_op_order (u_int32 (some a)) (u_int32 (some b)) lt_eq p q h e = ground arith
  binary_op_order (u_int32 (some a)) (u_int32 (some b)) eq p q h e = ground arith
  binary_op_order (u_int32 (some a)) (u_int32 (some b)) not_eq p q h e = ground arith
  binary_op_order (u_int64 (some a)) (u_int64 (some b)) gt p q h e = ground arith
  binary_op_order (u_int64 (some a)) (u_int64 (some b)) lt p q h e = ground arith
  binary_op_order (u_int64 (some a)) (u_int64 (some b)) gt_eq p q h e = ground arith
  binary_op_order (u_int64 (some a)) (u_int64 (some b)) lt_eq p q h e = ground arith
  binary_op_order (u_int64 (some a)) (u_int64 (some b)) eq p q h e = ground arith
  binary_op_order (u_int64 (some a)) (u_int64 (some b)) not_eq p q h e = ground arith
  binary_op_order (date64 (some a)) (date64 (some b)) gt p q h e = ground arith
  binary_op_order (date64 (some a)) (date64 (some b)) lt p q h e = ground arith
  binary_op_order (date64 (some a)) (date64 (some b)) gt_eq p q h e = ground arith
  binary_op_order (date64 (some a)) (date64 (some b)) lt_eq p q h e = ground arith
  binary_op_order (date64 (some a)) (date64 (some b)) eq p q h e = ground arith
  binary_op_order (date64 (some a)) (date64 (some b)) not_eq p q h e = ground arith
  binary_op_order (utf8 (some a)) (utf8 (some b)) gt p q h e = ground arith
  binary_op_order (utf8 (some a)) (utf8 (some b)) lt p q h e = ground arith
  binary_op_order (utf8 (some a)) (utf8 (some b)) gt_eq p q h e = ground arith
  binary_op_order (utf8 (some a)) (utf8 (some b)) lt_eq p q h e = ground arith
  binary_op_order (utf8 (some a)) (utf8 (some b)) eq p q h e = ground arith
  binary_op_order (utf8 (some a)) (utf8 (some b)) not_eq p q h e = ground arith
  binary_op_order _ _ _ p q h e = ground arith

  -- Every operator but `LIKE` and `NOT LIKE` panics on two values of one of the types TINYINT,
  -- SMALLINT, UTINYINT, USMALLINT, DATE and DECIMAL.
  pub binary_op_unsupported :
      (left right : DataValue D) (op : BinaryOperator)
      → AreUnsupported left right
      → op ≢ like
      → op ≢ not_like
      → binary_op m left right op ≡ panic
  unfolding binary_op typed_op max_logical_type type_eq logical_type
  binary_op_unsupported (int8 a) (int8 b) plus p q r = refl
  binary_op_unsupported (int8 a) (int8 b) _ p q r = ground arith
  binary_op_unsupported (int16 a) (int16 b) plus p q r = refl
  binary_op_unsupported (int16 a) (int16 b) _ p q r = ground arith
  binary_op_unsupported (u_int8 a) (u_int8 b) plus p q r = refl
  binary_op_unsupported (u_int8 a) (u_int8 b) _ p q r = ground arith
  binary_op_unsupported (u_int16 a) (u_int16 b) plus p q r = refl
  binary_op_unsupported (u_int16 a) (u_int16 b) _ p q r = ground arith
  binary_op_unsupported (date32 a) (date32 b) plus p q r = refl
  binary_op_unsupported (date32 a) (date32 b) _ p q r = ground arith
  binary_op_unsupported (decimal a) (decimal b) plus p q r = refl
  binary_op_unsupported (decimal a) (decimal b) _ p q r = ground arith
  binary_op_unsupported _ _ op p q r = ground arith
