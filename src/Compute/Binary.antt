-- ===== src/Compute/Binary.antt =====
-- src/expression/value_compute.rs: `binary_op`, one function for each unified type.
use kip_sql.Prelude.{
  ℕ, ◌+◌, ◌-◌, ◌*◌, ◌%◌, ◌^◌, Bool, true, false, not, ◌&&◌, ◌||◌, Option, none, some, [], ◌∷◌,
  Ordering, compare, is_lt, is_gt, is_eq, ◌==◌, if◌then◌else◌,
}
use kip_sql.Prelude.Int.{ℤ, pos, ◌+ℤ◌, ◌-ℤ◌, ◌*ℤ◌, compare_ℤ}
use kip_sql.Prelude.Bytes.{Bytes, compare_bytes}
use kip_sql.Prelude.Outcome.{Outcome, ok, panic, ◌>>=◌}
use kip_sql.Types.{LogicalType, TypeError, max_logical_type}
use kip_sql.Value.{
  DataValue, boolean, float32, float64, int32, int64, u_int32, u_int64, logical_type,
}
use kip_sql.Value.Cast.{cast}
use kip_sql.Compute.{
  Machine, wrapped, unpack_i32, unpack_i64, unpack_u32, unpack_u64, unpack_f64, unpack_f32,
  unpack_bool, unpack_date, unpack_utf8,
}

pub data BinaryOperator : Type 0 where
  plus minus multiply divide modulo string_concat : BinaryOperator
  gt lt gt_eq lt_eq spaceship eq not_eq like not_like : BinaryOperator
  and or xor : BinaryOperator

-- `if let (Some(v1), Some(v2))`, and the arm of `Eq`.
abbrev pub both : {A B : Type 0} → (A → A → B) → Option A → Option A → Option B
both f (some v1) (some v2) = some (f v1 v2)
both f _ _ = none

abbrev pub equal_or_null : {A : Type 0} → (A → A → Bool) → Option A → Option A → Option Bool
equal_or_null f (some v1) (some v2) = some (f v1 v2)
equal_or_null f none none = some true
equal_or_null f _ _ = none

-- The tests `>`, `<`, `>=`, `<=` and `==` of an order that may have no answer.
abbrev pub answers : (Ordering → Bool) → Option Ordering → Bool
answers f none = false
answers f (some o) = f o

module _ {D A : Type 0} (order : A → A → Option Ordering) where
  -- The arms of the comparisons, the same for every type that has them.
  unfoldable pub compare_op : BinaryOperator → Option A → Option A → Outcome TypeError (DataValue D)
  compare_op gt l r = ok (boolean (both (λ a b. answers is_gt (order a b)) l r))
  compare_op lt l r = ok (boolean (both (λ a b. answers is_lt (order a b)) l r))
  compare_op gt_eq l r = ok (boolean (both (λ a b. answers (λ o. not (is_lt o)) (order a b)) l r))
  compare_op lt_eq l r = ok (boolean (both (λ a b. answers (λ o. not (is_gt o)) (order a b)) l r))
  compare_op eq l r = ok (boolean (equal_or_null (λ a b. answers is_eq (order a b)) l r))
  compare_op not_eq l r = ok (boolean (both (λ a b. not (answers is_eq (order a b))) l r))
  compare_op _ l r = panic

-- `pattern.replace('%', ".*").replace('_', ".")`.
abbrev pub regex_pattern : Bytes → Bytes
regex_pattern [] = []
regex_pattern (c ∷ cs) =
    if c == 37
    then 46 ∷ (42 ∷ regex_pattern cs)
    else if c == 95
    then 46 ∷ regex_pattern cs
    else c ∷ regex_pattern cs

module _ {D : Type 0} (m : Machine D) where
  abbrev pub f64_quotient : ℤ → ℤ → ℕ
  f64_quotient a b = m.div_f64 (m.conversions.f64_of_int a) (m.conversions.f64_of_int b)

  unfoldable pub integer_op : BinaryOperator → Option ℤ → Option ℤ → Outcome TypeError (DataValue D)
  unfolding compare_op
  integer_op plus l r = ok (int32 (both (λ a b. wrapped (2 ^ 31) (a +ℤ b)) l r))
  integer_op minus l r = ok (int32 (both (λ a b. wrapped (2 ^ 31) (a -ℤ b)) l r))
  integer_op multiply l r = ok (int32 (both (λ a b. wrapped (2 ^ 31) (a *ℤ b)) l r))
  integer_op divide l r = ok (float64 (both f64_quotient l r))
  integer_op op l r = compare_op (λ a b. some (compare_ℤ a b)) op l r

  unfoldable pub bigint_op : BinaryOperator → Option ℤ → Option ℤ → Outcome TypeError (DataValue D)
  unfolding compare_op
  bigint_op plus l r = ok (int64 (both (λ a b. wrapped (2 ^ 63) (a +ℤ b)) l r))
  bigint_op minus l r = ok (int64 (both (λ a b. wrapped (2 ^ 63) (a -ℤ b)) l r))
  bigint_op multiply l r = ok (int64 (both (λ a b. wrapped (2 ^ 63) (a *ℤ b)) l r))
  bigint_op divide l r = ok (float64 (both f64_quotient l r))
  bigint_op op l r = compare_op (λ a b. some (compare_ℤ a b)) op l r

  unfoldable pub u_integer_op :
      BinaryOperator → Option ℕ → Option ℕ → Outcome TypeError (DataValue D)
  unfolding compare_op
  u_integer_op plus l r = ok (u_int32 (both (λ a b. (a + b) % 2 ^ 32) l r))
  u_integer_op minus l r = ok (u_int32 (both (λ a b. (a + (2 ^ 32 - b)) % 2 ^ 32) l r))
  u_integer_op multiply l r = ok (u_int32 (both (λ a b. (a * b) % 2 ^ 32) l r))
  u_integer_op divide l r = ok (float64 (both (λ a b. f64_quotient (pos a) (pos b)) l r))
  u_integer_op op l r = compare_op (λ a b. some (compare a b)) op l r

  unfoldable pub u_bigint_op :
      BinaryOperator → Option ℕ → Option ℕ → Outcome TypeError (DataValue D)
  unfolding compare_op
  u_bigint_op plus l r = ok (u_int64 (both (λ a b. (a + b) % 2 ^ 64) l r))
  u_bigint_op minus l r = ok (u_int64 (both (λ a b. (a + (2 ^ 64 - b)) % 2 ^ 64) l r))
  u_bigint_op multiply l r = ok (u_int64 (both (λ a b. (a * b) % 2 ^ 64) l r))
  u_bigint_op divide l r = ok (float64 (both (λ a b. f64_quotient (pos a) (pos b)) l r))
  u_bigint_op op l r = compare_op (λ a b. some (compare a b)) op l r

  unfoldable pub double_op : BinaryOperator → Option ℕ → Option ℕ → Outcome TypeError (DataValue D)
  unfolding compare_op
  double_op plus l r = ok (float64 (both m.add_f64 l r))
  double_op minus l r = ok (float64 (both m.sub_f64 l r))
  double_op multiply l r = ok (float64 (both m.mul_f64 l r))
  double_op divide l r = ok (float64 (both m.div_f64 l r))
  double_op op l r = compare_op m.compare_f64 op l r

  unfoldable pub boolean_op :
      BinaryOperator → Option Bool → Option Bool → Outcome TypeError (DataValue D)
  boolean_op and l r = ok (boolean (both (λ a b. a && b) l r))
  boolean_op or l r = ok (boolean (both (λ a b. a || b) l r))
  boolean_op _ l r = panic

  unfoldable pub float_op : BinaryOperator → Option ℕ → Option ℕ → Outcome TypeError (DataValue D)
  unfolding compare_op
  float_op plus l r = ok (float32 (both m.add_f32 l r))
  float_op minus l r = ok (float32 (both m.sub_f32 l r))
  float_op multiply l r = ok (float32 (both m.mul_f32 l r))
  float_op divide l r = ok (
      float64
        (both (λ a b. m.div_f64 (m.conversions.f64_of_f32 a) (m.conversions.f64_of_f32 b)) l r))
  float_op op l r = compare_op m.compare_f32 op l r

  -- Both operands cast to the unified type and unpacked.
  abbrev pub on_both :
      {A : Type 0}
      → (DataValue D → Option A)
      → LogicalType
      → (Option A → Option A → Outcome TypeError (DataValue D))
      → DataValue D
      → DataValue D
      → Outcome TypeError (DataValue D)
  on_both unpack ty f left right = cast m.conversions left ty >>= λ l.
      cast m.conversions right ty >>= λ r. f (unpack l) (unpack r)

  unfoldable pub typed_op :
      LogicalType → BinaryOperator → DataValue D → DataValue D → Outcome TypeError (DataValue D)
  unfolding integer_op bigint_op u_integer_op u_bigint_op double_op boolean_op float_op compare_op
  typed_op LogicalType.integer op = on_both unpack_i32 LogicalType.integer (integer_op op)
  typed_op LogicalType.bigint op = on_both unpack_i64 LogicalType.bigint (bigint_op op)
  typed_op LogicalType.u_integer op = on_both unpack_u32 LogicalType.u_integer (u_integer_op op)
  typed_op LogicalType.u_bigint op = on_both unpack_u64 LogicalType.u_bigint (u_bigint_op op)
  typed_op LogicalType.double op = on_both unpack_f64 LogicalType.double (double_op op)
  typed_op LogicalType.boolean op = on_both unpack_bool LogicalType.boolean (boolean_op op)
  typed_op LogicalType.float op = on_both unpack_f32 LogicalType.float (float_op op)
  typed_op LogicalType.sql_null op = λ left right. ok (boolean none)
  typed_op LogicalType.date_time op =
      on_both unpack_date LogicalType.date_time (compare_op (λ a b. some (compare_ℤ a b)) op)
  typed_op (LogicalType.varchar none) op =
      on_both unpack_utf8 (LogicalType.varchar none)
        (compare_op (λ a b. some (compare_bytes a b)) op)
  typed_op _ op = λ left right. panic

  abbrev pub matched : (Bool → Bool) → Option Bytes → Option Bytes → Outcome TypeError (DataValue D)
  matched f (some value) (some pattern) = elim (m.is_match (regex_pattern pattern) value) [
    | none ↦ panic
    | some is_match ↦ ok (boolean (some (f is_match)))
  ]
  matched f _ _ = panic

  abbrev pub unified_op :
      BinaryOperator → DataValue D → DataValue D → Outcome TypeError (DataValue D)
  unified_op op left right =
      max_logical_type (logical_type left) (logical_type right) >>= λ ty. typed_op ty op left right

  unfoldable pub binary_op :
      DataValue D → DataValue D → BinaryOperator → Outcome TypeError (DataValue D)
  binary_op left right like =
      on_both unpack_utf8 (LogicalType.varchar none) (matched (λ b. b)) left right
  binary_op left right not_like =
      on_both unpack_utf8 (LogicalType.varchar none) (matched not) left right
  binary_op left right op = unified_op op left right
