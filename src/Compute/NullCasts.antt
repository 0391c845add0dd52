-- ===== src/Compute/NullCasts.antt =====
-- Nulls in the casts, the unpacked operands and the comparisons of
-- src/expression/value_compute.rs.
use kip_sql.Prelude.{◌≡◌, refl, ◌⊎◌, Bool, true, false, Option, none, some, arith, Ordering}
use kip_sql.Prelude.Outcome.{Outcome, ok, err, panic}
use kip_sql.Types.{LogicalType, TypeError}
use kip_sql.Value.{
  DataValue, null, boolean, float32, float64, int8, int16, int32, int64, u_int8, u_int16, u_int32,
  u_int64, utf8, date32, date64, decimal, is_null,
}
use kip_sql.Value.Cast.{
  Conversions, cast, varchar_cast, cast_null, cast_boolean, cast_float32, cast_float64, cast_int8,
  cast_int16, cast_int32, cast_int64, cast_u_int8, cast_u_int16, cast_u_int32, cast_u_int64,
  cast_utf8, cast_date32, cast_date64, cast_decimal,
}
use kip_sql.Compute.{
  unpack_i32, unpack_i64, unpack_u32, unpack_u64, unpack_f64, unpack_f32, unpack_bool, unpack_date,
  unpack_utf8,
}
use kip_sql.Compute.Binary.{BinaryOperator, eq, like, not_like, gt, compare_op}

-- The operators that answer null for a null operand.
abbrev pub is_strict : BinaryOperator → Bool
is_strict eq = false
is_strict like = false
is_strict not_like = false
is_strict _ = true

module _ {D : Type 0} where
  -- A null, or no result.
  abbrev pub NullOut : Outcome TypeError (DataValue D) → Type 0
  NullOut (ok w) = is_null w ≡ true
  NullOut (err e) = Unit
  NullOut panic = Unit

pub compare_op-null :
    (D : Type 0) {A : Type 0} (order : A → A → Option Ordering) (op : BinaryOperator)
    (l r : Option A)
    → is_strict op ≡ true
    → (l ≡ none) ⊎ (r ≡ none)
    → NullOut (compare_op {D = D} order op l r)
unfolding compare_op is_null
compare_op-null D order gt none none h i = refl
compare_op-null D order _ l r h i = ground arith

module _ {D : Type 0} where
  pub cast-NullOut :
      (y : Conversions D) (v : DataValue D) (to : LogicalType)
      → is_null v ≡ true
      → NullOut (cast y v to)
  unfolding cast varchar_cast is_null cast_null cast_boolean cast_float32 cast_float64 cast_int8
      cast_int16 cast_int32 cast_int64 cast_u_int8 cast_u_int16 cast_u_int32 cast_u_int64 cast_utf8
      cast_date32 cast_date64 cast_decimal
  cast-NullOut y null LogicalType.invalid h = tt
  cast-NullOut y null _ h = ground arith
  cast-NullOut y (boolean none) LogicalType.invalid h = tt
  cast-NullOut y (boolean none) _ h = ground arith
  cast-NullOut y (boolean (some a)) to h = cc
  cast-NullOut y (float32 none) LogicalType.invalid h = tt
  cast-NullOut y (float32 none) _ h = ground arith
  cast-NullOut y (float32 (some a)) to h = cc
  cast-NullOut y (float64 none) LogicalType.invalid h = tt
  cast-NullOut y (float64 none) _ h = ground arith
  cast-NullOut y (float64 (some a)) to h = cc
  cast-NullOut y (int8 none) LogicalType.invalid h = tt
  cast-NullOut y (int8 none) _ h = ground arith
  cast-NullOut y (int8 (some a)) to h = cc
  cast-NullOut y (int16 none) LogicalType.invalid h = tt
  cast-NullOut y (int16 none) _ h = ground arith
  cast-NullOut y (int16 (some a)) to h = cc
  cast-NullOut y (int32 none) LogicalType.invalid h = tt
  cast-NullOut y (int32 none) _ h = ground arith
  cast-NullOut y (int32 (some a)) to h = cc
  cast-NullOut y (int64 none) LogicalType.invalid h = tt
  cast-NullOut y (int64 none) _ h = ground arith
  cast-NullOut y (int64 (some a)) to h = cc
  cast-NullOut y (u_int8 none) LogicalType.invalid h = tt
  cast-NullOut y (u_int8 none) _ h = ground arith
  cast-NullOut y (u_int8 (some a)) to h = cc
  cast-NullOut y (u_int16 none) LogicalType.invalid h = tt
  cast-NullOut y (u_int16 none) _ h = ground arith
  cast-NullOut y (u_int16 (some a)) to h = cc
  cast-NullOut y (u_int32 none) LogicalType.invalid h = tt
  cast-NullOut y (u_int32 none) _ h = ground arith
  cast-NullOut y (u_int32 (some a)) to h = cc
  cast-NullOut y (u_int64 none) LogicalType.invalid h = tt
  cast-NullOut y (u_int64 none) _ h = ground arith
  cast-NullOut y (u_int64 (some a)) to h = cc
  cast-NullOut y (utf8 none) LogicalType.invalid h = tt
  cast-NullOut y (utf8 none) _ h = ground arith
  cast-NullOut y (utf8 (some a)) to h = cc
  cast-NullOut y (date32 none) LogicalType.invalid h = tt
  cast-NullOut y (date32 none) _ h = ground arith
  cast-NullOut y (date32 (some a)) to h = cc
  cast-NullOut y (date64 none) LogicalType.invalid h = tt
  cast-NullOut y (date64 none) _ h = ground arith
  cast-NullOut y (date64 (some a)) to h = cc
  cast-NullOut y (decimal none) LogicalType.invalid h = tt
  cast-NullOut y (decimal none) _ h = ground arith
  cast-NullOut y (decimal (some a)) to h = cc

  pub unpack_i32-null : (v : DataValue D) → is_null v ≡ true → unpack_i32 v ≡ none
  unfolding unpack_i32 is_null
  unpack_i32-null (int32 none) h = refl
  unpack_i32-null _ h = ground arith

  pub unpack_i64-null : (v : DataValue D) → is_null v ≡ true → unpack_i64 v ≡ none
  unfolding unpack_i64 is_null
  unpack_i64-null (int64 none) h = refl
  unpack_i64-null _ h = ground arith

  pub unpack_u32-null : (v : DataValue D) → is_null v ≡ true → unpack_u32 v ≡ none
  unfolding unpack_u32 is_null
  unpack_u32-null (u_int32 none) h = refl
  unpack_u32-null _ h = ground arith

  pub unpack_u64-null : (v : DataValue D) → is_null v ≡ true → unpack_u64 v ≡ none
  unfolding unpack_u64 is_null
  unpack_u64-null (u_int64 none) h = refl
  unpack_u64-null _ h = ground arith

  pub unpack_f64-null : (v : DataValue D) → is_null v ≡ true → unpack_f64 v ≡ none
  unfolding unpack_f64 is_null
  unpack_f64-null (float64 none) h = refl
  unpack_f64-null _ h = ground arith

  pub unpack_f32-null : (v : DataValue D) → is_null v ≡ true → unpack_f32 v ≡ none
  unfolding unpack_f32 is_null
  unpack_f32-null (float32 none) h = refl
  unpack_f32-null _ h = ground arith

  pub unpack_bool-null : (v : DataValue D) → is_null v ≡ true → unpack_bool v ≡ none
  unfolding unpack_bool is_null
  unpack_bool-null (boolean none) h = refl
  unpack_bool-null _ h = ground arith

  pub unpack_date-null : (v : DataValue D) → is_null v ≡ true → unpack_date v ≡ none
  unfolding unpack_date is_null
  unpack_date-null (date64 none) h = refl
  unpack_date-null _ h = ground arith

  pub unpack_utf8-null : (v : DataValue D) → is_null v ≡ true → unpack_utf8 v ≡ none
  unfolding unpack_utf8 is_null
  unpack_utf8-null (utf8 none) h = refl
  unpack_utf8-null _ h = ground arith
