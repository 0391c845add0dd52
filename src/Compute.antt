-- ===== src/Compute.antt =====
-- src/expression/value_compute.rs: unary and binary operators on values. Integer arithmetic wraps
-- around, as it does in a release build; the arithmetic of floats and the match of a regular
-- expression are parameters.
pub mod Binary
pub mod NullCasts
pub mod Nulls
pub mod Comparisons
pub mod Plain
mod Tests
use kip_sql.Prelude.{
  ℕ, ◌+◌, ◌-◌, ◌*◌, ◌%◌, ◌^◌, Bool, true, false, not, ◌&&◌, ◌||◌, Option, none, some, List, [], ◌∷◌,
  Ordering, compare, is_lt, is_gt, is_eq, ◌==◌, if◌then◌else◌,
}
use kip_sql.Prelude.Int.{ℤ, pos, negsuc, pos_part, neg_part, sub_ℕ, to_bits, of_bits}
use kip_sql.Prelude.Bytes.{Bytes}
use kip_sql.Prelude.Outcome.{Outcome, ok, err, panic, ◌>>=◌}
use kip_sql.Types.{LogicalType, TypeError, invalid_type, is_numeric, is_unsigned_numeric}
use kip_sql.Value.{
  DataValue, boolean, float32, float64, int8, int16, int32, int64, u_int8, u_int16, u_int32,
  u_int64, utf8, date32, date64, decimal, logical_type,
}
use kip_sql.Value.Cast.{Conversions, cast, map_option}

pub data UnaryOperator : Type 0 where
  positive negative negation : UnaryOperator

-- The arithmetic of floats on their bit patterns, and `Regex::new` and `is_match`: no answer for a
-- pattern that is no regular expression.
pub record Machine (D : Type 0) : Type 0 where
  pub conversions : Conversions D
  pub neg_f32 : ℕ → ℕ
  pub neg_f64 : ℕ → ℕ
  pub add_f32 : ℕ → ℕ → ℕ
  pub sub_f32 : ℕ → ℕ → ℕ
  pub mul_f32 : ℕ → ℕ → ℕ
  pub add_f64 : ℕ → ℕ → ℕ
  pub sub_f64 : ℕ → ℕ → ℕ
  pub mul_f64 : ℕ → ℕ → ℕ
  pub div_f64 : ℕ → ℕ → ℕ
  pub compare_f32 : ℕ → ℕ → Option Ordering
  pub compare_f64 : ℕ → ℕ → Option Ordering
  pub is_match : Bytes → Bytes → Option Bool

-- An integer brought into the range of w + 1 bits, `half` being 2 ^ w.
abbrev pub wrapped : ℕ → ℤ → ℤ
wrapped half v = of_bits half (to_bits half v)

abbrev pub negated : ℕ → ℤ → ℤ
negated half v = wrapped half (sub_ℕ (neg_part v) (pos_part v))

module _ {D : Type 0} where
  unfoldable pub unpack_i32 : DataValue D → Option ℤ
  unpack_i32 (int32 inner) = inner
  unpack_i32 _ = none

  unfoldable pub unpack_i64 : DataValue D → Option ℤ
  unpack_i64 (int64 inner) = inner
  unpack_i64 _ = none

  unfoldable pub unpack_u32 : DataValue D → Option ℕ
  unpack_u32 (u_int32 inner) = inner
  unpack_u32 _ = none

  unfoldable pub unpack_u64 : DataValue D → Option ℕ
  unpack_u64 (u_int64 inner) = inner
  unpack_u64 _ = none

  unfoldable pub unpack_f64 : DataValue D → Option ℕ
  unpack_f64 (float64 inner) = inner
  unpack_f64 _ = none

  unfoldable pub unpack_f32 : DataValue D → Option ℕ
  unpack_f32 (float32 inner) = inner
  unpack_f32 _ = none

  unfoldable pub unpack_bool : DataValue D → Option Bool
  unpack_bool (boolean inner) = inner
  unpack_bool _ = none

  unfoldable pub unpack_date : DataValue D → Option ℤ
  unpack_date (date64 inner) = inner
  unpack_date _ = none

  unfoldable pub unpack_utf8 : DataValue D → Option Bytes
  unpack_utf8 (utf8 inner) = inner
  unpack_utf8 _ = none

  module _ (m : Machine D) where
    -- The signed type that an unsigned value is cast to.
    abbrev pub signed_type : LogicalType → Outcome TypeError LogicalType
    signed_type LogicalType.u_tinyint = ok LogicalType.tinyint
    signed_type LogicalType.u_smallint = ok LogicalType.smallint
    signed_type LogicalType.u_integer = ok LogicalType.integer
    signed_type LogicalType.u_bigint = ok LogicalType.bigint
    signed_type _ = panic

    abbrev pub signed_value : DataValue D → Outcome TypeError (DataValue D)
    signed_value value =
        if is_unsigned_numeric (logical_type value)
        then (signed_type (logical_type value) >>= λ ty. cast m.conversions value ty)
        else ok value

    abbrev pub minus_value : DataValue D → Outcome TypeError (DataValue D)
    minus_value (float32 v) = ok (float32 (map_option m.neg_f32 v))
    minus_value (float64 v) = ok (float64 (map_option m.neg_f64 v))
    minus_value (int8 v) = ok (int8 (map_option (negated (2 ^ 7)) v))
    minus_value (int16 v) = ok (int16 (map_option (negated (2 ^ 15)) v))
    minus_value (int32 v) = ok (int32 (map_option (negated (2 ^ 31)) v))
    minus_value (int64 v) = ok (int64 (map_option (negated (2 ^ 63)) v))
    minus_value _ = panic

    abbrev pub not_value : DataValue D → Outcome TypeError (DataValue D)
    not_value (boolean v) = ok (boolean (map_option not v))
    not_value _ = err invalid_type

    unfoldable pub unary_op : DataValue D → UnaryOperator → Outcome TypeError (DataValue D)
    unary_op value positive =
        if is_numeric (logical_type value) then signed_value value else err invalid_type
    unary_op value negative =
        if is_numeric (logical_type value)
        then (signed_value value >>= λ v. minus_value v)
        else err invalid_type
    unary_op value negation = not_value value
