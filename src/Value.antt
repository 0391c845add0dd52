-- ===== src/Value.antt =====
-- src/types/value.rs: `DataValue`, its null values, its types, its equality and its order.
-- An integer is a ℤ in the range of its variant; a float is its bit pattern; a text is its UTF-8
-- bytes; the type of decimals is a parameter.
pub mod Key
pub mod Raw
pub mod Text
pub mod Cast
pub mod Plain
mod Tests
use kip_sql.Prelude.{
  ℕ, ◌^◌, ◌<◌, ◌≡◌, Bool, true, false, Option, none, some, [], Ordering, compare, ◌==◌, is_eq,
}
use kip_sql.Prelude.Int.{ℤ, pos, compare_ℤ, IsSigned}
use kip_sql.Prelude.Bytes.{Bytes, compare_bytes}
use kip_sql.Prelude.Outcome.{Outcome, ok, panic}
use kip_sql.Types.{LogicalType, TypeError}

pub data DataValue (D : Type 0) : Type 0 where
  null : DataValue D
  boolean : Option Bool → DataValue D
  float32 float64 : Option ℕ → DataValue D
  int8 int16 int32 int64 : Option ℤ → DataValue D
  u_int8 u_int16 u_int32 u_int64 : Option ℕ → DataValue D
  utf8 : Option Bytes → DataValue D
  date32 date64 : Option ℤ → DataValue D
  decimal : Option D → DataValue D

-- What the module uses of the crates ordered_float, rust_decimal, integer-encoding and chrono.
-- `encode_fixed` and `decode_fixed` work on the pattern of an integer of the given number of bytes.
pub record External (D : Type 0) : Type 0 where
  pub cmp_f32 : ℕ → ℕ → Ordering
  pub cmp_f64 : ℕ → ℕ → Ordering
  pub cmp_decimal : D → D → Ordering
  pub serialize : D → Bytes
  pub deserialize : Bytes → D
  pub decimal_zero : D
  pub encode_fixed : ℕ → ℕ → Bytes
  pub decode_fixed : ℕ → Bytes → ℕ
  pub epoch_days : ℤ
  pub epoch_timestamp : ℤ

-- Rust's `Ord` of options and of booleans.
abbrev pub compare_option {ℓ} : {A : Type ℓ} → (A → A → Ordering) → Option A → Option A → Ordering
compare_option f none none = Ordering.eq
compare_option f none (some _) = Ordering.lt
compare_option f (some _) none = Ordering.gt
compare_option f (some a) (some b) = f a b

abbrev pub compare_bool : Bool → Bool → Ordering
compare_bool false true = Ordering.lt
compare_bool true false = Ordering.gt
compare_bool _ _ = Ordering.eq

abbrev pub is_none {ℓ} : {A : Type ℓ} → Option A → Bool
is_none none = true
is_none (some _) = false

module _ {D : Type 0} where
  unfoldable pub is_variable : DataValue D → Bool
  is_variable (utf8 _) = true
  is_variable _ = false

  unfoldable pub is_null : DataValue D → Bool
  is_null null = true
  is_null (boolean v) = is_none v
  is_null (float32 v) = is_none v
  is_null (float64 v) = is_none v
  is_null (int8 v) = is_none v
  is_null (int16 v) = is_none v
  is_null (int32 v) = is_none v
  is_null (int64 v) = is_none v
  is_null (u_int8 v) = is_none v
  is_null (u_int16 v) = is_none v
  is_null (u_int32 v) = is_none v
  is_null (u_int64 v) = is_none v
  is_null (utf8 v) = is_none v
  is_null (date32 v) = is_none v
  is_null (date64 v) = is_none v
  is_null (decimal v) = is_none v

  unfoldable pub logical_type : DataValue D → LogicalType
  logical_type null = LogicalType.sql_null
  logical_type (boolean _) = LogicalType.boolean
  logical_type (float32 _) = LogicalType.float
  logical_type (float64 _) = LogicalType.double
  logical_type (int8 _) = LogicalType.tinyint
  logical_type (int16 _) = LogicalType.smallint
  logical_type (int32 _) = LogicalType.integer
  logical_type (int64 _) = LogicalType.bigint
  logical_type (u_int8 _) = LogicalType.u_tinyint
  logical_type (u_int16 _) = LogicalType.u_smallint
  logical_type (u_int32 _) = LogicalType.u_integer
  logical_type (u_int64 _) = LogicalType.u_bigint
  logical_type (utf8 _) = LogicalType.varchar none
  logical_type (date32 _) = LogicalType.date
  logical_type (date64 _) = LogicalType.date_time
  logical_type (decimal _) = LogicalType.decimal none none

  -- `DataValue::none`. The name `none` is the option's.
  unfoldable pub none_of : LogicalType → Outcome TypeError (DataValue D)
  none_of LogicalType.invalid = panic
  none_of LogicalType.sql_null = ok null
  none_of LogicalType.boolean = ok (boolean none)
  none_of LogicalType.tinyint = ok (int8 none)
  none_of LogicalType.u_tinyint = ok (u_int8 none)
  none_of LogicalType.smallint = ok (int16 none)
  none_of LogicalType.u_smallint = ok (u_int16 none)
  none_of LogicalType.integer = ok (int32 none)
  none_of LogicalType.u_integer = ok (u_int32 none)
  none_of LogicalType.bigint = ok (int64 none)
  none_of LogicalType.u_bigint = ok (u_int64 none)
  none_of LogicalType.float = ok (float32 none)
  none_of LogicalType.double = ok (float64 none)
  none_of (LogicalType.varchar _) = ok (utf8 none)
  none_of LogicalType.date = ok (date32 none)
  none_of LogicalType.date_time = ok (date64 none)
  none_of (LogicalType.decimal _ _) = ok (decimal none)

  unfoldable pub init : External D → LogicalType → Outcome TypeError (DataValue D)
  init x LogicalType.invalid = panic
  init x LogicalType.sql_null = ok null
  init x LogicalType.boolean = ok (boolean (some false))
  init x LogicalType.tinyint = ok (int8 (some (pos 0)))
  init x LogicalType.u_tinyint = ok (u_int8 (some 0))
  init x LogicalType.smallint = ok (int16 (some (pos 0)))
  init x LogicalType.u_smallint = ok (u_int16 (some 0))
  init x LogicalType.integer = ok (int32 (some (pos 0)))
  init x LogicalType.u_integer = ok (u_int32 (some 0))
  init x LogicalType.bigint = ok (int64 (some (pos 0)))
  init x LogicalType.u_bigint = ok (u_int64 (some 0))
  init x LogicalType.float = ok (float32 (some 0))
  init x LogicalType.double = ok (float64 (some 0))
  init x (LogicalType.varchar _) = ok (utf8 (some []))
  init x LogicalType.date = ok (date32 (some x.epoch_days))
  init x LogicalType.date_time = ok (date64 (some x.epoch_timestamp))
  init x (LogicalType.decimal _ _) = ok (decimal (some x.decimal_zero))

  -- `PartialOrd`: values of different variants are not comparable.
  unfoldable pub partial_cmp : External D → DataValue D → DataValue D → Option Ordering
  partial_cmp x (boolean a) (boolean b) = some (compare_option compare_bool a b)
  partial_cmp x (float32 a) (float32 b) = some (compare_option x.cmp_f32 a b)
  partial_cmp x (float64 a) (float64 b) = some (compare_option x.cmp_f64 a b)
  partial_cmp x (int8 a) (int8 b) = some (compare_option compare_ℤ a b)
  partial_cmp x (int16 a) (int16 b) = some (compare_option compare_ℤ a b)
  partial_cmp x (int32 a) (int32 b) = some (compare_option compare_ℤ a b)
  partial_cmp x (int64 a) (int64 b) = some (compare_option compare_ℤ a b)
  partial_cmp x (u_int8 a) (u_int8 b) = some (compare_option compare a b)
  partial_cmp x (u_int16 a) (u_int16 b) = some (compare_option compare a b)
  partial_cmp x (u_int32 a) (u_int32 b) = some (compare_option compare a b)
  partial_cmp x (u_int64 a) (u_int64 b) = some (compare_option compare a b)
  partial_cmp x (utf8 a) (utf8 b) = some (compare_option compare_bytes a b)
  partial_cmp x null null = some Ordering.eq
  partial_cmp x (date32 a) (date32 b) = some (compare_option compare_ℤ a b)
  partial_cmp x (date64 a) (date64 b) = some (compare_option compare_ℤ a b)
  partial_cmp x (decimal a) (decimal b) = some (compare_option x.cmp_decimal a b)
  partial_cmp x _ _ = none

  -- `PartialEq`: the equality of each payload is the equality under its order.
  unfoldable pub value_eq : External D → DataValue D → DataValue D → Bool
  value_eq x (boolean a) (boolean b) = is_eq (compare_option compare_bool a b)
  value_eq x (float32 a) (float32 b) = is_eq (compare_option x.cmp_f32 a b)
  value_eq x (float64 a) (float64 b) = is_eq (compare_option x.cmp_f64 a b)
  value_eq x (int8 a) (int8 b) = is_eq (compare_option compare_ℤ a b)
  value_eq x (int16 a) (int16 b) = is_eq (compare_option compare_ℤ a b)
  value_eq x (int32 a) (int32 b) = is_eq (compare_option compare_ℤ a b)
  value_eq x (int64 a) (int64 b) = is_eq (compare_option compare_ℤ a b)
  value_eq x (u_int8 a) (u_int8 b) = is_eq (compare_option compare a b)
  value_eq x (u_int16 a) (u_int16 b) = is_eq (compare_option compare a b)
  value_eq x (u_int32 a) (u_int32 b) = is_eq (compare_option compare a b)
  value_eq x (u_int64 a) (u_int64 b) = is_eq (compare_option compare a b)
  value_eq x (utf8 a) (utf8 b) = is_eq (compare_option compare_bytes a b)
  value_eq x null null = true
  value_eq x (date32 a) (date32 b) = is_eq (compare_option compare_ℤ a b)
  value_eq x (date64 a) (date64 b) = is_eq (compare_option compare_ℤ a b)
  value_eq x (decimal a) (decimal b) = is_eq (compare_option x.cmp_decimal a b)
  value_eq x _ _ = false

  -- A value within the range of its variant.
  abbrev pub InRange : DataValue D → Type 0
  InRange (float32 (some f)) = f < 2 ^ 32
  InRange (float64 (some f)) = f < 2 ^ 64
  InRange (int8 (some v)) = IsSigned (2 ^ 7) v
  InRange (int16 (some v)) = IsSigned (2 ^ 15) v
  InRange (int32 (some v)) = IsSigned (2 ^ 31) v
  InRange (int64 (some v)) = IsSigned (2 ^ 63) v
  InRange (u_int8 (some v)) = v < 2 ^ 8
  InRange (u_int16 (some v)) = v < 2 ^ 16
  InRange (u_int32 (some v)) = v < 2 ^ 32
  InRange (u_int64 (some v)) = v < 2 ^ 64
  InRange (date32 (some v)) = IsSigned (2 ^ 31) v
  InRange (date64 (some v)) = IsSigned (2 ^ 63) v
  InRange _ = Unit
