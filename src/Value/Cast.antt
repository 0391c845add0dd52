-- ===== src/Value/Cast.antt =====
-- src/types/value.rs: casts between values, and the length of a value for its column. Floats are
-- bit patterns, and the arithmetic of floats, decimals and dates is a parameter.
pub mod Laws
pub mod Integers
use kip_sql.Prelude.{
  ℕ, ◌^◌, ◌<◌, Bool, true, false, ◌&&◌, Option, none, some, [], ltb, length, if◌then◌else◌,
}
use kip_sql.Prelude.Int.{ℤ, pos, negsuc}
use kip_sql.Prelude.Bytes.{Bytes}
use kip_sql.Prelude.Outcome.{Outcome, ok, err, panic, map_transpose, ok_or}
use kip_sql.Types.{
  LogicalType, TypeError, cast_fail, too_long, try_from_int, parse_int, parse_bool, parse_float,
  parse_date, try_from_decimal,
}
use kip_sql.Value.{
  DataValue, null, boolean, float32, float64, int8, int16, int32, int64, u_int8, u_int16, u_int32,
  u_int64, utf8, date32, date64, decimal,
}
use kip_sql.Value.Text.{show_ℕ, show_ℤ, show_bool, parse_bool_text, parse_unsigned, parse_signed}

-- Conversions of floats, of rust_decimal and of chrono. A date is its days from the common era, a
-- time its timestamp; `parse_midnight` reads a date and gives the timestamp of its midnight.
pub record Conversions (D : Type 0) : Type 0 where
  pub f32_of_int : ℤ → ℕ
  pub f64_of_int : ℤ → ℕ
  pub f64_of_f32 : ℕ → ℕ
  pub show_f32 : ℕ → Bytes
  pub show_f64 : ℕ → Bytes
  pub parse_f32 : Bytes → Option ℕ
  pub parse_f64 : Bytes → Option ℕ
  pub show_decimal : D → Bytes
  pub parse_decimal : Bytes → Option D
  pub decimal_of_int : ℤ → D
  pub decimal_of_f32 : ℕ → Option D
  pub decimal_of_f64 : ℕ → Option D
  pub trunc_with_scale : D → ℕ → D
  pub round_dp : D → ℕ → D
  pub mantissa : D → ℤ
  pub scale : D → ℕ
  pub show_date : ℤ → Option Bytes
  pub show_date_time : ℤ → Option Bytes
  pub parse_days : Bytes → Option ℤ
  pub parse_timestamp : Bytes → Option ℤ
  pub parse_midnight : Bytes → Option ℤ
  pub midnight : ℤ → Option ℤ
  pub date_of : ℤ → Option ℤ

abbrev pub map_option : {A B : Type 0} → (A → B) → Option A → Option B
map_option f none = none
map_option f (some a) = some (f a)

abbrev pub and_then : {A B : Type 0} → (A → Option B) → Option A → Option B
and_then f none = none
and_then f (some a) = f a

-- `Result::map` of a constructor.
abbrev pub wrap : {A B : Type 0} → (A → B) → Outcome TypeError A → Outcome TypeError B
wrap c (ok a) = ok (c a)
wrap c (err e) = err e
wrap c panic = panic

abbrev pub bit : Bool → ℕ
bit true = 1
bit false = 0

-- `try_from` into the unsigned integers below the limit, and into the signed ones.
abbrev pub to_unsigned : ℕ → ℤ → Outcome TypeError ℕ
to_unsigned limit (pos n) = if ltb n limit then ok n else err try_from_int
to_unsigned limit (negsuc n) = err try_from_int

-- `from_str`, with the error of the reading.
abbrev pub read : {A : Type 0} → (Bytes → Option A) → TypeError → Bytes → Outcome TypeError A
read parse error text = ok_or (parse text) error

abbrev pub or_else : {A : Type 0} → Option A → Option A → Option A
or_else none second = second
or_else (some a) second = some a

module _ {D : Type 0} (y : Conversions D) where
  abbrev pub within : Option ℕ → Bytes → Outcome TypeError (DataValue D)
  within none text = ok (utf8 (some text))
  within (some len) text = if ltb len (length text) then err too_long else ok (utf8 (some text))

  unfoldable pub varchar_cast :
      {A : Type 0} → (A → Bytes) → Option A → Option ℕ → Outcome TypeError (DataValue D)
  varchar_cast show none len = ok (utf8 none)
  varchar_cast show (some a) len = within len (show a)

  unfoldable pub decimal_round_i : Option ℕ → D → D
  decimal_round_i none d = d
  decimal_round_i (some scale) d = y.trunc_with_scale d scale

  unfoldable pub decimal_round_f : Option ℕ → D → D
  decimal_round_f none d = d
  decimal_round_f (some scale) d = y.round_dp d scale

  abbrev pub decimal_of_float : (ℕ → Option D) → Option ℕ → ℕ → Outcome TypeError D
  unfolding decimal_round_f
  decimal_of_float convert scale f = elim (convert f) [
    | none ↦ err cast_fail
    | some d ↦ ok (decimal_round_f scale d)
  ]

  unfoldable pub cast_null : LogicalType → Outcome TypeError (DataValue D)
  cast_null LogicalType.invalid = err cast_fail
  cast_null LogicalType.sql_null = ok null
  cast_null LogicalType.boolean = ok (boolean none)
  cast_null LogicalType.tinyint = ok (int8 none)
  cast_null LogicalType.u_tinyint = ok (u_int8 none)
  cast_null LogicalType.smallint = ok (int16 none)
  cast_null LogicalType.u_smallint = ok (u_int16 none)
  cast_null LogicalType.integer = ok (int32 none)
  cast_null LogicalType.u_integer = ok (u_int32 none)
  cast_null LogicalType.bigint = ok (int64 none)
  cast_null LogicalType.u_bigint = ok (u_int64 none)
  cast_null LogicalType.float = ok (float32 none)
  cast_null LogicalType.double = ok (float64 none)
  cast_null (LogicalType.varchar _) = ok (utf8 none)
  cast_null LogicalType.date = ok (date32 none)
  cast_null LogicalType.date_time = ok (date64 none)
  cast_null (LogicalType.decimal _ _) = ok (decimal none)

  unfoldable pub cast_boolean : Option Bool → LogicalType → Outcome TypeError (DataValue D)
  unfolding varchar_cast
  cast_boolean value LogicalType.sql_null = ok null
  cast_boolean value LogicalType.boolean = ok (boolean value)
  cast_boolean value LogicalType.tinyint = ok (int8 (map_option (λ b. pos (bit b)) value))
  cast_boolean value LogicalType.smallint = ok (int16 (map_option (λ b. pos (bit b)) value))
  cast_boolean value LogicalType.integer = ok (int32 (map_option (λ b. pos (bit b)) value))
  cast_boolean value LogicalType.bigint = ok (int64 (map_option (λ b. pos (bit b)) value))
  cast_boolean value LogicalType.u_tinyint = ok (u_int8 (map_option bit value))
  cast_boolean value LogicalType.u_smallint = ok (u_int16 (map_option bit value))
  cast_boolean value LogicalType.u_integer = ok (u_int32 (map_option bit value))
  cast_boolean value LogicalType.u_bigint = ok (u_int64 (map_option bit value))
  cast_boolean value LogicalType.float =
      ok (float32 (map_option (λ b. y.f32_of_int (pos (bit b))) value))
  cast_boolean value LogicalType.double =
      ok (float64 (map_option (λ b. y.f64_of_int (pos (bit b))) value))
  cast_boolean value (LogicalType.varchar len) = varchar_cast show_bool value len
  cast_boolean value _ = err cast_fail

  unfoldable pub cast_float32 : Option ℕ → LogicalType → Outcome TypeError (DataValue D)
  unfolding varchar_cast
  cast_float32 value LogicalType.sql_null = ok null
  cast_float32 value LogicalType.float = ok (float32 value)
  cast_float32 value LogicalType.double = ok (float64 (map_option y.f64_of_f32 value))
  cast_float32 value (LogicalType.varchar len) = varchar_cast y.show_f32 value len
  cast_float32 value (LogicalType.decimal _ scale) =
      wrap decimal (map_transpose (decimal_of_float y.decimal_of_f32 scale) value)
  cast_float32 value _ = err cast_fail

  unfoldable pub cast_float64 : Option ℕ → LogicalType → Outcome TypeError (DataValue D)
  unfolding varchar_cast
  cast_float64 value LogicalType.sql_null = ok null
  cast_float64 value LogicalType.double = ok (float64 value)
  cast_float64 value (LogicalType.varchar len) = varchar_cast y.show_f64 value len
  cast_float64 value (LogicalType.decimal _ scale) =
      wrap decimal (map_transpose (decimal_of_float y.decimal_of_f64 scale) value)
  cast_float64 value _ = err cast_fail

  unfoldable pub cast_int8 : Option ℤ → LogicalType → Outcome TypeError (DataValue D)
  unfolding varchar_cast decimal_round_i
  cast_int8 value LogicalType.sql_null = ok null
  cast_int8 value LogicalType.tinyint = ok (int8 value)
  cast_int8 value LogicalType.u_tinyint = wrap u_int8 (map_transpose (to_unsigned (2 ^ 8)) value)
  cast_int8 value LogicalType.u_smallint = wrap u_int16 (map_transpose (to_unsigned (2 ^ 16)) value)
  cast_int8 value LogicalType.u_integer = wrap u_int32 (map_transpose (to_unsigned (2 ^ 32)) value)
  cast_int8 value LogicalType.u_bigint = wrap u_int64 (map_transpose (to_unsigned (2 ^ 64)) value)
  cast_int8 value LogicalType.smallint = ok (int16 value)
  cast_int8 value LogicalType.integer = ok (int32 value)
  cast_int8 value LogicalType.bigint = ok (int64 value)
  cast_int8 value LogicalType.float = ok (float32 (map_option y.f32_of_int value))
  cast_int8 value LogicalType.double = ok (float64 (map_option y.f64_of_int value))
  cast_int8 value (LogicalType.varchar len) = varchar_cast show_ℤ value len
  cast_int8 value (LogicalType.decimal _ scale) =
      ok (decimal (map_option (λ v. decimal_round_i scale (y.decimal_of_int v)) value))
  cast_int8 value _ = err cast_fail

  unfoldable pub cast_int16 : Option ℤ → LogicalType → Outcome TypeError (DataValue D)
  unfolding varchar_cast decimal_round_i
  cast_int16 value LogicalType.sql_null = ok null
  cast_int16 value LogicalType.u_tinyint = wrap u_int8 (map_transpose (to_unsigned (2 ^ 8)) value)
  cast_int16 value LogicalType.u_smallint =
      wrap u_int16 (map_transpose (to_unsigned (2 ^ 16)) value)
  cast_int16 value LogicalType.u_integer = wrap u_int32 (map_transpose (to_unsigned (2 ^ 32)) value)
  cast_int16 value LogicalType.u_bigint = wrap u_int64 (map_transpose (to_unsigned (2 ^ 64)) value)
  cast_int16 value LogicalType.smallint = ok (int16 value)
  cast_int16 value LogicalType.integer = ok (int32 value)
  cast_int16 value LogicalType.bigint = ok (int64 value)
  cast_int16 value LogicalType.float = ok (float32 (map_option y.f32_of_int value))
  cast_int16 value LogicalType.double = ok (float64 (map_option y.f64_of_int value))
  cast_int16 value (LogicalType.varchar len) = varchar_cast show_ℤ value len
  cast_int16 value (LogicalType.decimal _ scale) =
      ok (decimal (map_option (λ v. decimal_round_i scale (y.decimal_of_int v)) value))
  cast_int16 value _ = err cast_fail

  unfoldable pub cast_int32 : Option ℤ → LogicalType → Outcome TypeError (DataValue D)
  unfolding varchar_cast decimal_round_i
  cast_int32 value LogicalType.sql_null = ok null
  cast_int32 value LogicalType.u_tinyint = wrap u_int8 (map_transpose (to_unsigned (2 ^ 8)) value)
  cast_int32 value LogicalType.u_smallint =
      wrap u_int16 (map_transpose (to_unsigned (2 ^ 16)) value)
  cast_int32 value LogicalType.u_integer = wrap u_int32 (map_transpose (to_unsigned (2 ^ 32)) value)
  cast_int32 value LogicalType.u_bigint = wrap u_int64 (map_transpose (to_unsigned (2 ^ 64)) value)
  cast_int32 value LogicalType.integer = ok (int32 value)
  cast_int32 value LogicalType.bigint = ok (int64 value)
  cast_int32 value LogicalType.double = ok (float64 (map_option y.f64_of_int value))
  cast_int32 value (LogicalType.varchar len) = varchar_cast show_ℤ value len
  cast_int32 value (LogicalType.decimal _ scale) =
      ok (decimal (map_option (λ v. decimal_round_i scale (y.decimal_of_int v)) value))
  cast_int32 value _ = err cast_fail

  unfoldable pub cast_int64 : Option ℤ → LogicalType → Outcome TypeError (DataValue D)
  unfolding varchar_cast decimal_round_i
  cast_int64 value LogicalType.sql_null = ok null
  cast_int64 value LogicalType.u_tinyint = wrap u_int8 (map_transpose (to_unsigned (2 ^ 8)) value)
  cast_int64 value LogicalType.u_smallint =
      wrap u_int16 (map_transpose (to_unsigned (2 ^ 16)) value)
  cast_int64 value LogicalType.u_integer = wrap u_int32 (map_transpose (to_unsigned (2 ^ 32)) value)
  cast_int64 value LogicalType.u_bigint = wrap u_int64 (map_transpose (to_unsigned (2 ^ 64)) value)
  cast_int64 value LogicalType.bigint = ok (int64 value)
  cast_int64 value (LogicalType.varchar len) = varchar_cast show_ℤ value len
  cast_int64 value (LogicalType.decimal _ scale) =
      ok (decimal (map_option (λ v. decimal_round_i scale (y.decimal_of_int v)) value))
  cast_int64 value _ = err cast_fail

  unfoldable pub cast_u_int8 : Option ℕ → LogicalType → Outcome TypeError (DataValue D)
  unfolding varchar_cast decimal_round_i
  cast_u_int8 value LogicalType.sql_null = ok null
  cast_u_int8 value LogicalType.u_tinyint = ok (u_int8 value)
  cast_u_int8 value LogicalType.u_smallint = ok (u_int16 value)
  cast_u_int8 value LogicalType.u_integer = ok (u_int32 value)
  cast_u_int8 value LogicalType.u_bigint = ok (u_int64 value)
  cast_u_int8 value LogicalType.smallint = ok (int16 (map_option pos value))
  cast_u_int8 value LogicalType.integer = ok (int32 (map_option pos value))
  cast_u_int8 value LogicalType.bigint = ok (int64 (map_option pos value))
  cast_u_int8 value LogicalType.float = ok (float32 (map_option (λ v. y.f32_of_int (pos v)) value))
  cast_u_int8 value LogicalType.double = ok (float64 (map_option (λ v. y.f64_of_int (pos v)) value))
  cast_u_int8 value (LogicalType.varchar len) = varchar_cast show_ℕ value len
  cast_u_int8 value (LogicalType.decimal _ scale) =
      ok (decimal (map_option (λ v. decimal_round_i scale (y.decimal_of_int (pos v))) value))
  cast_u_int8 value _ = err cast_fail

  unfoldable pub cast_u_int16 : Option ℕ → LogicalType → Outcome TypeError (DataValue D)
  unfolding varchar_cast decimal_round_i
  cast_u_int16 value LogicalType.sql_null = ok null
  cast_u_int16 value LogicalType.u_smallint = ok (u_int16 value)
  cast_u_int16 value LogicalType.u_integer = ok (u_int32 value)
  cast_u_int16 value LogicalType.u_bigint = ok (u_int64 value)
  cast_u_int16 value LogicalType.integer = ok (int32 (map_option pos value))
  cast_u_int16 value LogicalType.bigint = ok (int64 (map_option pos value))
  cast_u_int16 value LogicalType.float = ok (float32 (map_option (λ v. y.f32_of_int (pos v)) value))
  cast_u_int16 value LogicalType.double =
      ok (float64 (map_option (λ v. y.f64_of_int (pos v)) value))
  cast_u_int16 value (LogicalType.varchar len) = varchar_cast show_ℕ value len
  cast_u_int16 value (LogicalType.decimal _ scale) =
      ok (decimal (map_option (λ v. decimal_round_i scale (y.decimal_of_int (pos v))) value))
  cast_u_int16 value _ = err cast_fail

  unfoldable pub cast_u_int32 : Option ℕ → LogicalType → Outcome TypeError (DataValue D)
  unfolding varchar_cast decimal_round_i
  cast_u_int32 value LogicalType.sql_null = ok null
  cast_u_int32 value LogicalType.u_integer = ok (u_int32 value)
  cast_u_int32 value LogicalType.u_bigint = ok (u_int64 value)
  cast_u_int32 value LogicalType.bigint = ok (int64 (map_option pos value))
  cast_u_int32 value LogicalType.double =
      ok (float64 (map_option (λ v. y.f64_of_int (pos v)) value))
  cast_u_int32 value (LogicalType.varchar len) = varchar_cast show_ℕ value len
  cast_u_int32 value (LogicalType.decimal _ scale) =
      ok (decimal (map_option (λ v. decimal_round_i scale (y.decimal_of_int (pos v))) value))
  cast_u_int32 value _ = err cast_fail

  unfoldable pub cast_u_int64 : Option ℕ → LogicalType → Outcome TypeError (DataValue D)
  unfolding varchar_cast decimal_round_i
  cast_u_int64 value LogicalType.sql_null = ok null
  cast_u_int64 value LogicalType.u_bigint = ok (u_int64 value)
  cast_u_int64 value (LogicalType.varchar len) = varchar_cast show_ℕ value len
  cast_u_int64 value (LogicalType.decimal _ scale) =
      ok (decimal (map_option (λ v. decimal_round_i scale (y.decimal_of_int (pos v))) value))
  cast_u_int64 value _ = err cast_fail

  unfoldable pub cast_utf8 : Option Bytes → LogicalType → Outcome TypeError (DataValue D)
  unfolding varchar_cast
  cast_utf8 value LogicalType.invalid = err cast_fail
  cast_utf8 value LogicalType.sql_null = ok null
  cast_utf8 value LogicalType.boolean =
      wrap boolean (map_transpose (read parse_bool_text parse_bool) value)
  cast_utf8 value LogicalType.tinyint =
      wrap int8 (map_transpose (read (parse_signed (2 ^ 7)) parse_int) value)
  cast_utf8 value LogicalType.u_tinyint =
      wrap u_int8 (map_transpose (read (parse_unsigned (2 ^ 8)) parse_int) value)
  cast_utf8 value LogicalType.smallint =
      wrap int16 (map_transpose (read (parse_signed (2 ^ 15)) parse_int) value)
  cast_utf8 value LogicalType.u_smallint =
      wrap u_int16 (map_transpose (read (parse_unsigned (2 ^ 16)) parse_int) value)
  cast_utf8 value LogicalType.integer =
      wrap int32 (map_transpose (read (parse_signed (2 ^ 31)) parse_int) value)
  cast_utf8 value LogicalType.u_integer =
      wrap u_int32 (map_transpose (read (parse_unsigned (2 ^ 32)) parse_int) value)
  cast_utf8 value LogicalType.bigint =
      wrap int64 (map_transpose (read (parse_signed (2 ^ 63)) parse_int) value)
  cast_utf8 value LogicalType.u_bigint =
      wrap u_int64 (map_transpose (read (parse_unsigned (2 ^ 64)) parse_int) value)
  cast_utf8 value LogicalType.float =
      wrap float32 (map_transpose (read y.parse_f32 parse_float) value)
  cast_utf8 value LogicalType.double =
      wrap float64 (map_transpose (read y.parse_f64 parse_float) value)
  cast_utf8 value (LogicalType.varchar len) = varchar_cast (λ s. s) value len
  cast_utf8 value LogicalType.date =
      wrap date32 (map_transpose (read y.parse_days parse_date) value)
  cast_utf8 value LogicalType.date_time = wrap date64 (
      map_transpose (read (λ s. or_else (y.parse_timestamp s) (y.parse_midnight s)) parse_date)
        value)
  cast_utf8 value (LogicalType.decimal _ _) =
      wrap decimal (map_transpose (read y.parse_decimal try_from_decimal) value)

  unfoldable pub cast_date32 : Option ℤ → LogicalType → Outcome TypeError (DataValue D)
  unfolding varchar_cast
  cast_date32 value LogicalType.sql_null = ok null
  cast_date32 value (LogicalType.varchar len) =
      varchar_cast (λ s. s) (and_then y.show_date value) len
  cast_date32 value LogicalType.date = ok (date32 value)
  cast_date32 value LogicalType.date_time = ok (date64 (and_then y.midnight value))
  cast_date32 value _ = err cast_fail

  unfoldable pub cast_date64 : Option ℤ → LogicalType → Outcome TypeError (DataValue D)
  unfolding varchar_cast
  cast_date64 value LogicalType.sql_null = ok null
  cast_date64 value (LogicalType.varchar len) =
      varchar_cast (λ s. s) (and_then y.show_date_time value) len
  cast_date64 value LogicalType.date = ok (date32 (and_then y.date_of value))
  cast_date64 value LogicalType.date_time = ok (date64 value)
  cast_date64 value _ = err cast_fail

  unfoldable pub cast_decimal : Option D → LogicalType → Outcome TypeError (DataValue D)
  unfolding varchar_cast
  cast_decimal value LogicalType.sql_null = ok null
  cast_decimal value (LogicalType.decimal _ _) = ok (decimal value)
  cast_decimal value (LogicalType.varchar len) = varchar_cast y.show_decimal value len
  cast_decimal value _ = err cast_fail

  unfoldable pub cast : DataValue D → LogicalType → Outcome TypeError (DataValue D)
  unfolding cast_null cast_boolean cast_float32 cast_float64 cast_int8 cast_int16 cast_int32
      cast_int64 cast_u_int8 cast_u_int16 cast_u_int32 cast_u_int64 cast_utf8 cast_date32
      cast_date64 cast_decimal
  cast null to = cast_null to
  cast (boolean value) to = cast_boolean value to
  cast (float32 value) to = cast_float32 value to
  cast (float64 value) to = cast_float64 value to
  cast (int8 value) to = cast_int8 value to
  cast (int16 value) to = cast_int16 value to
  cast (int32 value) to = cast_int32 value to
  cast (int64 value) to = cast_int64 value to
  cast (u_int8 value) to = cast_u_int8 value to
  cast (u_int16 value) to = cast_u_int16 value to
  cast (u_int32 value) to = cast_u_int32 value to
  cast (u_int64 value) to = cast_u_int64 value to
  cast (utf8 value) to = cast_utf8 value to
  cast (date32 value) to = cast_date32 value to
  cast (date64 value) to = cast_date64 value to
  cast (decimal value) to = cast_decimal value to
