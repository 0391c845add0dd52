-- ===== src/Value/Cast/Laws.antt =====
-- `cast` of src/types/value.rs: the type of its result, and the integers it keeps.
use kip_sql.Prelude.{◌≡◌, ◌≢◌, Option, none, some, arith, ◌^◌, Option-cases, inl, inr, ℕ}
use kip_sql.Prelude.Int.{ℤ, pos, negsuc}
use kip_sql.Prelude.Bytes.{Bytes}
use kip_sql.Prelude.Outcome.{Outcome, ok, err, panic, map_transpose}
use kip_sql.Types.{
  LogicalType, TypeError, parse_int, parse_bool, parse_float, parse_date, try_from_decimal,
}
use kip_sql.Value.{
  DataValue, null, boolean, float32, float64, int8, int16, int32, int64, u_int8, u_int16, u_int32,
  u_int64, utf8, date32, date64, decimal,
}
use kip_sql.Value.Text.{show_ℕ, show_ℤ, show_bool, parse_bool_text, parse_unsigned, parse_signed}
use kip_sql.Value.Raw.RoundTrip.{IsOf}
use kip_sql.Value.Cast.{
  cast_null, cast_boolean, cast_float32, cast_float64, cast_int8, cast_int16, cast_int32,
  cast_int64, cast_u_int8, cast_u_int16, cast_u_int32, cast_u_int64, cast_utf8, cast_date32,
  cast_date64, cast_decimal, Conversions, cast, wrap, to_unsigned, read, varchar_cast,
  decimal_of_float, or_else, and_then, within,
}

abbrev NotPanic : {A : Type 0} → Outcome TypeError A → Type 0
NotPanic (ok a) = Unit
NotPanic (err e) = Unit
NotPanic panic = ⊥

map_transpose-NotPanic :
    {A B : Type 0} (f : A → Outcome TypeError B) (o : Option A)
    → ((a : A) → NotPanic (f a))
    → NotPanic (map_transpose f o)
map_transpose-NotPanic f none h = tt
map_transpose-NotPanic f (some a) h = ground (arith, h a)

to_unsigned-NotPanic : (limit : ℕ) (v : ℤ) → NotPanic (to_unsigned limit v)
to_unsigned-NotPanic limit (pos n) = ground arith
to_unsigned-NotPanic limit (negsuc n) = tt

read-NotPanic :
    {A : Type 0} (parse : Bytes → Option A) (e : TypeError) (s : Bytes) → NotPanic (read parse e s)
read-NotPanic parse e s = ground arith

module _ {D : Type 0} where
  -- A result of the type, or an error.
  abbrev Gives : LogicalType → Outcome TypeError (DataValue D) → Type 0
  Gives to (ok w) = IsOf to w
  Gives to (err e) = Unit
  Gives to panic = ⊥

  wrap-Gives :
      {A : Type 0} (to : LogicalType) (c : A → DataValue D) (r : Outcome TypeError A)
      → NotPanic r
      → ((a : A) → IsOf to (c a))
      → Gives to (wrap c r)
  wrap-Gives to c (ok a) n h = h a
  wrap-Gives to c (err e) n h = tt
  wrap-Gives to c panic n h = n

  module _ (y : Conversions D) where
    within-Gives :
        (len bound : Option ℕ) (s : Bytes) → Gives (LogicalType.varchar bound) (within y len s)
    within-Gives none bound s = tt
    within-Gives (some n) bound s = ground arith

    varchar_cast-Gives :
        {A : Type 0} (show : A → Bytes) (value : Option A) (len : Option ℕ)
        → Gives (LogicalType.varchar len) (varchar_cast y show value len)
    unfolding varchar_cast
    varchar_cast-Gives show none len = tt
    varchar_cast-Gives show (some a) len = within-Gives len len (show a)

    decimal_of_float-NotPanic :
        (f : ℕ → Option D) (scale : Option ℕ) (v : ℕ) → NotPanic (decimal_of_float y f scale v)
    unfolding decimal_of_float
    decimal_of_float-NotPanic f scale v = elim (Option-cases (f v)) [
      | inl e ↦ rw (decimal_of_float, e) tt
      | inr (d, e) ↦ rw (decimal_of_float, e) tt
    ]

    cast-Gives : (v : DataValue D) (to : LogicalType) → Gives to (cast y v to)
    unfolding cast cast_null cast_boolean cast_float32 cast_float64 cast_int8 cast_int16 cast_int32
        cast_int64 cast_u_int8 cast_u_int16 cast_u_int32 cast_u_int64 cast_utf8 cast_date32
        cast_date64 cast_decimal
    cast-Gives null LogicalType.invalid = tt
    cast-Gives null _ = tt
    cast-Gives (boolean value) (LogicalType.varchar len) = varchar_cast-Gives show_bool value len
    cast-Gives (boolean value) _ = tt
    cast-Gives (float32 value) (LogicalType.varchar len) = varchar_cast-Gives y.show_f32 value len
    cast-Gives (float32 value) (LogicalType.decimal p scale) =
        wrap-Gives (LogicalType.decimal p scale) decimal _
          (map_transpose-NotPanic (decimal_of_float y y.decimal_of_f32 scale) value
            (decimal_of_float-NotPanic y.decimal_of_f32 scale))
          (λ a. tt)
    cast-Gives (float32 value) _ = tt
    cast-Gives (float64 value) (LogicalType.varchar len) = varchar_cast-Gives y.show_f64 value len
    cast-Gives (float64 value) (LogicalType.decimal p scale) =
        wrap-Gives (LogicalType.decimal p scale) decimal _
          (map_transpose-NotPanic (decimal_of_float y y.decimal_of_f64 scale) value
            (decimal_of_float-NotPanic y.decimal_of_f64 scale))
          (λ a. tt)
    cast-Gives (float64 value) _ = tt
    cast-Gives (int8 value) (LogicalType.varchar len) = varchar_cast-Gives show_ℤ value len
    cast-Gives (int8 value) LogicalType.u_tinyint =
        wrap-Gives LogicalType.u_tinyint u_int8 _
          (map_transpose-NotPanic (to_unsigned (2 ^ 8)) value (to_unsigned-NotPanic (2 ^ 8)))
          (λ a. tt)
    cast-Gives (int8 value) LogicalType.u_smallint =
        wrap-Gives LogicalType.u_smallint u_int16 _
          (map_transpose-NotPanic (to_unsigned (2 ^ 16)) value (to_unsigned-NotPanic (2 ^ 16)))
          (λ a. tt)
    cast-Gives (int8 value) LogicalType.u_integer =
        wrap-Gives LogicalType.u_integer u_int32 _
          (map_transpose-NotPanic (to_unsigned (2 ^ 32)) value (to_unsigned-NotPanic (2 ^ 32)))
          (λ a. tt)
    cast-Gives (int8 value) LogicalType.u_bigint =
        wrap-Gives LogicalType.u_bigint u_int64 _
          (map_transpose-NotPanic (to_unsigned (2 ^ 64)) value (to_unsigned-NotPanic (2 ^ 64)))
          (λ a. tt)
    cast-Gives (int8 value) _ = tt
    cast-Gives (int16 value) (LogicalType.varchar len) = varchar_cast-Gives show_ℤ value len
    cast-Gives (int16 value) LogicalType.u_tinyint =
        wrap-Gives LogicalType.u_tinyint u_int8 _
          (map_transpose-NotPanic (to_unsigned (2 ^ 8)) value (to_unsigned-NotPanic (2 ^ 8)))
          (λ a. tt)
    cast-Gives (int16 value) LogicalType.u_smallint =
        wrap-Gives LogicalType.u_smallint u_int16 _
          (map_transpose-NotPanic (to_unsigned (2 ^ 16)) value (to_unsigned-NotPanic (2 ^ 16)))
          (λ a. tt)
    cast-Gives (int16 value) LogicalType.u_integer =
        wrap-Gives LogicalType.u_integer u_int32 _
          (map_transpose-NotPanic (to_unsigned (2 ^ 32)) value (to_unsigned-NotPanic (2 ^ 32)))
          (λ a. tt)
    cast-Gives (int16 value) LogicalType.u_bigint =
        wrap-Gives LogicalType.u_bigint u_int64 _
          (map_transpose-NotPanic (to_unsigned (2 ^ 64)) value (to_unsigned-NotPanic (2 ^ 64)))
          (λ a. tt)
    cast-Gives (int16 value) _ = tt
    cast-Gives (int32 value) (LogicalType.varchar len) = varchar_cast-Gives show_ℤ value len
    cast-Gives (int32 value) LogicalType.u_tinyint =
        wrap-Gives LogicalType.u_tinyint u_int8 _
          (map_transpose-NotPanic (to_unsigned (2 ^ 8)) value (to_unsigned-NotPanic (2 ^ 8)))
          (λ a. tt)
    cast-Gives (int32 value) LogicalType.u_smallint =
        wrap-Gives LogicalType.u_smallint u_int16 _
          (map_transpose-NotPanic (to_unsigned (2 ^ 16)) value (to_unsigned-NotPanic (2 ^ 16)))
          (λ a. tt)
    cast-Gives (int32 value) LogicalType.u_integer =
        wrap-Gives LogicalType.u_integer u_int32 _
          (map_transpose-NotPanic (to_unsigned (2 ^ 32)) value (to_unsigned-NotPanic (2 ^ 32)))
          (λ a. tt)
    cast-Gives (int32 value) LogicalType.u_bigint =
        wrap-Gives LogicalType.u_bigint u_int64 _
          (map_transpose-NotPanic (to_unsigned (2 ^ 64)) value (to_unsigned-NotPanic (2 ^ 64)))
          (λ a. tt)
    cast-Gives (int32 value) _ = tt
    cast-Gives (int64 value) (LogicalType.varchar len) = varchar_cast-Gives show_ℤ value len
    cast-Gives (int64 value) LogicalType.u_tinyint =
        wrap-Gives LogicalType.u_tinyint u_int8 _
          (map_transpose-NotPanic (to_unsigned (2 ^ 8)) value (to_unsigned-NotPanic (2 ^ 8)))
          (λ a. tt)
    cast-Gives (int64 value) LogicalType.u_smallint =
        wrap-Gives LogicalType.u_smallint u_int16 _
          (map_transpose-NotPanic (to_unsigned (2 ^ 16)) value (to_unsigned-NotPanic (2 ^ 16)))
          (λ a. tt)
    cast-Gives (int64 value) LogicalType.u_integer =
        wrap-Gives LogicalType.u_integer u_int32 _
          (map_transpose-NotPanic (to_unsigned (2 ^ 32)) value (to_unsigned-NotPanic (2 ^ 32)))
          (λ a. tt)
    cast-Gives (int64 value) LogicalType.u_bigint =
        wrap-Gives LogicalType.u_bigint u_int64 _
          (map_transpose-NotPanic (to_unsigned (2 ^ 64)) value (to_unsigned-NotPanic (2 ^ 64)))
          (λ a. tt)
    cast-Gives (int64 value) _ = tt
    cast-Gives (u_int8 value) (LogicalType.varchar len) = varchar_cast-Gives show_ℕ value len
    cast-Gives (u_int8 value) _ = tt
    cast-Gives (u_int16 value) (LogicalType.varchar len) = varchar_cast-Gives show_ℕ value len
    cast-Gives (u_int16 value) _ = tt
    cast-Gives (u_int32 value) (LogicalType.varchar len) = varchar_cast-Gives show_ℕ value len
    cast-Gives (u_int32 value) _ = tt
    cast-Gives (u_int64 value) (LogicalType.varchar len) = varchar_cast-Gives show_ℕ value len
    cast-Gives (u_int64 value) _ = tt
    cast-Gives (utf8 value) (LogicalType.varchar len) = varchar_cast-Gives (λ s. s) value len
    cast-Gives (utf8 value) LogicalType.boolean =
        wrap-Gives LogicalType.boolean boolean _
          (map_transpose-NotPanic (read parse_bool_text parse_bool) value
            (read-NotPanic parse_bool_text parse_bool))
          (λ a. tt)
    cast-Gives (utf8 value) LogicalType.tinyint =
        wrap-Gives LogicalType.tinyint int8 _
          (map_transpose-NotPanic (read (parse_signed (2 ^ 7)) parse_int) value
            (read-NotPanic (parse_signed (2 ^ 7)) parse_int))
          (λ a. tt)
    cast-Gives (utf8 value) LogicalType.u_tinyint =
        wrap-Gives LogicalType.u_tinyint u_int8 _
          (map_transpose-NotPanic (read (parse_unsigned (2 ^ 8)) parse_int) value
            (read-NotPanic (parse_unsigned (2 ^ 8)) parse_int))
          (λ a. tt)
    cast-Gives (utf8 value) LogicalType.smallint =
        wrap-Gives LogicalType.smallint int16 _
          (map_transpose-NotPanic (read (parse_signed (2 ^ 15)) parse_int) value
            (read-NotPanic (parse_signed (2 ^ 15)) parse_int))
          (λ a. tt)
    cast-Gives (utf8 value) LogicalType.u_smallint =
        wrap-Gives LogicalType.u_smallint u_int16 _
          (map_transpose-NotPanic (read (parse_unsigned (2 ^ 16)) parse_int) value
            (read-NotPanic (parse_unsigned (2 ^ 16)) parse_int))
          (λ a. tt)
    cast-Gives (utf8 value) LogicalType.integer =
        wrap-Gives LogicalType.integer int32 _
          (map_transpose-NotPanic (read (parse_signed (2 ^ 31)) parse_int) value
            (read-NotPanic (parse_signed (2 ^ 31)) parse_int))
          (λ a. tt)
    cast-Gives (utf8 value) LogicalType.u_integer =
        wrap-Gives LogicalType.u_integer u_int32 _
          (map_transpose-NotPanic (read (parse_unsigned (2 ^ 32)) parse_int) value
            (read-NotPanic (parse_unsigned (2 ^ 32)) parse_int))
          (λ a. tt)
    cast-Gives (utf8 value) LogicalType.bigint =
        wrap-Gives LogicalType.bigint int64 _
          (map_transpose-NotPanic (read (parse_signed (2 ^ 63)) parse_int) value
            (read-NotPanic (parse_signed (2 ^ 63)) parse_int))
          (λ a. tt)
    cast-Gives (utf8 value) LogicalType.u_bigint =
        wrap-Gives LogicalType.u_bigint u_int64 _
          (map_transpose-NotPanic (read (parse_unsigned (2 ^ 64)) parse_int) value
            (read-NotPanic (parse_unsigned (2 ^ 64)) parse_int))
          (λ a. tt)
    cast-Gives (utf8 value) LogicalType.float =
        wrap-Gives LogicalType.float float32 _
          (map_transpose-NotPanic (read y.parse_f32 parse_float) value
            (read-NotPanic y.parse_f32 parse_float))
          (λ a. tt)
    cast-Gives (utf8 value) LogicalType.double =
        wrap-Gives LogicalType.double float64 _
          (map_transpose-NotPanic (read y.parse_f64 parse_float) value
            (read-NotPanic y.parse_f64 parse_float))
          (λ a. tt)
    cast-Gives (utf8 value) LogicalType.date =
        wrap-Gives LogicalType.date date32 _
          (map_transpose-NotPanic (read y.parse_days parse_date) value
            (read-NotPanic y.parse_days parse_date))
          (λ a. tt)
    cast-Gives (utf8 value) LogicalType.date_time =
        wrap-Gives LogicalType.date_time date64 _
          (map_transpose-NotPanic
            (read (λ s. or_else (y.parse_timestamp s) (y.parse_midnight s)) parse_date) value
            (read-NotPanic (λ s. or_else (y.parse_timestamp s) (y.parse_midnight s)) parse_date))
          (λ a. tt)
    cast-Gives (utf8 value) (LogicalType.decimal p s) =
        wrap-Gives (LogicalType.decimal p s) decimal _
          (map_transpose-NotPanic (read y.parse_decimal try_from_decimal) value
            (read-NotPanic y.parse_decimal try_from_decimal))
          (λ a. tt)
    cast-Gives (utf8 value) _ = tt
    cast-Gives (date32 value) (LogicalType.varchar len) =
        varchar_cast-Gives (λ s. s) (and_then y.show_date value) len
    cast-Gives (date32 value) _ = tt
    cast-Gives (date64 value) (LogicalType.varchar len) =
        varchar_cast-Gives (λ s. s) (and_then y.show_date_time value) len
    cast-Gives (date64 value) _ = tt
    cast-Gives (decimal value) (LogicalType.varchar len) =
        varchar_cast-Gives y.show_decimal value len
    cast-Gives (decimal value) _ = tt

    given :
        (to : LogicalType) (r : Outcome TypeError (DataValue D))
        → Gives to r
        → (r ≢ panic) × ((w : DataValue D) → r ≡ ok w → IsOf to w)
    given to (ok a) g = (λ e. cc, λ w e. ground arith)
    given to (err x) g = (λ e. cc, λ w e. cc)
    given to panic g = absurd g

    -- A cast never panics, and when it succeeds its result is of the type that was asked for.
    pub cast-IsOf :
        (v : DataValue D) (to : LogicalType)
        → (cast y v to ≢ panic) × ((w : DataValue D) → cast y v to ≡ ok w → IsOf to w)
    cast-IsOf v to = given to (cast y v to) (cast-Gives v to)
