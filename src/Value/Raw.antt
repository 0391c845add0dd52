-- ===== src/Value/Raw.antt =====
-- src/types/value.rs: the stored bytes of a value. Native-endian bytes are those of a target whose
-- words are little-endian.
pub mod RoundTrip
use kip_sql.Prelude.{
  ℕ, ◌*◌, ◌^◌, Bool, true, false, not, Option, none, some, [], ◌∷◌, length, ◌==◌, if◌then◌else◌,
}
use kip_sql.Prelude.Int.{ℤ, to_bits, of_bits}
use kip_sql.Prelude.Bytes.{Bytes, le_bytes, of_le_bytes}
use kip_sql.Prelude.Utf8.{is_utf8}
use kip_sql.Prelude.Outcome.{Outcome, ok, panic}
use kip_sql.Types.{LogicalType, TypeError}
use kip_sql.Value.{
  DataValue, null, boolean, float32, float64, int8, int16, int32, int64, u_int8, u_int16, u_int32,
  u_int64, utf8, date32, date64, decimal, External,
}

-- `Option::map` and `unwrap_or(vec![])`.
abbrev bytes_or_none : {A : Type 0} → (A → Bytes) → Option A → Bytes
bytes_or_none f none = []
bytes_or_none f (some a) = f a

-- `(!bytes.is_empty()).then(...)`.
abbrev then_some : {A : Type 0} → Bytes → A → Option A
then_some [] a = none
then_some (_ ∷ _) a = some a

module _ {D : Type 0} (x : External D) where
  -- `encode_fixed_vec` of a signed integer of k bytes.
  abbrev encode_signed : ℕ → ℕ → ℤ → Bytes
  encode_signed k half v = x.encode_fixed k (to_bits half v)

  unfoldable pub to_raw : DataValue D → Bytes
  to_raw null = []
  to_raw (boolean v) = bytes_or_none (λ b. (if b then 1 else 0) ∷ []) v
  to_raw (float32 v) = bytes_or_none (le_bytes 4) v
  to_raw (float64 v) = bytes_or_none (le_bytes 8) v
  to_raw (int8 v) = bytes_or_none (encode_signed 1 (2 ^ 7)) v
  to_raw (int16 v) = bytes_or_none (encode_signed 2 (2 ^ 15)) v
  to_raw (int32 v) = bytes_or_none (encode_signed 4 (2 ^ 31)) v
  to_raw (int64 v) = bytes_or_none (encode_signed 8 (2 ^ 63)) v
  to_raw (u_int8 v) = bytes_or_none (x.encode_fixed 1) v
  to_raw (u_int16 v) = bytes_or_none (x.encode_fixed 2) v
  to_raw (u_int32 v) = bytes_or_none (x.encode_fixed 4) v
  to_raw (u_int64 v) = bytes_or_none (x.encode_fixed 8) v
  to_raw (utf8 v) = bytes_or_none (λ s. s) v
  to_raw (date32 v) = bytes_or_none (encode_signed 4 (2 ^ 31)) v
  to_raw (date64 v) = bytes_or_none (encode_signed 8 (2 ^ 63)) v
  to_raw (decimal v) = bytes_or_none x.serialize v

  decode_signed : ℕ → ℕ → Bytes → Option ℤ
  decode_signed k half bytes = then_some bytes (of_bits half (x.decode_fixed k bytes))

  decode_unsigned : ℕ → Bytes → Option ℕ
  decode_unsigned k bytes = then_some bytes (x.decode_fixed k bytes)

  -- `copy_from_slice` panics on another length.
  decode_float : ℕ → Bytes → Outcome TypeError (Option ℕ)
  decode_float k [] = ok none
  decode_float k (b ∷ bs) = if length (b ∷ bs) == k then ok (some (of_le_bytes (b ∷ bs))) else panic

  decode_text : Bytes → Outcome TypeError (DataValue D)
  decode_text [] = ok (utf8 none)
  decode_text (b ∷ bs) = if is_utf8 (b ∷ bs) then ok (utf8 (some (b ∷ bs))) else panic

  decode_decimal : Bytes → Outcome TypeError (DataValue D)
  decode_decimal [] = ok (decimal none)
  decode_decimal (b ∷ bs) =
      if length (b ∷ bs) == 16 then ok (decimal (some (x.deserialize (b ∷ bs)))) else panic

  decode_bool : Bytes → Option Bool
  decode_bool [] = none
  decode_bool (b ∷ _) = some (not (b == 0))

  abbrev float_value :
      (Option ℕ → DataValue D) → Outcome TypeError (Option ℕ) → Outcome TypeError (DataValue D)
  float_value c (ok v) = ok (c v)
  float_value c _ = panic

  unfoldable pub from_raw : Bytes → LogicalType → Outcome TypeError (DataValue D)
  unfolding decode_signed decode_unsigned decode_float decode_text decode_decimal decode_bool
  from_raw bytes LogicalType.invalid = panic
  from_raw bytes LogicalType.sql_null = ok null
  from_raw bytes LogicalType.boolean = ok (boolean (decode_bool bytes))
  from_raw bytes LogicalType.tinyint = ok (int8 (decode_signed 1 (2 ^ 7) bytes))
  from_raw bytes LogicalType.u_tinyint = ok (u_int8 (decode_unsigned 1 bytes))
  from_raw bytes LogicalType.smallint = ok (int16 (decode_signed 2 (2 ^ 15) bytes))
  from_raw bytes LogicalType.u_smallint = ok (u_int16 (decode_unsigned 2 bytes))
  from_raw bytes LogicalType.integer = ok (int32 (decode_signed 4 (2 ^ 31) bytes))
  from_raw bytes LogicalType.u_integer = ok (u_int32 (decode_unsigned 4 bytes))
  from_raw bytes LogicalType.bigint = ok (int64 (decode_signed 8 (2 ^ 63) bytes))
  from_raw bytes LogicalType.u_bigint = ok (u_int64 (decode_unsigned 8 bytes))
  from_raw bytes LogicalType.float = float_value float32 (decode_float 4 bytes)
  from_raw bytes LogicalType.double = float_value float64 (decode_float 8 bytes)
  from_raw bytes (LogicalType.varchar _) = decode_text bytes
  from_raw bytes LogicalType.date = ok (date32 (decode_signed 4 (2 ^ 31) bytes))
  from_raw bytes LogicalType.date_time = ok (date64 (decode_signed 8 (2 ^ 63) bytes))
  from_raw bytes (LogicalType.decimal _ _) = decode_decimal bytes
