-- ===== src/Value/Raw/RoundTrip.antt =====
-- `from_raw` after `to_raw`.
use kip_sql.Prelude.{
  ℕ, suc, ◌*◌, ◌%◌, ◌^◌, ◌<◌, ◌≡◌, refl, sym, ap, ◌∙◌, ◌⊎◌, inl, inr, true, false, none, some, [],
  ◌∷◌, arith, length,
}
use native.Mathlib.Nat.{mod-eq_of_lt}
use kip_sql.Prelude.Int.{ℤ, pos, negsuc, IsSigned, to_bits, of_bits}
use kip_sql.Prelude.Bytes.{Bytes, le_bytes, of_le_bytes, length-le_bytes, of_le_bytes-le_bytes}
use kip_sql.Prelude.Utf8.{is_utf8}
use kip_sql.Prelude.Outcome.{ok}
use kip_sql.Types.{LogicalType, raw_len}
use kip_sql.Value.{
  DataValue, null, boolean, float32, float64, int8, int16, int32, int64, u_int8, u_int16, u_int32,
  u_int64, utf8, date32, date64, decimal, External, InRange, is_null, is_variable, none_of,
}
use kip_sql.Value.Raw.{
  to_raw, from_raw, then_some, encode_signed, decode_signed, decode_unsigned, decode_float,
  decode_decimal, decode_text, float_value,
}

-- What integer-encoding and rust_decimal document of their fixed-length forms.
pub record KeepsFixed {D : Type 0} (x : External D) : Type 0 where
  pub encode_length : (k n : ℕ) → length (x.encode_fixed k n) ≡ k
  pub decode_encode : (k n : ℕ) → n < 256 ^ k → x.decode_fixed k (x.encode_fixed k n) ≡ n
  pub serialize_length : (d : D) → length (x.serialize d) ≡ 16
  pub deserialize_serialize : (d : D) → x.deserialize (x.serialize d) ≡ d

-- The value belongs to a column of the type.
abbrev pub IsOf : {D : Type 0} → LogicalType → DataValue D → Type 0
IsOf LogicalType.sql_null null = Unit
IsOf LogicalType.boolean (boolean _) = Unit
IsOf LogicalType.tinyint (int8 _) = Unit
IsOf LogicalType.u_tinyint (u_int8 _) = Unit
IsOf LogicalType.smallint (int16 _) = Unit
IsOf LogicalType.u_smallint (u_int16 _) = Unit
IsOf LogicalType.integer (int32 _) = Unit
IsOf LogicalType.u_integer (u_int32 _) = Unit
IsOf LogicalType.bigint (int64 _) = Unit
IsOf LogicalType.u_bigint (u_int64 _) = Unit
IsOf LogicalType.float (float32 _) = Unit
IsOf LogicalType.double (float64 _) = Unit
IsOf (LogicalType.varchar _) (utf8 _) = Unit
IsOf LogicalType.date (date32 _) = Unit
IsOf LogicalType.date_time (date64 _) = Unit
IsOf (LogicalType.decimal _ _) (decimal _) = Unit
IsOf _ _ = ⊥

-- A text is valid UTF-8, and its length fits the u32 that is stored with it.
abbrev pub IsStorable : {D : Type 0} → DataValue D → Type 0
IsStorable (utf8 (some s)) = (is_utf8 s ≡ true) × (length s < 2 ^ 32)
IsStorable v = InRange v

-- The value that is read back: the empty text is read as a null.
unfoldable pub stored : {D : Type 0} → DataValue D → DataValue D
stored (utf8 (some [])) = utf8 none
stored v = v

of_bits-to_bits : (half : ℕ) (v : ℤ) → IsSigned half v → of_bits half (to_bits half v) ≡ v
unfolding of_bits to_bits
of_bits-to_bits half (pos n) h =
    let e : n % (2 * half) ≡ n = mod-eq_of_lt (omega arith) in rw e (ground arith)
of_bits-to_bits half (negsuc n) h =
    let e : n % (2 * half) ≡ n = mod-eq_of_lt (omega arith) in rw e (ground arith)

to_bits-lt : (half : ℕ) (v : ℤ) → IsSigned half v → to_bits half v < 2 * half
unfolding to_bits
to_bits-lt half (pos n) h =
    let e : n % (2 * half) ≡ n = mod-eq_of_lt (omega arith) in rw e (omega arith)
to_bits-lt half (negsuc n) h =
    let e : n % (2 * half) ≡ n = mod-eq_of_lt (omega arith) in rw e (omega arith)

then_some-cons :
    {A : Type 0} (k : ℕ) (bs : Bytes) (a : A) → length bs ≡ suc k → then_some bs a ≡ some a
then_some-cons k [] a h = absurd (omega arith)
then_some-cons k (b ∷ bs) a h = refl

module _ {D : Type 0} (x : External D) (law : KeepsFixed x) where
  decode_signed-encode :
      (k half : ℕ) (v : ℤ)
      → 2 * half ≡ 256 ^ suc k
      → IsSigned half v
      → decode_signed x (suc k) half (encode_signed x (suc k) half v) ≡ some v
  unfolding decode_signed
  decode_signed-encode k half v e h =
      then_some-cons k _ _ (law.encode_length (suc k) (to_bits half v))
      ∙ ap some (
          ap (of_bits half)
            (law.decode_encode (suc k) (to_bits half v) (omega (arith, e, to_bits-lt half v h)))
          ∙ of_bits-to_bits half v h)

  decode_unsigned-encode :
      (k v : ℕ) → v < 256 ^ suc k → decode_unsigned x (suc k) (x.encode_fixed (suc k) v) ≡ some v
  unfolding decode_unsigned
  decode_unsigned-encode k v h =
      then_some-cons k _ _ (law.encode_length (suc k) v) ∙ ap some (law.decode_encode (suc k) v h)

  decode_float_lem :
      (k : ℕ) (bs : Bytes) (f : ℕ)
      → length bs ≡ suc k
      → of_le_bytes bs ≡ f
      → decode_float x (suc k) bs ≡ ok (some f)
  unfolding decode_float
  decode_float_lem k [] f h e = absurd (omega arith)
  decode_float_lem k (b ∷ bs) f h e = ground arith

  decode_decimal_lem :
      (bs : Bytes) → length bs ≡ 16 → decode_decimal x bs ≡ ok (decimal (some (x.deserialize bs)))
  unfolding decode_decimal
  decode_decimal_lem [] h = absurd (omega arith)
  decode_decimal_lem (b ∷ bs) h = ground arith

  decode_text_lem : (s : Bytes) → is_utf8 s ≡ true → decode_text x s ≡ ok (stored (utf8 (some s)))
  unfolding decode_text stored
  decode_text_lem [] h = refl
  decode_text_lem (b ∷ bs) h = rw h

  -- Where integer-encoding and rust_decimal keep their fixed-length forms, a value of the type of
  -- its column, not null, in the range of its variant, and valid UTF-8 if it is a text, is read
  -- back from its bytes, but the empty text as a null.
  pub from_raw-to_raw :
      (ty : LogicalType) (v : DataValue D)
      → IsOf ty v
      → IsStorable v
      → is_null v ≡ false
      → from_raw x (to_raw x v) ty ≡ ok (stored v)
  unfolding to_raw from_raw is_null stored
  from_raw-to_raw LogicalType.boolean (boolean (some true)) t r n = refl
  from_raw-to_raw LogicalType.boolean (boolean (some false)) t r n = refl
  from_raw-to_raw LogicalType.tinyint (int8 (some v)) t r n =
      ap ok (ap int8 (decode_signed-encode 0 (2 ^ 7) v refl r))
  from_raw-to_raw LogicalType.smallint (int16 (some v)) t r n =
      ap ok (ap int16 (decode_signed-encode 1 (2 ^ 15) v refl r))
  from_raw-to_raw LogicalType.integer (int32 (some v)) t r n =
      ap ok (ap int32 (decode_signed-encode 3 (2 ^ 31) v refl r))
  from_raw-to_raw LogicalType.bigint (int64 (some v)) t r n =
      ap ok (ap int64 (decode_signed-encode 7 (2 ^ 63) v refl r))
  from_raw-to_raw LogicalType.date (date32 (some v)) t r n =
      ap ok (ap date32 (decode_signed-encode 3 (2 ^ 31) v refl r))
  from_raw-to_raw LogicalType.date_time (date64 (some v)) t r n =
      ap ok (ap date64 (decode_signed-encode 7 (2 ^ 63) v refl r))
  from_raw-to_raw LogicalType.u_tinyint (u_int8 (some v)) t r n =
      ap ok (ap u_int8 (decode_unsigned-encode 0 v r))
  from_raw-to_raw LogicalType.u_smallint (u_int16 (some v)) t r n =
      ap ok (ap u_int16 (decode_unsigned-encode 1 v r))
  from_raw-to_raw LogicalType.u_integer (u_int32 (some v)) t r n =
      ap ok (ap u_int32 (decode_unsigned-encode 3 v r))
  from_raw-to_raw LogicalType.u_bigint (u_int64 (some v)) t r n =
      ap ok (ap u_int64 (decode_unsigned-encode 7 v r))
  from_raw-to_raw LogicalType.float (float32 (some f)) t r n =
      ap (float_value x float32)
        (decode_float_lem 3 (le_bytes 4 f) f (length-le_bytes 4 f) (of_le_bytes-le_bytes 4 f r))
  from_raw-to_raw LogicalType.double (float64 (some f)) t r n =
      ap (float_value x float64)
        (decode_float_lem 7 (le_bytes 8 f) f (length-le_bytes 8 f) (of_le_bytes-le_bytes 8 f r))
  from_raw-to_raw (LogicalType.varchar _) (utf8 (some s)) t r n = decode_text_lem s r.0
  from_raw-to_raw (LogicalType.decimal _ _) (decimal (some d)) t r n =
      decode_decimal_lem (x.serialize d) (law.serialize_length d)
      ∙ ap ok (ap decimal (ap some (law.deserialize_serialize d)))
  from_raw-to_raw LogicalType.sql_null null t r n = cc
  from_raw-to_raw _ _ t r n = ground arith

  -- A column type has a fixed width exactly for the values that are stored without their length.
  pub raw_len-length :
      (ty : LogicalType) (v : DataValue D)
      → IsOf ty v
      → is_null v ≡ false
      → ((is_variable v ≡ true) × (raw_len ty ≡ none))
        ⊎ ((is_variable v ≡ false) × (raw_len ty ≡ some (length (to_raw x v))))
  unfolding to_raw is_null is_variable raw_len
  raw_len-length (LogicalType.varchar _) (utf8 (some s)) t n = inl (refl, refl)
  raw_len-length LogicalType.boolean (boolean (some v)) t n = inr (refl, refl)
  raw_len-length LogicalType.tinyint (int8 (some v)) t n =
      inr (refl, ap some (sym (law.encode_length 1 (to_bits (2 ^ 7) v))))
  raw_len-length LogicalType.smallint (int16 (some v)) t n =
      inr (refl, ap some (sym (law.encode_length 2 (to_bits (2 ^ 15) v))))
  raw_len-length LogicalType.integer (int32 (some v)) t n =
      inr (refl, ap some (sym (law.encode_length 4 (to_bits (2 ^ 31) v))))
  raw_len-length LogicalType.bigint (int64 (some v)) t n =
      inr (refl, ap some (sym (law.encode_length 8 (to_bits (2 ^ 63) v))))
  raw_len-length LogicalType.date (date32 (some v)) t n =
      inr (refl, ap some (sym (law.encode_length 4 (to_bits (2 ^ 31) v))))
  raw_len-length LogicalType.date_time (date64 (some v)) t n =
      inr (refl, ap some (sym (law.encode_length 8 (to_bits (2 ^ 63) v))))
  raw_len-length LogicalType.u_tinyint (u_int8 (some v)) t n =
      inr (refl, ap some (sym (law.encode_length 1 v)))
  raw_len-length LogicalType.u_smallint (u_int16 (some v)) t n =
      inr (refl, ap some (sym (law.encode_length 2 v)))
  raw_len-length LogicalType.u_integer (u_int32 (some v)) t n =
      inr (refl, ap some (sym (law.encode_length 4 v)))
  raw_len-length LogicalType.u_bigint (u_int64 (some v)) t n =
      inr (refl, ap some (sym (law.encode_length 8 v)))
  raw_len-length LogicalType.float (float32 (some v)) t n =
      inr (refl, ap some (sym (length-le_bytes 4 v)))
  raw_len-length LogicalType.double (float64 (some v)) t n =
      inr (refl, ap some (sym (length-le_bytes 8 v)))
  raw_len-length (LogicalType.decimal _ _) (decimal (some d)) t n =
      inr (refl, ap some (sym (law.serialize_length d)))
  raw_len-length LogicalType.sql_null null t n = cc
  raw_len-length _ _ t n = ground arith

  -- A null is what `DataValue::none` gives for its column.
  pub none_of-null :
      (ty : LogicalType) (v : DataValue D)
      → IsOf ty v
      → is_null v ≡ true
      → (none_of ty ≡ ok v) × (stored v ≡ v)
  unfolding none_of is_null stored
  none_of-null LogicalType.tinyint (int8 none) t n = (refl, refl)
  none_of-null LogicalType.smallint (int16 none) t n = (refl, refl)
  none_of-null LogicalType.integer (int32 none) t n = (refl, refl)
  none_of-null LogicalType.bigint (int64 none) t n = (refl, refl)
  none_of-null LogicalType.date (date32 none) t n = (refl, refl)
  none_of-null LogicalType.date_time (date64 none) t n = (refl, refl)
  none_of-null LogicalType.u_tinyint (u_int8 none) t n = (refl, refl)
  none_of-null LogicalType.u_smallint (u_int16 none) t n = (refl, refl)
  none_of-null LogicalType.u_integer (u_int32 none) t n = (refl, refl)
  none_of-null LogicalType.u_bigint (u_int64 none) t n = (refl, refl)
  none_of-null LogicalType.float (float32 none) t n = (refl, refl)
  none_of-null LogicalType.double (float64 none) t n = (refl, refl)
  none_of-null LogicalType.boolean (boolean none) t n = (refl, refl)
  none_of-null (LogicalType.varchar _) (utf8 none) t n = (refl, refl)
  none_of-null (LogicalType.decimal _ _) (decimal none) t n = (refl, refl)
  none_of-null LogicalType.sql_null null t n = (refl, refl)
  none_of-null _ _ t n = ground arith
