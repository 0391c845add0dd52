-- ===== src/Value/Plain.antt =====
-- A concrete form of the crates that src/types/value.rs uses: floats in their numeric order, words in
-- little-endian bytes, one decimal, and no texts for floats and dates.
use kip_sql.Prelude.{◌^◌, Ordering, replicate, refl, ◌*◌, [], none}
use kip_sql.Prelude.Int.{pos, compare_ℤ}
use kip_sql.Prelude.Bytes.{le_bytes, of_le_bytes, length-le_bytes, of_le_bytes-le_bytes}
use kip_sql.Value.{External}
use kip_sql.Value.Key.Floats.{magnitude}
use kip_sql.Value.Key.Compare.{OrdersFloats}
use kip_sql.Value.Raw.RoundTrip.{KeepsFixed}
use kip_sql.Value.Cast.{Conversions}

abbrev pub plain : External Unit
plain = record {
  cmp_f32 = λ f g. compare_ℤ (magnitude (2 ^ 31) f) (magnitude (2 ^ 31) g);
  cmp_f64 = λ f g. compare_ℤ (magnitude (2 ^ 63) f) (magnitude (2 ^ 63) g);
  cmp_decimal = λ a b. Ordering.eq;
  serialize = λ d. replicate 16 0;
  deserialize = λ bytes. tt;
  decimal_zero = tt;
  encode_fixed = le_bytes;
  decode_fixed = λ k bytes. of_le_bytes bytes;
  epoch_days = pos 0;
  epoch_timestamp = pos 0;
}

pub plain-OrdersFloats : OrdersFloats plain
plain-OrdersFloats = record { f32_law = λ f g p q. refl; f64_law = λ f g p q. refl }

pub plain-KeepsFixed : KeepsFixed plain
plain-KeepsFixed = record {
  encode_length = length-le_bytes;
  decode_encode = of_le_bytes-le_bytes;
  serialize_length = λ d. refl;
  deserialize_serialize = λ d. refl;
}

abbrev pub plain_conversions : Conversions Unit
plain_conversions = record {
  f32_of_int = λ v. 0;
  f64_of_int = λ v. 0;
  f64_of_f32 = λ f. f * 2 ^ 29;
  show_f32 = λ f. [];
  show_f64 = λ f. [];
  parse_f32 = λ s. none;
  parse_f64 = λ s. none;
  show_decimal = λ d. [];
  parse_decimal = λ s. none;
  decimal_of_int = λ v. tt;
  decimal_of_f32 = λ f. none;
  decimal_of_f64 = λ f. none;
  trunc_with_scale = λ d n. d;
  round_dp = λ d n. d;
  mantissa = λ d. pos 0;
  scale = λ d. 0;
  show_date = λ v. none;
  show_date_time = λ v. none;
  parse_days = λ s. none;
  parse_timestamp = λ s. none;
  parse_midnight = λ s. none;
  midnight = λ v. none;
  date_of = λ v. none;
}
