-- ===== src/Value/Tests.antt =====
-- src/types/value.rs on concrete values.
use kip_sql.Prelude.{◌≡◌, ◌≢◌, refl, some, [], ◌∷◌, Ordering, arith}
use kip_sql.Prelude.Int.{pos, negsuc, to_bits}
use kip_sql.Prelude.Bytes.{Bytes, compare_bytes, be_bytes}
use kip_sql.Prelude.Outcome.{ok, panic}
use kip_sql.Types.{LogicalType, is_signed_numeric, is_unsigned_numeric}
use kip_sql.Value.{int32, float32, partial_cmp, is_null, u_int8, InRange, DataValue}
use kip_sql.Value.Key.{to_primary_key, to_index_key, encode_bytes, float_word}
use kip_sql.Value.Key.Compare.{compare-to_primary_key, compare-to_index_key}
use kip_sql.Value.Key.Padding.{long_text_first}
use kip_sql.Value.Raw.{to_raw, from_raw}
use kip_sql.Value.Raw.RoundTrip.{from_raw-to_raw, stored, IsOf}
use kip_sql.Value.Plain.{plain, plain-OrdersFloats, plain-KeepsFixed, plain_conversions}
use kip_sql.Value.Cast.{cast}
use kip_sql.Value.Cast.Integers.{integer_value, cast_exact}
use kip_sql.Value.Cast.Laws.{cast-IsOf}

abbrev prefix : Bytes
prefix = 0 ∷ 116 ∷ 0 ∷ []

compare-to_primary_key_example :
    compare_bytes (0 ∷ 116 ∷ 0 ∷ 127 ∷ 255 ∷ 255 ∷ 253 ∷ []) (0 ∷ 116 ∷ 0 ∷ 128 ∷ 0 ∷ 0 ∷ 2 ∷ [])
    ≡ Ordering.lt
unfolding to_primary_key partial_cmp be_bytes to_bits
compare-to_primary_key_example =
    compare-to_primary_key plain prefix (int32 (some (negsuc 2))) (int32 (some (pos 2)))
      (omega arith) (omega arith) refl refl refl

compare-to_index_key_example :
    compare_bytes (0 ∷ 116 ∷ 0 ∷ 63 ∷ 127 ∷ 255 ∷ 255 ∷ []) (0 ∷ 116 ∷ 0 ∷ 191 ∷ 128 ∷ 0 ∷ 0 ∷ [])
    ≡ Ordering.lt
unfolding to_index_key partial_cmp be_bytes float_word compare_bytes
compare-to_index_key_example =
    compare-to_index_key plain plain-OrdersFloats prefix (float32 (some 0xbf80_0000))
      (float32 (some 0x3f80_0000)) (record { width = omega arith; finite = omega arith })
      (record { width = omega arith; finite = omega arith }) refl refl refl

long_text_first_example :
    compare_bytes
      (encode_bytes prefix (122 ∷ 122 ∷ 122 ∷ 122 ∷ 122 ∷ 122 ∷ 122 ∷ 122 ∷ []))
      (encode_bytes prefix (97 ∷ []))
    ≡ Ordering.lt
long_text_first_example =
    long_text_first prefix 96 [] (122 ∷ 122 ∷ 122 ∷ 122 ∷ 122 ∷ 122 ∷ 122 ∷ 122 ∷ []) (omega arith)
      (omega arith) (omega arith)

from_raw-to_raw_example :
    from_raw plain (to_raw plain (int32 (some (negsuc 6)))) LogicalType.integer
    ≡ ok (int32 (some (negsuc 6)))
unfolding is_null stored
from_raw-to_raw_example =
    from_raw-to_raw plain plain-KeepsFixed LogicalType.integer (int32 (some (negsuc 6))) tt
      (omega arith) refl

cast-IsOf_example :
    (cast plain_conversions (int32 (some (pos 300))) LogicalType.u_tinyint ≢ panic)
    × ((w : DataValue Unit)
        → cast plain_conversions (int32 (some (pos 300))) LogicalType.u_tinyint ≡ ok w
        → IsOf LogicalType.u_tinyint w)
cast-IsOf_example = cast-IsOf plain_conversions (int32 (some (pos 300))) LogicalType.u_tinyint

cast_exact_example :
    (integer_value {D = Unit} (u_int8 (some 200)) ≡ some (pos 200))
    × InRange {D = Unit} (u_int8 (some 200))
unfolding is_signed_numeric is_unsigned_numeric cast
cast_exact_example =
    cast_exact plain_conversions (int32 (some (pos 200))) (u_int8 (some 200)) LogicalType.u_tinyint
      (pos 200) refl (omega arith) refl refl
