-- ===== src/Value/Key.antt =====
-- src/types/value.rs: the bytes that stand for a value in a primary key or an index key.
pub mod Groups
pub mod Order
pub mod Floats
pub mod Compare
pub mod Padding
use kip_sql.Prelude.{
  ℕ, zero, suc, ◌+◌, ◌-◌, ◌*◌, ◌/◌, ◌%◌, ◌^◌, Bool, true, false, not, ◌&&◌, ◌||◌, Option, none,
  some, List, [], ◌∷◌, ◌++◌, ltb, leb, ◌==◌, if◌then◌else◌, length, take, drop, replicate,
}
use Prim.Native.Nat.{bit_xor, bit_or}
use kip_sql.Prelude.Int.{ℤ, to_bits}
use kip_sql.Prelude.Bytes.{Bytes, be_bytes}
use kip_sql.Prelude.Outcome.{Outcome, ok, err, panic}
use kip_sql.Types.{TypeError, invalid_type, primary_key_not_found}
use kip_sql.Value.{
  DataValue, null, boolean, float32, float64, int8, int16, int32, int64, u_int8, u_int16, u_int32,
  u_int64, utf8, date32, date64, decimal, is_null,
}

abbrev pub group_size : ℕ
group_size = 8

abbrev pub encode_marker : ℕ
encode_marker = 0xff

-- `realloc_bytes`: the vector is made at least `size` long, with zeros at its end.
unfoldable pub realloc_bytes : Bytes → ℕ → Bytes
realloc_bytes b size = if ltb (length b) size then b ++ replicate (size - length b) 0 else b

-- One round of the loop of `encode_bytes` at `idx`: a group of eight bytes and its marker.
encode_group : Bytes → Bytes → ℕ → Bytes
encode_group b bytes idx =
    let remain = length bytes - idx in
    if leb group_size remain
    then b ++ (take group_size (drop idx bytes) ++ (encode_marker - 0) ∷ [])
    else b
      ++ (drop idx bytes
          ++ (replicate (group_size - remain) 0 ++ (encode_marker - (group_size - remain)) ∷ []))

-- `while idx <= d_len`, on fuel.
encode_loop : ℕ → Bytes → Bytes → ℕ → Bytes
unfolding encode_group
encode_loop zero b bytes idx = b
encode_loop (suc fuel) b bytes idx =
    let rest = encode_loop fuel (encode_group b bytes idx) bytes (idx + group_size) in
    if leb idx (length bytes) then rest else b

abbrev pub realloc_size : Bytes → ℕ
realloc_size bytes = (length bytes / group_size + 1) * (group_size + 1)

-- The loop makes `d_len / 8 + 1` rounds; the fuel is one more.
unfoldable pub encode_bytes : Bytes → Bytes → Bytes
unfolding realloc_bytes encode_loop
encode_bytes b bytes =
    encode_loop (length bytes / group_size + 2) (realloc_bytes b (realloc_size bytes)) bytes 0

-- `f >= 0` of a float with the sign bit `half` and the pattern `inf` of the infinity: a NaN is not,
-- and both zeros are.
unfoldable pub is_ge_zero : ℕ → ℕ → ℕ → Bool
is_ge_zero half inf f = leb (f % half) inf && (ltb f half || f % half == 0)

-- The pattern of a float as a word whose order is that of the floats.
unfoldable pub float_word : ℕ → ℕ → ℕ → ℕ
unfolding is_ge_zero
float_word half inf f = if is_ge_zero half inf f then bit_or f half else 2 * half - 1 - f

abbrev pub f32_inf : ℕ
f32_inf = 0x7f80_0000

abbrev pub f64_inf : ℕ
f64_inf = 0x7ff0_0000_0000_0000

module _ {D : Type 0} where
  unfoldable pub to_primary_key : DataValue D → Bytes → Outcome TypeError Bytes
  unfolding is_null
  to_primary_key (int8 (some v)) b = ok (b ++ be_bytes 1 (bit_xor (to_bits (2 ^ 7) v) (2 ^ 7)))
  to_primary_key (int16 (some v)) b = ok (b ++ be_bytes 2 (bit_xor (to_bits (2 ^ 15) v) (2 ^ 15)))
  to_primary_key (int32 (some v)) b = ok (b ++ be_bytes 4 (bit_xor (to_bits (2 ^ 31) v) (2 ^ 31)))
  to_primary_key (int64 (some v)) b = ok (b ++ be_bytes 8 (bit_xor (to_bits (2 ^ 63) v) (2 ^ 63)))
  to_primary_key (u_int8 (some v)) b = ok (b ++ be_bytes 1 v)
  to_primary_key (u_int16 (some v)) b = ok (b ++ be_bytes 2 v)
  to_primary_key (u_int32 (some v)) b = ok (b ++ be_bytes 4 v)
  to_primary_key (u_int64 (some v)) b = ok (b ++ be_bytes 8 v)
  to_primary_key (utf8 (some v)) b = ok (encode_bytes b v)
  to_primary_key value b = if is_null value then err primary_key_not_found else err invalid_type

  -- The last arm is `todo!()` for a null value; a decimal is `todo!()` too.
  unfoldable pub to_index_key : DataValue D → Bytes → Outcome TypeError Bytes
  unfolding is_null
  to_index_key (int8 (some v)) b = ok (b ++ be_bytes 1 (bit_xor (to_bits (2 ^ 7) v) (2 ^ 7)))
  to_index_key (int16 (some v)) b = ok (b ++ be_bytes 2 (bit_xor (to_bits (2 ^ 15) v) (2 ^ 15)))
  to_index_key (int32 (some v)) b = ok (b ++ be_bytes 4 (bit_xor (to_bits (2 ^ 31) v) (2 ^ 31)))
  to_index_key (date32 (some v)) b = ok (b ++ be_bytes 4 (bit_xor (to_bits (2 ^ 31) v) (2 ^ 31)))
  to_index_key (int64 (some v)) b = ok (b ++ be_bytes 8 (bit_xor (to_bits (2 ^ 63) v) (2 ^ 63)))
  to_index_key (date64 (some v)) b = ok (b ++ be_bytes 8 (bit_xor (to_bits (2 ^ 63) v) (2 ^ 63)))
  to_index_key (u_int8 (some v)) b = ok (b ++ be_bytes 1 v)
  to_index_key (u_int16 (some v)) b = ok (b ++ be_bytes 2 v)
  to_index_key (u_int32 (some v)) b = ok (b ++ be_bytes 4 v)
  to_index_key (u_int64 (some v)) b = ok (b ++ be_bytes 8 v)
  to_index_key (utf8 (some v)) b = ok (encode_bytes b v)
  to_index_key (boolean (some v)) b = ok (b ++ (if v then b'1' else b'0') ∷ [])
  to_index_key (float32 (some f)) b = ok (b ++ be_bytes 4 (float_word (2 ^ 31) f32_inf f))
  to_index_key (float64 (some f)) b = ok (b ++ be_bytes 8 (float_word (2 ^ 63) f64_inf f))
  to_index_key (decimal (some v)) b = panic
  to_index_key value b = if is_null value then panic else err invalid_type
