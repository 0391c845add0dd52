-- ===== src/Tuple.antt =====
-- src/types/tuple.rs: a row and its stored form: a bitmap of the nulls, then the bytes of the other
-- values, a text behind its length.
pub mod Bitmap
pub mod Serialize
pub mod Read
pub mod RoundTrip
mod Tests
use kip_sql.Prelude.{
  ℕ, zero, suc, ◌+◌, ◌-◌, ◌/◌, ◌%◌, ◌^◌, Bool, true, false, Option, none, some, List, [], ◌∷◌, ◌++◌,
  map, length, get_elem?, set, take, drop, replicate, ltb, leb, if◌then◌else◌,
}
use Prim.Native.Nat.{bit_or, bit_and}
use kip_sql.Prelude.Bytes.{Bytes}
use kip_sql.Prelude.Outcome.{Outcome, ok, panic, ◌>>=◌}
use kip_sql.Types.{LogicalType, TypeError, raw_len}
use kip_sql.Catalog.{ColumnCatalog, datatype}
use kip_sql.Value.{DataValue, External, is_null, is_variable, none_of}
use kip_sql.Value.Raw.{to_raw, from_raw}

pub record Tuple (D R : Type 0) : Type 0 where
  pub id : Option (DataValue D)
  pub columns : List (ColumnCatalog D R)
  pub values : List (DataValue D)

abbrev pub bits_max_index : ℕ
bits_max_index = 8

unfoldable pub is_none_bit : ℕ → ℕ → Bool
is_none_bit bits i = ltb 0 (bit_and bits (2 ^ (7 - i)))

unfoldable pub flip_bit : ℕ → ℕ → ℕ
flip_bit bits i = bit_or bits (2 ^ (7 - i))

abbrev pub bits_len : ℕ → ℕ
bits_len values_len = (values_len + bits_max_index) / bits_max_index

-- An index out of range panics.
unfoldable pub byte_at : Bytes → ℕ → Outcome TypeError ℕ
byte_at bytes i = elim (get_elem? bytes i) [ none ↦ panic | some b ↦ ok b ]

-- `&bytes[pos..pos + len]`.
unfoldable pub slice : Bytes → ℕ → ℕ → Outcome TypeError Bytes
slice bytes pos len =
    if leb (pos + len) (length bytes) then ok (take len (drop pos bytes)) else panic

module _ {D : Type 0} (x : External D) where
  -- One round of the loop of `serialize_to`: the i-th value is marked or appended.
  unfoldable pub serialize_value : ℕ → DataValue D → Bytes → Outcome TypeError Bytes
  unfolding byte_at
  serialize_value i value bytes =
      let byte = i / bits_max_index in
      let value_bytes = to_raw x value in
      if is_null value
      then (byte_at bytes byte >>= λ bits. ok (set bytes byte (flip_bit bits (i % bits_max_index))))
      else if is_variable value
      then ok (bytes ++ (x.encode_fixed 4 (length value_bytes % 2 ^ 32) ++ value_bytes))
      else ok (bytes ++ value_bytes)

  unfoldable pub serialize_values : ℕ → List (DataValue D) → Bytes → Outcome TypeError Bytes
  serialize_values i [] bytes = ok bytes
  serialize_values i (value ∷ values) bytes =
      serialize_value i value bytes >>= λ bytes'. serialize_values (i + 1) values bytes'

  unfoldable pub serialize_to : {R : Type 0} → Tuple D R → Outcome TypeError Bytes
  serialize_to t = serialize_values 0 t.values (replicate (bits_len (length t.values)) 0)

  -- One round of the loop of `deserialize_from`: the value of a column, and the next position.
  unfoldable pub deserialize_value :
      ℕ → LogicalType → Bytes → ℕ → Outcome TypeError (DataValue D × ℕ)
  unfolding byte_at slice
  deserialize_value i logic_type bytes pos = do
    bits ← byte_at bytes (i / bits_max_index)
    if is_none_bit bits (i % bits_max_index)
        then (none_of logic_type >>= λ v. ok (v, pos))
        else elim (raw_len logic_type) [
          | some len ↦ do
            raw ← slice bytes pos len
            v ← from_raw x raw logic_type
            ok (v, pos + len)
          | none ↦ do
            head ← slice bytes pos 4
            let len = x.decode_fixed 4 head
            raw ← slice bytes (pos + 4) len
            v ← from_raw x raw logic_type
            ok (v, pos + 4 + len)
        ]

  -- The values, and the value of the last primary column.
  unfoldable pub deserialize_values :
      {R : Type 0}
      → ℕ
      → List (ColumnCatalog D R)
      → Bytes
      → ℕ
      → Option (DataValue D)
      → Outcome TypeError (Option (DataValue D) × List (DataValue D))
  deserialize_values i [] bytes pos id = ok (id, [])
  deserialize_values i (col ∷ cols) bytes pos id =
      deserialize_value i (datatype col) bytes pos >>= λ step.
      deserialize_values (i + 1) cols bytes step.1 (if col.desc.is_primary then some step.0 else id)
      >>= λ rest. ok (rest.0, step.0 ∷ rest.1)

  unfoldable pub deserialize_from :
      {R : Type 0} → List (ColumnCatalog D R) → Bytes → Outcome TypeError (Tuple D R)
  deserialize_from columns bytes =
      deserialize_values 0 columns bytes (bits_len (length columns)) none >>= λ r.
      ok (record { id = r.0; columns = columns; values = r.1 })
