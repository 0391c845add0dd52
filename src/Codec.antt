-- ===== src/Codec.antt =====
-- src/storage/table_codec.rs: the keys and values under which tables are stored, and the bounds of
-- their scans. src/types/index.rs: the description of an index. bincode is a parameter.
pub mod Prefix
pub mod Isolation
mod Tests
use kip_sql.Prelude.{ℕ, Bool, Option, none, some, List, [], ◌∷◌, ◌++◌, if◌then◌else◌}
use kip_sql.Prelude.Bytes.{Bytes, be_bytes}
use kip_sql.Prelude.Utf8.{is_utf8}
use kip_sql.Prelude.Outcome.{Outcome, ok, err, panic, ◌>>=◌, ok_or}
use kip_sql.Types.{TypeError, primary_key_not_found, from_utf8_error}
use kip_sql.Value.{DataValue, External}
use kip_sql.Value.Key.{to_primary_key, to_index_key}
use kip_sql.Catalog.{ColumnCatalog}
use kip_sql.Tuple.{Tuple, serialize_to, deserialize_from}

pub record IndexMeta : Type 0 where
  pub id : ℕ
  pub column_ids : List ℕ
  pub name : Bytes
  pub is_unique : Bool
  pub is_primary : Bool

pub record Index (D : Type 0) : Type 0 where
  pub id : ℕ
  pub column_values : List (DataValue D)

-- `bincode::serialize` and `bincode::deserialize`; an error of theirs is `TypeError::Bincode`.
pub record Bincode (D R : Type 0) : Type 0 where
  pub write_meta : IndexMeta → Outcome TypeError Bytes
  pub read_meta : Bytes → Outcome TypeError IndexMeta
  pub write_ids : List (DataValue D) → Outcome TypeError Bytes
  pub read_ids : Bytes → Outcome TypeError (List (DataValue D))
  pub write_column : ColumnCatalog D R → Outcome TypeError Bytes
  pub read_column : Bytes → Outcome TypeError (ColumnCatalog D R)

abbrev pub bound_min_tag : ℕ
bound_min_tag = 0

abbrev pub bound_max_tag : ℕ
bound_max_tag = 1

abbrev pub root_bytes : Bytes
root_bytes = 82 ∷ 111 ∷ 111 ∷ 116 ∷ []

pub data CodecType : Type 0 where
  column index_meta index tuple root : CodecType

unfoldable pub key_prefix : CodecType → Bytes → Bytes
key_prefix column table_name = table_name ++ (48 ∷ [])
key_prefix index_meta table_name = table_name ++ (49 ∷ [])
key_prefix index table_name = table_name ++ (50 ∷ [])
key_prefix tuple table_name = table_name ++ (51 ∷ [])
key_prefix root table_name = (root_bytes ++ (bound_min_tag ∷ [])) ++ table_name

-- The closures `op` at both tags.
abbrev pub bounds : Bytes → Bytes × Bytes
bounds prefix = (prefix ++ (bound_min_tag ∷ []), prefix ++ (bound_max_tag ∷ []))

unfoldable pub tuple_bound : Bytes → Bytes × Bytes
unfolding key_prefix
tuple_bound table_name = bounds (key_prefix tuple table_name)

unfoldable pub index_meta_bound : Bytes → Bytes × Bytes
unfolding key_prefix
index_meta_bound table_name = bounds (key_prefix index_meta table_name)

unfoldable pub index_bound : Bytes → ℕ → Bytes × Bytes
unfolding key_prefix
index_bound table_name index_id =
    bounds ((key_prefix index table_name ++ (bound_min_tag ∷ [])) ++ be_bytes 4 index_id)

unfoldable pub all_index_bound : Bytes → Bytes × Bytes
unfolding key_prefix
all_index_bound table_name = bounds (key_prefix index table_name)

unfoldable pub root_table_bound : Bytes × Bytes
root_table_bound = bounds root_bytes

unfoldable pub columns_bound : Bytes → Bytes × Bytes
unfolding key_prefix
columns_bound table_name = bounds (key_prefix column table_name)

module _ {D : Type 0} where
  unfoldable pub encode_tuple_key : Bytes → DataValue D → Outcome TypeError Bytes
  unfolding key_prefix
  encode_tuple_key table_name tuple_id =
      to_primary_key tuple_id (key_prefix tuple table_name ++ (bound_min_tag ∷ []))

  -- The loop over the column values.
  unfoldable pub append_values : List (DataValue D) → Bytes → Outcome TypeError Bytes
  append_values [] key = ok key
  append_values (v ∷ vs) key = to_index_key v key >>= λ key'. append_values vs key'

  unfoldable pub encode_index_key : Bytes → Index D → Outcome TypeError Bytes
  unfolding key_prefix append_values
  encode_index_key name i =
      append_values i.column_values (
        ((key_prefix index name ++ (bound_min_tag ∷ [])) ++ be_bytes 4 i.id)
        ++ (bound_min_tag ∷ []))

unfoldable pub encode_root_table_key : Bytes → Bytes
unfolding key_prefix
encode_root_table_key table_name = key_prefix root table_name

unfoldable pub encode_root_table : Bytes → Outcome TypeError (Bytes × Bytes)
unfolding encode_root_table_key
encode_root_table table_name = ok (encode_root_table_key table_name, table_name)

unfoldable pub decode_root_table : Bytes → Outcome TypeError Bytes
decode_root_table bytes = if is_utf8 bytes then ok bytes else err from_utf8_error

module _ {D R : Type 0} (x : External D) where
  unfoldable pub encode_tuple : Bytes → Tuple D R → Outcome TypeError (Bytes × Bytes)
  unfolding encode_tuple_key
  encode_tuple table_name t = do
    tuple_id ← ok_or t.id primary_key_not_found
    key ← encode_tuple_key table_name tuple_id
    bytes ← serialize_to x t
    ok (key, bytes)

  unfoldable pub decode_tuple : List (ColumnCatalog D R) → Bytes → Outcome TypeError (Tuple D R)
  decode_tuple columns bytes = deserialize_from x columns bytes

module _ {D R : Type 0} (z : Bincode D R) where
  unfoldable pub encode_index_meta : Bytes → IndexMeta → Outcome TypeError (Bytes × Bytes)
  unfolding key_prefix
  encode_index_meta table_name meta = do
    bytes ← z.write_meta meta
    ok ((key_prefix index_meta table_name ++ (bound_min_tag ∷ [])) ++ be_bytes 4 meta.id, bytes)

  unfoldable pub decode_index_meta : Bytes → Outcome TypeError IndexMeta
  decode_index_meta bytes = z.read_meta bytes

  unfoldable pub encode_index :
      Bytes → Index D → List (DataValue D) → Outcome TypeError (Bytes × Bytes)
  unfolding encode_index_key
  encode_index name i tuple_ids = do
    key ← encode_index_key name i
    bytes ← z.write_ids tuple_ids
    ok (key, bytes)

  unfoldable pub decode_index : Bytes → Outcome TypeError (List (DataValue D))
  decode_index bytes = z.read_ids bytes

  -- A column without an id panics.
  unfoldable pub encode_column : Bytes → ColumnCatalog D R → Outcome TypeError (Bytes × Bytes)
  unfolding key_prefix
  encode_column table_name col = do
    bytes ← z.write_column col
    elim col.summary.id [
      | none ↦ panic
      | some id ↦
          ok ((key_prefix column table_name ++ (bound_min_tag ∷ [])) ++ be_bytes 4 id, bytes)
    ]

  unfoldable pub decode_column : Bytes → Outcome TypeError (ColumnCatalog D R)
  decode_column bytes = z.read_column bytes
