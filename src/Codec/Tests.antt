-- ===== src/Codec/Tests.antt =====
-- src/storage/table_codec.rs on the key of a row of the table "t".
use kip_sql.Prelude.{◌≡◌, ◌⊎◌, refl, some, [], ◌∷◌, arith}
use kip_sql.Prelude.Bytes.{Bytes, be_bytes}
use kip_sql.Prelude.Outcome.{panic}
use kip_sql.Value.{u_int8}
use kip_sql.Codec.{tuple, root, Bincode, encode_tuple_key}
use kip_sql.Codec.Prefix.{InBound}
use kip_sql.Codec.Isolation.{StoredKey, tuple_key, bound_of, StoredKey-InBound, StoredKey-isolated}
use kip_sql.Value.Key.{to_primary_key}

abbrev no_bincode : Bincode Unit Unit
no_bincode = record {
  write_meta = λ m. panic;
  read_meta = λ b. panic;
  write_ids = λ m. panic;
  read_ids = λ b. panic;
  write_column = λ m. panic;
  read_column = λ b. panic;
}

abbrev table : Bytes
table = 116 ∷ []

abbrev row_key : Bytes
row_key = 116 ∷ 51 ∷ 0 ∷ 9 ∷ []

row_key-StoredKey : StoredKey no_bincode tuple table row_key
unfolding encode_tuple_key to_primary_key be_bytes
row_key-StoredKey = tuple_key table (u_int8 (some 9)) refl

StoredKey-InBound_example : InBound (bound_of tuple table) row_key
StoredKey-InBound_example = StoredKey-InBound no_bincode tuple table row_key row_key-StoredKey

StoredKey-isolated_example : (tuple ≡ tuple) × ((tuple ≡ root) ⊎ (table ≡ table))
StoredKey-isolated_example =
    StoredKey-isolated no_bincode tuple tuple table table row_key (omega arith, tt)
      (omega arith, tt) row_key-StoredKey
      (StoredKey-InBound no_bincode tuple table row_key row_key-StoredKey)
