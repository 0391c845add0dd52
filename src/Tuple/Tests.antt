-- ===== src/Tuple/Tests.antt =====
-- src/types/tuple.rs on a concrete row.
use kip_sql.Prelude.{◌≡◌, refl, some, none, [], ◌∷◌, true, false, arith}
use kip_sql.Prelude.Int.{pos}
use kip_sql.Prelude.Bytes.{Bytes}
use kip_sql.Prelude.Outcome.{ok}
use kip_sql.Types.{LogicalType}
use kip_sql.Catalog.{ColumnCatalog}
use kip_sql.Value.{int32, utf8}
use kip_sql.Value.Plain.{plain, plain-KeepsFixed}
use kip_sql.Tuple.{Tuple, serialize_to, deserialize_from}
use kip_sql.Tuple.RoundTrip.{deserialize_from-serialize_to}
use kip_sql.Prelude.Utf8.{is_utf8}
use kip_sql.Value.Raw.RoundTrip.{stored}

abbrev column : LogicalType → ColumnCatalog Unit Unit
column ty = record {
  summary = record { id = some 1; name = 99 ∷ [] };
  nullable = true;
  desc = record { column_datatype = ty; is_primary = true; is_unique = false; default = none };
  ref_expr = none;
}

-- A number, a null and a text.
abbrev row : Tuple Unit Unit
row = record {
  id = some (int32 (some (pos 7)));
  columns =
      column LogicalType.integer
      ∷ column (LogicalType.varchar none)
      ∷ column (LogicalType.varchar none)
      ∷ [];
  values = int32 (some (pos 7)) ∷ utf8 none ∷ utf8 (some (104 ∷ 105 ∷ [])) ∷ [];
}

deserialize_from-serialize_to_example :
    (bytes : Bytes) × (serialize_to plain row ≡ ok bytes)
    × (deserialize_from plain row.columns bytes
        ≡ ok (record {
          id = some (utf8 (some (104 ∷ 105 ∷ [])));
          columns = row.columns;
          values = row.values;
        }))
unfolding is_utf8 stored
deserialize_from-serialize_to_example =
    deserialize_from-serialize_to plain plain-KeepsFixed row
      (tt, omega arith, (tt, tt, (tt, (refl, omega arith), tt)))
