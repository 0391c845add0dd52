-- ===== src/Statement/Tables.antt =====
-- src/types/tuple_builder.rs: rows from texts. src/execution/executor/ddl and
-- src/execution/executor/show/show_table.rs: the statements on tables.
use kip_sql.Prelude.{
  ℕ, Bool, Option, none, some, List, [], ◌∷◌, ◌++◌, map, length, ◌==◌, if◌then◌else◌,
}
use kip_sql.Prelude.Bytes.{Bytes}
use kip_sql.Prelude.Outcome.{Outcome, ok, err, panic}
use kip_sql.Prelude.Outcome
use kip_sql.Types.{LogicalType, TypeError, primary_key_not_found}
use kip_sql.Value.{DataValue, External, utf8}
use kip_sql.Value.Cast.{Conversions, cast}
use kip_sql.Catalog.{ColumnCatalog, new_dummy}
use kip_sql.Tuple.{Tuple}
use kip_sql.Codec.{Bincode}
use kip_sql.Store.{Kv, Cache, ◌>>=◌, give}
use kip_sql.Store.Methods.{create_table, drop_table, drop_data}
use kip_sql.Store.Reads.{show_tables}
use kip_sql.Expression.Names.{bytes}
use kip_sql.Statement.{Run, storage}
use kip_sql.Statement.Insert.{value_of, unwrap}

pub record TupleBuilder (D R : Type 0) : Type 0 where
  pub data_types : List LogicalType
  pub data_values : List (DataValue D)
  pub columns : List (ColumnCatalog D R)

-- What the loop over the texts of a row has found: the values by the ids of their columns, and the id of
-- the first primary column.
pub record Cells (D : Type 0) : Type 0 where
  pub tuple_map : List (ℕ × DataValue D)
  pub primary : Option (Option ℕ)

module _ {D R : Type 0} where
  unfoldable pub push_result : Bytes → Bytes → Tuple D R
  unfolding new_dummy
  push_result header message = record {
    id = none;
    columns = new_dummy header ∷ [];
    values = utf8 (some message) ∷ [];
  }

  abbrev pub put_cell : ColumnCatalog D R → DataValue D → Cells D → Cells D
  put_cell col v c = record {
    tuple_map = elim col.summary.id [ none ↦ c.tuple_map | some id ↦ (id, v) ∷ c.tuple_map ];
    primary = elim c.primary [
      | some id ↦ some id
      | none ↦ if col.desc.is_primary then some col.summary.id else none
    ];
  }

module _ {D R : Type 0} (y : Conversions D) where
  -- The loop over the texts, with the values that it pushes.
  unfoldable pub push_cells :
      List LogicalType
      → List (ColumnCatalog D R)
      → List Bytes
      → List (DataValue D)
      → Cells D
      → Outcome TypeError (Cells D) × List (DataValue D)
  unfolding cast
  push_cells types cols [] values c = (ok c, values)
  push_cells [] cols (text ∷ row) values c = (panic, values)
  push_cells (ty ∷ types) cols (text ∷ row) values c = elim (cast y (utf8 (some text)) ty) [
    | err e ↦ (err e, values)
    | panic ↦ (panic, values)
    | ok v ↦ elim cols [
      | [] ↦ (panic, values ++ (v ∷ []))
      | col ∷ cols' ↦ push_cells types cols' row (values ++ (v ∷ [])) (put_cell col v c)
    ]
  ]

  abbrev pub built : TupleBuilder D R → Cells D → Outcome TypeError (Option (Tuple D R))
  unfolding value_of
  built b c =
      Outcome.◌>>=◌ (elim c.primary [ none ↦ err primary_key_not_found | some id ↦ unwrap id ])
        (λ primary.
          Outcome.◌>>=◌
            (elim (value_of c.tuple_map primary) [
              | none ↦ err primary_key_not_found
              | some v ↦ ok v
            ])
            (λ id. ok (
              if length b.data_values == length b.data_types
              then some (record { id = some id; columns = b.columns; values = b.data_values })
              else none)))

  -- The values of earlier rows stay in the builder.
  unfoldable pub push_str_row :
      List Bytes → TupleBuilder D R → Outcome TypeError (Option (Tuple D R)) × TupleBuilder D R
  unfolding push_cells built
  push_str_row row b =
      let (r, values) =
        push_cells b.data_types b.columns row b.data_values
          (record { tuple_map = []; primary = none }) in
      let b' : TupleBuilder D R = record b { data_values = values } in
      (Outcome.◌>>=◌ r (built b'), b')

module _ {S K C D R : Type 0} (kv : Kv S K) (cache : Cache C D R) (x : External D)
    (z : Bincode D R) where
  unfoldable pub execute_create_table :
      Bytes → List (ColumnCatalog D R) → Bool → Run S C K (List (Tuple D R))
  unfolding create_table push_result
  execute_create_table table_name columns if_not_exists =
      storage (create_table kv cache x z table_name columns if_not_exists) >>= λ _.
      give (push_result (bytes "CREATE TABLE SUCCESS") table_name ∷ [])

  unfoldable pub execute_drop_table : Bytes → Run S C K (Unit {0})
  unfolding drop_table
  execute_drop_table table_name = storage (drop_table kv cache x z table_name)

  unfoldable pub execute_truncate : Bytes → Run S C K (Unit {0})
  unfolding drop_data
  execute_truncate table_name = storage (drop_data kv cache x z table_name)

  unfoldable pub execute_show_tables : Run S C K (List (Tuple D R))
  unfolding show_tables push_result
  execute_show_tables = storage (show_tables kv cache z) >>= λ tables.
      give (map (λ table. push_result (bytes "TABLES") table) tables)
