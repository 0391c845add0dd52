-- ===== src/Execute/Join.antt =====
-- src/execution/executor/dql/join: the hash join. The hash of a list of values is an argument. The hash
-- map of the left rows is a list, in the order in which the hashes were first met.
pub mod Phases
pub mod NestedLoop
mod Tests
use kip_sql.Prelude.{
  ℕ, zero, suc, ◌+◌, ◌-◌, Bool, true, false, Option, none, some, List, [], ◌∷◌, ◌++◌, map, length,
  get_elem?, set, take, drop, ltb, ◌==◌, if◌then◌else◌,
}
use kip_sql.Prelude.Outcome.{Outcome, ok, err, panic, ◌>>=◌}
use kip_sql.Types.{TypeError}
use kip_sql.Value.{DataValue, External, boolean, none_of}
use kip_sql.Catalog.{ColumnCatalog, datatype}
use kip_sql.Compute.{Machine}
use kip_sql.Expression.{Expr}
use kip_sql.Expression.Eval.{eval}
use kip_sql.Store.{convert}
use kip_sql.Store.Scans.{project_values}
use kip_sql.Execute.Query.{ExecutorError, type_error, Row, Stream, scalar}
use kip_sql.Execute.Groups.{failed}
use kip_sql.Optimizer.{JoinType, inner, left, right, full, cross}

pub data JoinCondition (D : Type 0) : Type 0 where
  on_keys : List (Expr D × Expr D) → Option (Expr D) → JoinCondition D
  no_condition : JoinCondition D

-- Which sides a join makes nullable.
unfoldable pub joins_nullable : JoinType → Bool × Bool
joins_nullable inner = (false, false)
joins_nullable left = (false, true)
joins_nullable right = (true, false)
joins_nullable full = (true, true)
joins_nullable cross = (true, true)

abbrev pub is_filtered : JoinType → Bool
is_filtered full = false
is_filtered cross = false
is_filtered _ = true

abbrev pub keeps_left : JoinType → Bool
keeps_left left = true
keeps_left full = true
keeps_left _ = false

module _ {D : Type 0} where
  abbrev pub forced : Bool → ColumnCatalog D (Expr D) → ColumnCatalog D (Expr D)
  forced force_nullable col = record col { nullable = force_nullable }

  unfoldable pub columns_filling :
      Row D → List (ColumnCatalog D (Expr D)) → Bool → List (ColumnCatalog D (Expr D))
  columns_filling tuple join_columns force_nullable =
      join_columns ++ map (forced force_nullable) tuple.columns

  -- `left_map.entry(hash).or_insert(Vec::new()).push(tuple)`.
  unfoldable pub push_tuple : ℕ → Row D → List (ℕ × List (Row D)) → List (ℕ × List (Row D))
  push_tuple hash tuple [] = (hash, tuple ∷ []) ∷ []
  push_tuple hash tuple ((hash', tuples) ∷ left_map) =
      let rest = push_tuple hash tuple left_map in
      if hash' == hash then (hash', tuples ++ (tuple ∷ [])) ∷ left_map else (hash', tuples) ∷ rest

  unfoldable pub get_tuples : List (ℕ × List (Row D)) → ℕ → Option (List (Row D))
  get_tuples [] hash = none
  get_tuples ((hash', tuples) ∷ left_map) hash =
      let rest = get_tuples left_map hash in if hash' == hash then some tuples else rest

  -- A null of the type of each column.
  unfoldable pub nulls_of : List (ColumnCatalog D (Expr D)) → Outcome TypeError (List (DataValue D))
  unfolding none_of
  nulls_of [] = ok []
  nulls_of (col ∷ cols) = none_of (datatype col) >>= λ v. nulls_of cols >>= λ vs. ok (v ∷ vs)

  abbrev pub joined : List (ColumnCatalog D (Expr D)) → Row D → Row D → Row D
  joined join_columns tuple l = record {
    id = none;
    columns = join_columns;
    values = l.values ++ tuple.values;
  }

  -- The row without a partner; its left side has the columns in front of its own.
  unfoldable pub right_only :
      List (ColumnCatalog D (Expr D)) → Row D → Outcome TypeError (List (Row D))
  unfolding nulls_of
  right_only join_columns tuple =
      if ltb (length join_columns) (length tuple.columns)
      then panic
      else (nulls_of (take (length join_columns - length tuple.columns) join_columns) >>= λ vs.
          ok (record { id = none; columns = join_columns; values = vs ++ tuple.values } ∷ []))

  unfoldable pub join_tuples :
      JoinType
      → List (ColumnCatalog D (Expr D))
      → Option (List (Row D))
      → Row D
      → Outcome TypeError (List (Row D))
  join_tuples ty join_columns (some tuples) tuple = ok (map (joined join_columns tuple) tuples)
  join_tuples right join_columns none tuple = right_only join_columns tuple
  join_tuples full join_columns none tuple = right_only join_columns tuple
  join_tuples _ join_columns none tuple = ok []

  -- The values from the i-th on, `count` of them, become null.
  unfoldable pub set_nulls :
      ℕ
      → ℕ
      → List (ColumnCatalog D (Expr D))
      → List (DataValue D)
      → Outcome TypeError (List (DataValue D))
  unfolding none_of
  set_nulls zero i cols values = ok values
  set_nulls (suc count) i cols values = elim (get_elem? cols i) [
    | none ↦ panic
    | some col ↦ none_of (datatype col) >>= λ v.
        if ltb i (length values) then set_nulls count (suc i) cols (set values i v) else panic
  ]

  -- What is left of a pair on which the condition is not true.
  unfoldable pub rejected : JoinType → ℕ → Row D → Outcome TypeError (List (Row D))
  unfolding set_nulls
  rejected left right_cols_len tuple =
      set_nulls right_cols_len (length tuple.columns - right_cols_len) tuple.columns tuple.values
      >>= λ vs. ok (record tuple { values = vs } ∷ [])
  rejected right right_cols_len tuple =
      set_nulls (length tuple.columns - right_cols_len) 0 tuple.columns tuple.values >>= λ vs.
      ok (record tuple { values = vs } ∷ [])
  rejected _ right_cols_len tuple = ok []

  unfoldable pub judged : JoinType → ℕ → Row D → DataValue D → Outcome TypeError (List (Row D))
  unfolding rejected
  judged ty right_cols_len tuple (boolean (some true)) = ok (tuple ∷ [])
  judged ty right_cols_len tuple (boolean _) = rejected ty right_cols_len tuple
  judged ty right_cols_len tuple _ = panic

-- What the probe phase changes.
pub record Probe (D : Type 0) : Type 0 where
  pub join_columns : List (ColumnCatalog D (Expr D))
  pub right_init_flag : Bool
  pub used_set : List ℕ

abbrev pub contains : List ℕ → ℕ → Bool
contains [] h = false
contains (h' ∷ hs) h = if h' == h then true else contains hs h

abbrev pub used : {D : Type 0} → Option (List (Row D)) → ℕ → List ℕ → List ℕ
used none hash used_set = used_set
used (some tuples) hash used_set = if contains used_set hash then used_set else hash ∷ used_set
