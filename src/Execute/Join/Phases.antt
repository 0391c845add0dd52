-- ===== src/Execute/Join/Phases.antt =====
-- src/execution/executor/dql/join/hash_join.rs: the build phase, the probe phase, and the left rows that
-- found no partner.
use kip_sql.Prelude.{
  ℕ, Bool, true, false, Option, none, some, List, [], ◌∷◌, ◌++◌, map, length, drop, ltb,
  if◌then◌else◌,
}
use kip_sql.Prelude.Outcome.{Outcome, ok, err, panic, ◌>>=◌}
use kip_sql.Types.{TypeError}
use kip_sql.Value.{DataValue, External}
use kip_sql.Catalog.{ColumnCatalog}
use kip_sql.Compute.{Machine}
use kip_sql.Expression.{Expr}
use kip_sql.Expression.Eval.{eval}
use kip_sql.Store.{convert}
use kip_sql.Store.Scans.{project_values}
use kip_sql.Execute.Query.{ExecutorError, type_error, Row, Stream, scalar}
use kip_sql.Execute.Groups.{failed}
use kip_sql.Optimizer.{JoinType, cross}
use kip_sql.Execute.Join.{
  JoinCondition, on_keys, no_condition, joins_nullable, is_filtered, keeps_left, columns_filling,
  push_tuple, get_tuples, nulls_of, join_tuples, judged, Probe, contains, used,
}

module _ {D : Type 0} (hash_one : List (DataValue D) → ℕ) (x : External D) (m : Machine D) where
  unfoldable pub hash_row : List (Expr D) → Row D → Outcome TypeError ℕ
  unfolding project_values
  hash_row keys tuple = project_values (scalar x m) keys tuple >>= λ vs. ok (hash_one vs)

  -- The build phase: the hash map and the columns of the left side.
  unfoldable pub build_loop :
      {K : Type 0}
      → List (Expr D)
      → Bool
      → List (ℕ × List (Row D))
      → List (ColumnCatalog D (Expr D))
      → Bool
      → Stream K D
      → Outcome (ExecutorError K) (List (ℕ × List (Row D)) × List (ColumnCatalog D (Expr D)))
  unfolding hash_row push_tuple columns_filling
  build_loop keys nullable left_map cols init [] = ok (left_map, cols)
  build_loop keys nullable left_map cols init (ok t ∷ input) =
      convert type_error (hash_row keys t) >>= λ hash.
      build_loop keys nullable (push_tuple hash t left_map)
        (if init then cols else columns_filling t cols nullable) true input
  build_loop keys nullable left_map cols init (err e ∷ input) = err e
  build_loop keys nullable left_map cols init (panic ∷ input) = panic

  -- The condition of the join on the joined rows.
  unfoldable pub on_filter : JoinType → Expr D → ℕ → List (Row D) → Outcome TypeError (List (Row D))
  unfolding eval
  on_filter ty expr right_cols_len [] = ok []
  on_filter ty expr right_cols_len (tuple ∷ tuples) = eval x m tuple expr >>= λ v.
      judged ty right_cols_len tuple v >>= λ kept.
      on_filter ty expr right_cols_len tuples >>= λ rest. ok (kept ++ rest)

  unfoldable pub on_filtered :
      JoinType → Option (Expr D) → ℕ → List (Row D) → Outcome TypeError (List (Row D))
  unfolding on_filter
  on_filtered ty none right_cols_len tuples = ok tuples
  on_filtered ty (some expr) right_cols_len tuples =
      if is_filtered ty then on_filter ty expr right_cols_len tuples else ok tuples

  -- The rows that a right row gives.
  unfoldable pub probe :
      List (Expr D)
      → JoinType
      → Option (Expr D)
      → List (ℕ × List (Row D))
      → Probe D
      → Row D
      → Outcome TypeError (List (Row D) × Probe D)
  unfolding hash_row columns_filling get_tuples join_tuples joins_nullable on_filtered
  probe keys ty filter left_map p tuple = hash_row keys tuple >>= λ hash.
      let cols =
        if p.right_init_flag
        then p.join_columns
        else columns_filling tuple p.join_columns (joins_nullable ty).1 in
      let found = get_tuples left_map hash in
      join_tuples ty cols found tuple >>= λ tuples.
      on_filtered ty filter (length tuple.columns) tuples >>= λ rows. ok (
        rows,
        record {
          join_columns = cols;
          right_init_flag = true;
          used_set = used found hash p.used_set;
        },
      )

  -- A left row without a partner.
  unfoldable pub left_only : List (ColumnCatalog D (Expr D)) → Row D → Outcome TypeError (Row D)
  unfolding nulls_of
  left_only join_columns tuple =
      if ltb (length join_columns) (length tuple.columns)
      then panic
      else (nulls_of (drop (length tuple.columns) join_columns) >>= λ vs.
          ok (record { id = none; columns = join_columns; values = tuple.values ++ vs }))

  unfoldable pub left_rows :
      {K : Type 0} → List (ColumnCatalog D (Expr D)) → List (Row D) → Stream K D → Stream K D
  left_rows join_columns [] rest = rest
  left_rows join_columns (tuple ∷ tuples) rest =
      failed (convert type_error (left_only join_columns tuple))
        (λ row. ok row ∷ left_rows join_columns tuples rest)

  unfoldable pub unused_rows : {K : Type 0} → Probe D → List (ℕ × List (Row D)) → Stream K D
  unfolding left_rows
  unused_rows p [] = []
  unused_rows p ((hash, tuples) ∷ left_map) =
      let rest = unused_rows p left_map in
      if contains p.used_set hash then rest else left_rows p.join_columns tuples rest

  -- The probe phase, and the left rows behind it.
  unfoldable pub probe_loop :
      {K : Type 0}
      → List (Expr D)
      → JoinType
      → Option (Expr D)
      → List (ℕ × List (Row D))
      → Probe D
      → Stream K D
      → Stream K D
  unfolding probe unused_rows
  probe_loop keys ty filter left_map p [] = if keeps_left ty then unused_rows p left_map else []
  probe_loop keys ty filter left_map p (ok tuple ∷ input) =
      failed (convert type_error (probe keys ty filter left_map p tuple))
        (λ (rows, p'). map ok rows ++ probe_loop keys ty filter left_map p' input)
  probe_loop keys ty filter left_map p (err e ∷ input) = err e ∷ []
  probe_loop keys ty filter left_map p (panic ∷ input) = panic ∷ []

  unfoldable pub join_on :
      {K : Type 0}
      → JoinType
      → List (Expr D × Expr D)
      → Option (Expr D)
      → Stream K D
      → Stream K D
      → Stream K D
  unfolding build_loop probe_loop joins_nullable
  join_on ty on filter left_input right_input =
      failed (build_loop (map (λ k. k.0) on) (joins_nullable ty).0 [] [] false left_input)
        (λ (left_map, cols).
          probe_loop (map (λ k. k.1) on) ty filter left_map
            (record { join_columns = cols; right_init_flag = false; used_set = [] }) right_input)

  unfoldable pub execute_hash_join :
      {K : Type 0} → JoinCondition D → JoinType → Stream K D → Stream K D → Stream K D
  unfolding join_on
  execute_hash_join on cross left_input right_input = panic ∷ []
  execute_hash_join no_condition ty left_input right_input = panic ∷ []
  execute_hash_join (on_keys on filter) ty left_input right_input =
      join_on ty on filter left_input right_input
