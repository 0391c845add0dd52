-- ===== src/Execute/Groups/Single.antt =====
-- src/execution/executor/dql/aggregate: aggregation without groups, as one group.
use kip_sql.Prelude.{◌≡◌, refl, ap, ◌∙◌, Bool, true, none, List, [], ◌∷◌, ◌++◌}
use kip_sql.Prelude.Outcome.{Outcome, ok, err, panic, ◌>>=◌}
use mathlib.Core.List.{append-nil}
use kip_sql.Types.{TypeError}
use kip_sql.Value.{DataValue, External}
use kip_sql.Compute.{Machine}
use kip_sql.Expression.{Expr}
use kip_sql.Store.{convert}
use kip_sql.Store.Scans.{project_values, project_columns}
use kip_sql.Execute.Query.{ExecutorError, type_error, Stream, scalar}
use kip_sql.Execute.Groups.{
  Accumulator, Groups, create_accumulators, arguments, update_all, update_entry, same_keys,
  simple_loop, hash_loop, simple_row, group_rows, failed, evaluate_all, execute_simple_agg,
  execute_hash_agg, group_row,
}

-- The one group of no key.
abbrev one : {D : Type 0} → List (Accumulator D) → Groups D
one accs = ([], accs) ∷ []

module _ {K D : Type 0} (x : External D) (m : Machine D) where
  abbrev grouped :
      Outcome (ExecutorError K) (List (Accumulator D) × Bool) → Outcome (ExecutorError K) (Groups D)
  grouped r = r >>= λ (accs, met). ok (one accs)

  updated :
      (r : Outcome TypeError (List (Accumulator D)))
      (k : Groups D → Outcome (ExecutorError K) (Groups D))
      (k' : List (Accumulator D) → Outcome (ExecutorError K) (List (Accumulator D) × Bool))
      → ((accs : List (Accumulator D)) → k (one accs) ≡ grouped (k' accs))
      → (convert type_error (r >>= λ accs. ok (one accs)) >>= k)
        ≡ grouped (convert type_error r >>= k')
  updated (ok accs) k k' h = h accs
  updated (err e) k k' h = refl
  updated panic k k' h = refl

  carried :
      (args : Outcome TypeError (List (DataValue D)))
      (update : List (DataValue D) → Outcome TypeError (List (Accumulator D)))
      (k : Groups D → Outcome (ExecutorError K) (Groups D))
      (k' : List (Accumulator D) → Outcome (ExecutorError K) (List (Accumulator D) × Bool))
      → ((accs : List (Accumulator D)) → k (one accs) ≡ grouped (k' accs))
      → (convert type_error (args >>= λ vs. update vs >>= λ accs. ok (one accs)) >>= k)
        ≡ grouped (convert type_error (args >>= update) >>= k')
  carried (err e) update k k' h = refl
  carried panic update k k' h = refl
  carried (ok vs) update k k' h = updated (update vs) k k' h

  loops_agree :
      (calls : List (Expr D)) (accs : List (Accumulator D)) (input : Stream K D)
      → hash_loop x m calls [] (one accs) input ≡ grouped (simple_loop x m calls accs true input)
  unfolding hash_loop simple_loop project_values update_entry same_keys
  loops_agree calls accs [] = refl
  loops_agree calls accs (ok t ∷ input) =
      carried (arguments x m t calls) (update_all x m accs)
        (λ groups. hash_loop x m calls [] groups input)
        (λ accs'. simple_loop x m calls accs' true input) (λ accs'. loops_agree calls accs' input)
  loops_agree calls accs (err e ∷ input) = refl
  loops_agree calls accs (panic ∷ input) = refl

  abbrev marked :
      Outcome (ExecutorError K) (List (Accumulator D) × Bool)
      → Outcome (ExecutorError K) (List (Accumulator D) × Bool)
  marked r = r >>= λ (accs, met). ok (accs, true)

  met_then :
      (r : Outcome (ExecutorError K) (List (Accumulator D)))
      (k : List (Accumulator D) → Outcome (ExecutorError K) (List (Accumulator D) × Bool))
      → ((accs : List (Accumulator D)) → k accs ≡ marked (k accs))
      → (r >>= k) ≡ marked (r >>= k)
  met_then (ok accs) k h = h accs
  met_then (err e) k h = refl
  met_then panic k h = refl

  loop_met :
      (calls : List (Expr D)) (accs : List (Accumulator D)) (input : Stream K D)
      → simple_loop x m calls accs true input ≡ marked (simple_loop x m calls accs true input)
  unfolding simple_loop
  loop_met calls accs [] = refl
  loop_met calls accs (ok t ∷ input) =
      met_then (convert type_error (arguments x m t calls >>= update_all x m accs))
        (λ accs'. simple_loop x m calls accs' true input) (λ accs'. loop_met calls accs' input)
  loop_met calls accs (err e ∷ input) = refl
  loop_met calls accs (panic ∷ input) = refl

  single_row :
      (calls : List (Expr D)) (vs : Outcome TypeError (List (DataValue D)))
      → failed {K = K} (convert type_error vs) (λ vs.
        ok (record { id = none; columns = project_columns (scalar x m) calls; values = vs }) ∷ [])
        ≡ failed
            (convert type_error (
              vs >>= λ vs. ok (record {
                id = none;
                columns = project_columns (scalar x m) (calls ++ []);
                values = vs ++ [];
              })))
            (λ t. ok t ∷ [])
  single_row calls (ok vs) = rw (append-nil calls, append-nil vs) refl
  single_row calls (err e) = refl
  single_row calls panic = refl

  rows_agree :
      (calls : List (Expr D)) (r : Outcome (ExecutorError K) (List (Accumulator D) × Bool))
      → failed (marked r) (λ p. simple_row x m calls p.0 p.1)
        ≡ failed (grouped r) (group_rows x m calls [])
  unfolding group_rows simple_row evaluate_all group_row
  rows_agree calls (ok (accs, met)) = single_row calls (evaluate_all x m accs)
  rows_agree calls (err e) = refl
  rows_agree calls panic = refl

  -- Where the accumulators can be created, an aggregation without groups yields what an aggregation
  -- yields that groups by no expression.
  pub execute_simple_agg-execute_hash_agg :
      (calls : List (Expr D)) (accs : List (Accumulator D)) (input : Stream K D)
      → create_accumulators x m calls ≡ ok accs
      → execute_simple_agg x m calls input ≡ execute_hash_agg x m calls [] input
  unfolding execute_simple_agg execute_hash_agg hash_loop simple_loop project_values update_entry
      simple_row
  execute_simple_agg-execute_hash_agg calls accs [] h = rw h refl
  execute_simple_agg-execute_hash_agg calls accs (ok t ∷ input) h =
      let r = convert type_error (arguments x m t calls >>= update_all x m accs) >>= λ accs'.
      simple_loop x m calls accs' true input in
      rw
        (
          h,
          carried (arguments x m t calls) (update_all x m accs)
              (λ groups. hash_loop x m calls [] groups input)
              (λ accs'. simple_loop x m calls accs' true input)
              (λ accs'. loops_agree calls accs' input),
        )
        (ap (λ o. failed o (λ p. simple_row x m calls p.0 p.1))
            (met_then (convert type_error (arguments x m t calls >>= update_all x m accs))
              (λ accs'. simple_loop x m calls accs' true input)
              (λ accs'. loop_met calls accs' input))
          ∙ rows_agree calls r)
  execute_simple_agg-execute_hash_agg calls accs (err e ∷ input) h = rw h refl
  execute_simple_agg-execute_hash_agg calls accs (panic ∷ input) h = rw h refl
