-- ===== src/Execute/Groups.antt =====
-- src/execution/executor/dql/aggregate: mod.rs, simple_agg.rs and hash_agg.rs. The hash map of the groups
-- is a list of keys and accumulators, in the order in which the keys were first met.
pub mod Bags
pub mod Fusion
mod Tests
pub mod Single
use kip_sql.Prelude.{
  ℕ, Bool, true, false, ◌&&◌, Option, none, some, List, [], ◌∷◌, ◌++◌, if◌then◌else◌,
}
use kip_sql.Prelude.Int.{ℤ, pos}
use kip_sql.Prelude.Outcome.{Outcome, ok, err, panic, ◌>>=◌}
use kip_sql.Types.{LogicalType, TypeError}
use kip_sql.Value.{DataValue, External, value_eq}
use kip_sql.Compute.{Machine}
use kip_sql.Compute.Binary.{BinaryOperator}
use kip_sql.Expression.{Expr, agg_call, AggKind, cons, nil}
use kip_sql.Expression.Eval.{eval}
use kip_sql.Store.{convert}
use kip_sql.Store.Scans.{project_values, project_columns}
use kip_sql.Execute.Query.{ExecutorError, type_error, Row, Stream, scalar}
use kip_sql.Execute.Aggregates.{
  count_update, count_evaluate, distinct_count_update, distinct_count_evaluate, sum_new, sum_update,
  DistinctSum, distinct_sum_update, min_max_operator, min_max_update, min_max_evaluate, Avg,
  avg_update, avg_evaluate,
}

-- `dyn Accumulator`, by its implementations, with their states.
pub data Accumulator (D : Type 0) : Type 0 where
  count_acc : ℤ → Accumulator D
  distinct_count_acc : List (DataValue D) → Accumulator D
  sum_acc : DataValue D → Accumulator D
  distinct_sum_acc : DistinctSum D → Accumulator D
  min_max_acc : BinaryOperator → LogicalType → Option (DataValue D) → Accumulator D
  avg_acc : Avg D → Accumulator D

-- What comes of a result; a failure ends the stream.
abbrev pub failed : {K D A : Type 0} → Outcome (ExecutorError K) A → (A → Stream K D) → Stream K D
failed (ok a) f = f a
failed (err e) f = err e ∷ []
failed panic f = panic ∷ []

-- The keys of each group with its accumulators.
abbrev pub Groups : Type 0 → Type 0
Groups D = List (List (DataValue D) × List (Accumulator D))

module _ {D : Type 0} (x : External D) (m : Machine D) where
  unfoldable pub update_value : Accumulator D → DataValue D → Outcome TypeError (Accumulator D)
  unfolding count_update distinct_count_update sum_update distinct_sum_update min_max_update
      avg_update
  update_value (count_acc s) v = ok (count_acc (count_update x m s v))
  update_value (distinct_count_acc s) v = ok (distinct_count_acc (distinct_count_update x m s v))
  update_value (sum_acc s) v = sum_update x m s v >>= λ s'. ok (sum_acc s')
  update_value (distinct_sum_acc s) v =
      distinct_sum_update x m s v >>= λ s'. ok (distinct_sum_acc s')
  update_value (min_max_acc op ty s) v =
      min_max_update x m op s v >>= λ s'. ok (min_max_acc op ty s')
  update_value (avg_acc s) v = avg_update x m s v >>= λ s'. ok (avg_acc s')

  unfoldable pub evaluate : Accumulator D → Outcome TypeError (DataValue D)
  unfolding avg_evaluate
  evaluate (count_acc s) = ok (count_evaluate x m s)
  evaluate (distinct_count_acc s) = ok (distinct_count_evaluate x m s)
  evaluate (sum_acc s) = ok s
  evaluate (distinct_sum_acc s) = ok s.inner
  evaluate (min_max_acc op ty s) = min_max_evaluate x m ty s
  evaluate (avg_acc s) = avg_evaluate x m s

  -- A call of an expression that is no aggregate panics.
  unfoldable pub create_accumulator : Expr D → Outcome TypeError (Accumulator D)
  unfolding sum_new
  create_accumulator (agg_call false AggKind.count args ty) = ok (count_acc (pos 0))
  create_accumulator (agg_call true AggKind.count args ty) = ok (distinct_count_acc [])
  create_accumulator (agg_call false AggKind.sum args ty) = sum_new x m ty >>= λ s. ok (sum_acc s)
  create_accumulator (agg_call true AggKind.sum args ty) =
      sum_new x m ty >>= λ s. ok (distinct_sum_acc (record { distinct_values = []; inner = s }))
  create_accumulator (agg_call _ AggKind.min args ty) =
      ok (min_max_acc (min_max_operator x m false) ty none)
  create_accumulator (agg_call _ AggKind.max args ty) =
      ok (min_max_acc (min_max_operator x m true) ty none)
  create_accumulator (agg_call _ AggKind.avg args ty) =
      sum_new x m ty >>= λ s. ok (avg_acc (record { sum = s; count = 0 }))
  create_accumulator _ = panic

  unfoldable pub create_accumulators : List (Expr D) → Outcome TypeError (List (Accumulator D))
  unfolding create_accumulator
  create_accumulators [] = ok []
  create_accumulators (e ∷ es) =
      create_accumulator e >>= λ a. create_accumulators es >>= λ accs. ok (a ∷ accs)

  -- `args[0].eval(&tuple)` of an aggregate.
  unfoldable pub argument : Row D → Expr D → Outcome TypeError (DataValue D)
  unfolding eval
  argument t (agg_call _ _ (cons arg _) _) = eval x m t arg
  argument t _ = panic

  unfoldable pub arguments : Row D → List (Expr D) → Outcome TypeError (List (DataValue D))
  unfolding argument
  arguments t [] = ok []
  arguments t (e ∷ es) = argument t e >>= λ v. arguments t es >>= λ vs. ok (v ∷ vs)

  -- `zip_eq` panics on lists of unlike length.
  unfoldable pub update_all :
      List (Accumulator D) → List (DataValue D) → Outcome TypeError (List (Accumulator D))
  unfolding update_value
  update_all [] [] = ok []
  update_all (a ∷ accs) (v ∷ vs) =
      update_value a v >>= λ a'. update_all accs vs >>= λ accs'. ok (a' ∷ accs')
  update_all [] (v ∷ vs) = panic
  update_all (a ∷ accs) [] = panic

  unfoldable pub evaluate_all : List (Accumulator D) → Outcome TypeError (List (DataValue D))
  unfolding evaluate
  evaluate_all [] = ok []
  evaluate_all (a ∷ accs) = evaluate a >>= λ v. evaluate_all accs >>= λ vs. ok (v ∷ vs)

  -- The loop of `SimpleAggExecutor::_execute`, and whether a row came.
  unfoldable pub simple_loop :
      {K : Type 0}
      → List (Expr D)
      → List (Accumulator D)
      → Bool
      → Stream K D
      → Outcome (ExecutorError K) (List (Accumulator D) × Bool)
  unfolding arguments update_all
  simple_loop calls accs met [] = ok (accs, met)
  simple_loop calls accs met (ok t ∷ input) =
      convert type_error (arguments t calls >>= λ vs. update_all accs vs) >>= λ accs'.
      simple_loop calls accs' true input
  simple_loop calls accs met (err e ∷ input) = err e
  simple_loop calls accs met (panic ∷ input) = panic

  -- A row of the accumulators' values and of the keys of the group.
  abbrev pub group_row :
      {K : Type 0}
      → List (Expr D)
      → List (Expr D)
      → List (DataValue D)
      → List (Accumulator D)
      → Outcome (ExecutorError K) (Row D)
  unfolding evaluate_all
  group_row calls groupby keys accs = convert type_error (
      evaluate_all accs >>= λ vs. ok (record {
        id = none;
        columns = project_columns (scalar x m) (calls ++ groupby);
        values = vs ++ keys;
      }))

  -- The row of a query without groups; without any row there is none.
  abbrev pub simple_row : {K : Type 0} → List (Expr D) → List (Accumulator D) → Bool → Stream K D
  unfolding evaluate_all
  simple_row calls accs false = []
  simple_row calls accs true = failed (convert type_error (evaluate_all accs)) (λ vs.
      ok (record { id = none; columns = project_columns (scalar x m) calls; values = vs }) ∷ [])

  unfoldable pub execute_simple_agg : {K : Type 0} → List (Expr D) → Stream K D → Stream K D
  unfolding create_accumulators simple_loop
  execute_simple_agg calls input =
      failed
        (convert type_error (create_accumulators calls) >>= λ accs.
          simple_loop calls accs false input)
        (λ (accs, met). simple_row calls accs met)

  -- Equality of group keys.
  unfoldable pub same_keys : List (DataValue D) → List (DataValue D) → Bool
  unfolding value_eq
  same_keys [] [] = true
  same_keys (a ∷ xs) (b ∷ ys) = value_eq x a b && same_keys xs ys
  same_keys _ _ = false

  -- The entry of the key, created where there is none, is updated.
  unfoldable pub update_entry :
      List (Expr D)
      → List (DataValue D)
      → List (DataValue D)
      → Groups D
      → Outcome TypeError (Groups D)
  unfolding create_accumulators update_all same_keys
  update_entry calls keys vs [] =
      create_accumulators calls >>= λ accs. update_all accs vs >>= λ accs'. ok ((keys, accs') ∷ [])
  update_entry calls keys vs ((keys', accs) ∷ groups) =
      let rest = update_entry calls keys vs groups in
      if same_keys keys' keys
      then (update_all accs vs >>= λ accs'. ok ((keys', accs') ∷ groups))
      else (rest >>= λ groups'. ok ((keys', accs) ∷ groups'))

  -- The loop of `HashAggExecutor::_execute`.
  unfoldable pub hash_loop :
      {K : Type 0}
      → List (Expr D)
      → List (Expr D)
      → Groups D
      → Stream K D
      → Outcome (ExecutorError K) (Groups D)
  unfolding arguments update_entry project_values
  hash_loop calls groupby groups [] = ok groups
  hash_loop calls groupby groups (ok t ∷ input) =
      convert type_error (
        arguments t calls >>= λ vs.
        project_values (scalar x m) groupby t >>= λ keys. update_entry calls keys vs groups)
      >>= λ groups'. hash_loop calls groupby groups' input
  hash_loop calls groupby groups (err e ∷ input) = err e
  hash_loop calls groupby groups (panic ∷ input) = panic

  unfoldable pub group_rows : {K : Type 0} → List (Expr D) → List (Expr D) → Groups D → Stream K D
  group_rows calls groupby [] = []
  group_rows calls groupby ((keys, accs) ∷ groups) =
      failed (group_row calls groupby keys accs) (λ t. ok t ∷ group_rows calls groupby groups)

  unfoldable pub execute_hash_agg :
      {K : Type 0} → List (Expr D) → List (Expr D) → Stream K D → Stream K D
  unfolding hash_loop group_rows
  execute_hash_agg calls groupby input =
      failed (hash_loop calls groupby [] input) (group_rows calls groupby)
