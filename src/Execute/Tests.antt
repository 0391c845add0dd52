-- ===== src/Execute/Tests.antt =====
-- The executors of src/execution/executor/dql on concrete rows.
use kip_sql.Prelude.{◌≡◌, ◌⊎◌, ℕ, true, some, none, List, Option, [], ◌∷◌, map, arith, All}
use kip_sql.Prelude.Int.{ℤ, pos, negsuc}
use kip_sql.Prelude.Outcome.{ok}
use kip_sql.Types.{TypeError}
use kip_sql.Value.{DataValue, int32, is_null}
use kip_sql.Value.Plain.{plain}
use kip_sql.Compute.Plain.{machine}
use kip_sql.Range.Merge.{Any}
use kip_sql.Execute.{execute_limit, eliminate_limits}
use kip_sql.Execute.LimitLaws.{execute_limit_lem, eliminate_limits_lem}
use kip_sql.Execute.Aggregates.{count_update, min_max_update, min_max_operator, feed}
use kip_sql.Execute.AggregateLaws.{count_update_lem, min_max_update_lem, UpTo, embed}

abbrev rows : List ℕ
rows = 10 ∷ 11 ∷ 12 ∷ 13 ∷ 14 ∷ []

execute_limit_lem_example :
    execute_limit {E = TypeError} (record { offset = some 1; limit = some 2 }) (map ok rows)
    ≡ map ok (11 ∷ 12 ∷ [])
execute_limit_lem_example =
    execute_limit_lem (record { offset = some 1; limit = some 2 }) rows (omega arith)

eliminate_limits_lem_example :
    execute_limit {E = TypeError}
      (record { offset = none; limit = some 2 })
      (execute_limit (record { offset = some 1; limit = some 3 }) (map ok rows))
    ≡ execute_limit
        (eliminate_limits
          (record { offset = none; limit = some 2 })
          (record { offset = some 1; limit = some 3 }))
        (map ok rows)
eliminate_limits_lem_example = eliminate_limits_lem 2 3 (some 1) rows (omega arith) (omega arith)

abbrev numbers : List (Option ℤ)
numbers = some (pos 3) ∷ none ∷ some (negsuc 4) ∷ some (pos 8) ∷ []

abbrev values : List (DataValue Unit)
values = map int32 numbers

count_update_lem_example :
    feed plain machine (λ s v. ok (count_update plain machine s v)) (pos 0) values ≡ ok (pos 3)
unfolding is_null
count_update_lem_example = count_update_lem plain machine values (omega arith)

min_max_update_lem_example :
    (best : Option ℤ) × (feed plain machine
        (min_max_update plain machine (min_max_operator plain machine true))
        none
        values
      ≡ ok (embed best))
    × All (UpTo true best) numbers
    × ((best ≡ none) ⊎ Any (λ o. best ≡ o) numbers)
min_max_update_lem_example = min_max_update_lem plain machine true numbers
