-- ===== src/Execute/Aggregates.antt =====
-- src/execution/executor/dql/aggregate: the accumulators, their state passed explicitly. The count
-- is an `i32` that wraps around.
use kip_sql.Prelude.{
  ℕ, ◌+◌, ◌%◌, ◌^◌, Bool, true, false, Option, none, some, List, [], ◌∷◌, length, if◌then◌else◌,
}
use kip_sql.Prelude.Int.{ℤ, pos, of_bits, ◌+ℤ◌}
use kip_sql.Prelude.Outcome.{Outcome, ok, panic, ◌>>=◌}
use kip_sql.Types.{LogicalType, TypeError, is_numeric, is_signed_numeric}
use kip_sql.Value.{
  DataValue, boolean, int32, int64, u_int32, External, is_null, none_of, init, value_eq,
  logical_type,
}
use kip_sql.Compute.{Machine, wrapped}
use kip_sql.Compute.Binary.{BinaryOperator, plus, divide, lt, gt, binary_op}

-- `DistinctSumAccumulator`.
pub record DistinctSum (D : Type 0) : Type 0 where
  pub distinct_values : List (DataValue D)
  pub inner : DataValue D

-- `AvgAccumulator`; its `count` is a `usize`.
pub record Avg (D : Type 0) : Type 0 where
  pub sum : DataValue D
  pub count : ℕ

module _ {D : Type 0} (x : External D) (m : Machine D) where
  -- `CountAccumulator`; its state is `result`.
  unfoldable pub count_update : ℤ → DataValue D → ℤ
  count_update result value = if is_null value then result else wrapped (2 ^ 31) (result +ℤ pos 1)

  abbrev pub count_evaluate : ℤ → DataValue D
  count_evaluate result = int32 (some result)

  -- `HashSet::insert`, on a list without duplicates.
  abbrev pub contains : List (DataValue D) → DataValue D → Bool
  contains [] v = false
  contains (w ∷ ws) v = if value_eq x w v then true else contains ws v

  abbrev pub insert_value : List (DataValue D) → DataValue D → List (DataValue D)
  insert_value ws v = if contains ws v then ws else v ∷ ws

  -- `DistinctCountAccumulator`; its state is `distinct_values`.
  unfoldable pub distinct_count_update : List (DataValue D) → DataValue D → List (DataValue D)
  distinct_count_update values value = if is_null value then values else insert_value values value

  abbrev pub distinct_count_evaluate : List (DataValue D) → DataValue D
  distinct_count_evaluate values = int32 (some (of_bits (2 ^ 31) (length values % 2 ^ 32)))

  -- `SumAccumulator`; its state is `result`. The assertion panics.
  unfoldable pub sum_new : LogicalType → Outcome TypeError (DataValue D)
  sum_new ty = if is_numeric ty then init x ty else panic

  unfoldable pub sum_update : DataValue D → DataValue D → Outcome TypeError (DataValue D)
  sum_update result value = if is_null value then ok result else binary_op m result value plus

  unfoldable pub distinct_sum_update :
      DistinctSum D → DataValue D → Outcome TypeError (DistinctSum D)
  unfolding sum_update
  distinct_sum_update s value =
      if contains s.distinct_values value
      then ok s
      else (sum_update s.inner value >>= λ result.
          ok (record { distinct_values = value ∷ s.distinct_values; inner = result }))

  -- `MinMaxAccumulator`; its state is `inner`.
  abbrev pub min_max_operator : Bool → BinaryOperator
  min_max_operator is_max = if is_max then lt else gt

  abbrev pub replaced :
      DataValue D → DataValue D → DataValue D → Outcome TypeError (Option (DataValue D))
  replaced inner value (boolean (some result)) = ok (if result then some value else some inner)
  replaced inner value _ = panic

  abbrev pub min_max_taken :
      BinaryOperator → Option (DataValue D) → DataValue D → Outcome TypeError (Option (DataValue D))
  min_max_taken op none value = ok (some value)
  min_max_taken op (some inner) value = binary_op m inner value op >>= λ r. replaced inner value r

  unfoldable pub min_max_update :
      BinaryOperator → Option (DataValue D) → DataValue D → Outcome TypeError (Option (DataValue D))
  min_max_update op inner value = if is_null value then ok inner else min_max_taken op inner value

  abbrev pub min_max_evaluate : LogicalType → Option (DataValue D) → Outcome TypeError (DataValue D)
  min_max_evaluate ty none = none_of ty
  min_max_evaluate ty (some value) = ok value

  unfoldable pub avg_update : Avg D → DataValue D → Outcome TypeError (Avg D)
  unfolding sum_update
  avg_update s value =
      if is_null value
      then ok s
      else (sum_update s.sum value >>= λ sum.
          ok (record { sum = sum; count = (s.count + 1) % 2 ^ 64 }))

  unfoldable pub avg_evaluate : Avg D → Outcome TypeError (DataValue D)
  avg_evaluate s =
      binary_op m s.sum
        (if is_signed_numeric (logical_type s.sum)
          then int64 (some (of_bits (2 ^ 63) (s.count % 2 ^ 64)))
          else u_int32 (some (s.count % 2 ^ 32)))
        divide

  -- The rows fed to an accumulator one after the other.
  unfoldable pub feed :
      {S : Type 0}
      → (S → DataValue D → Outcome TypeError S)
      → S
      → List (DataValue D)
      → Outcome TypeError S
  feed update s [] = ok s
  feed update s (v ∷ vs) = update s v >>= λ s'. feed update s' vs
