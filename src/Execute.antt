-- ===== src/Execute.antt =====
-- Executors of src/execution/executor/dql over a stream of tuples, as the list of what the stream
-- yields: an error ends it. src/optimizer/rule/pushdown_limit.rs: two limits become one.
pub mod Join
pub mod Sort
pub mod Query
pub mod Groups
pub mod LimitLaws
pub mod Aggregates
pub mod AggregateLaws
mod Tests
use kip_sql.Prelude.{
  ℕ, zero, suc, ◌+◌, ◌-◌, ◌%◌, ◌^◌, Bool, true, false, ◌&&◌, Option, none, some, List, [], ◌∷◌, ltb,
  leb, ◌==◌, if◌then◌else◌,
}
use kip_sql.Prelude.Outcome.{Outcome, ok, err, panic}

pub record LimitOperator : Type 0 where
  pub offset : Option ℕ
  pub limit : Option ℕ

-- `Option::unwrap_or`.
abbrev pub unwrap_or : {A : Type 0} → Option A → A → A
unwrap_or none a = a
unwrap_or (some a) _ = a

-- `usize` arithmetic: `offset_val + limit.unwrap_or(1) - 1`.
abbrev pub offset_limit_of : ℕ → ℕ → ℕ
offset_limit_of offset_val limit_val = (offset_val + limit_val + (2 ^ 64 - 1)) % 2 ^ 64

module _ {E A : Type 0} where
  -- The loop of `Limit::_execute`, at the i-th tuple.
  unfoldable pub limit_loop : ℕ → ℕ → ℕ → List (Outcome E A) → List (Outcome E A)
  limit_loop i offset_val offset_limit [] = []
  limit_loop i offset_val offset_limit (ok tuple ∷ input) =
      let rest = limit_loop (suc i) offset_val offset_limit input in
      if ltb i offset_val then rest else if ltb offset_limit i then [] else ok tuple ∷ rest
  limit_loop i offset_val offset_limit (failed ∷ input) =
      let rest = limit_loop (suc i) offset_val offset_limit input in
      if ltb i offset_val then rest else if ltb offset_limit i then [] else failed ∷ []

  unfoldable pub execute_limit : LimitOperator → List (Outcome E A) → List (Outcome E A)
  unfolding limit_loop
  execute_limit op input =
      if unwrap_or op.limit 1 == 0
      then []
      else limit_loop 0 (unwrap_or op.offset 0)
          (offset_limit_of (unwrap_or op.offset 0) (unwrap_or op.limit 1)) input

-- `EliminateLimits::binary_options`.
unfoldable pub binary_options : Option ℕ → Option ℕ → (ℕ → ℕ → ℕ) → Option ℕ
binary_options (some a) (some b) f = some (f a b)
binary_options (some a) none f = some a
binary_options none (some b) f = some b
binary_options none none f = none

abbrev pub min : ℕ → ℕ → ℕ
min a b = if leb a b then a else b

-- What `EliminateLimits` makes of a limit and of the one below it.
unfoldable pub eliminate_limits : LimitOperator → LimitOperator → LimitOperator
unfolding binary_options
eliminate_limits op child_op = record {
  offset = binary_options op.offset child_op.offset (λ a b. a + b);
  limit = binary_options op.limit child_op.limit min;
}
