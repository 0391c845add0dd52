-- ===== src/Execute/LimitLaws.antt =====
-- `Limit` of src/execution/executor/dql/limit.rs, and `EliminateLimits` of
-- src/optimizer/rule/pushdown_limit.rs.
use kip_sql.Prelude.{
  ℕ, zero, suc, ◌+◌, ◌-◌, ◌^◌, ◌≤◌, ◌<◌, ◌≡◌, refl, sym, ap, ◌∙◌, false, Option, none, some, List,
  [], ◌∷◌, map, arith, take, drop, ltb, ◌==◌, Bool-cases, inl, inr,
}
use kip_sql.Prelude.Outcome.{ok}
use kip_sql.Execute.{
  LimitOperator, limit_loop, execute_limit, unwrap_or, offset_limit_of, eliminate_limits,
  binary_options, min,
}

module _ {A : Type 0} where
  take-nil : (n : ℕ) → take {A = A} n [] ≡ []
  take-nil zero = refl
  take-nil (suc n) = refl

  drop-nil : (n : ℕ) → drop {A = A} n [] ≡ []
  drop-nil zero = refl
  drop-nil (suc n) = refl

  take-take : (n m : ℕ) (rows : List A) → take n (take m rows) ≡ take (min n m) rows
  take-take zero m rows = let e : min 0 m ≡ 0 = ground arith in rw e refl
  take-take (suc n) zero rows = let e : min (suc n) 0 ≡ 0 = ground arith in rw e refl
  take-take (suc n) (suc m) [] = rw (take-nil (min (suc n) (suc m))) refl
  take-take (suc n) (suc m) (r ∷ rows) =
      let e : min (suc n) (suc m) ≡ suc (min n m) = ground arith in
      rw e (ap (r ∷◌) (take-take n m rows))

sub_zero : (n : ℕ) → n - 0 ≡ n
sub_zero n = omega arith

module _ {E A : Type 0} where
  limit_loop-take :
      (i offset_val last : ℕ) (rows : List A)
      → offset_val ≤ i
      → limit_loop {E = E} i offset_val last (map ok rows) ≡ map ok (take (suc last - i) rows)
  unfolding limit_loop
  limit_loop-take i o last [] h = rw (take-nil {A = A} (suc last - i)) refl
  limit_loop-take i o last (r ∷ rows) h =
      let started : ltb i o ≡ false = ground arith in
      elim (Bool-cases (ltb last i)) [
        | inl over ↦
            let none_left : suc last - i ≡ 0 = ground arith in rw (started, over, none_left) refl
        | inr more ↦
            let one : suc last - i ≡ suc (suc last - suc i) = ground arith in
            rw (started, more, one)
              (ap (ok r ∷◌) (limit_loop-take (suc i) o last rows (omega arith)))
      ]

  limit_loop-drop :
      (i offset_val last : ℕ) (rows : List A)
      → i ≤ offset_val
      → limit_loop {E = E} i offset_val last (map ok rows)
        ≡ map ok (take (suc last - offset_val) (drop (offset_val - i) rows))
  unfolding limit_loop
  limit_loop-drop i o last [] h =
      rw (drop-nil {A = A} (o - i), take-nil {A = A} (suc last - o)) refl
  limit_loop-drop i o last (r ∷ rows) h = elim (Bool-cases (ltb i o)) [
    | inl before ↦
        let one : o - i ≡ suc (o - suc i) = ground arith in
        rw (before, one) (limit_loop-drop (suc i) o last rows (ground arith))
    | inr started ↦
        let here : o - i ≡ 0 = ground arith in
        let same : suc last - o ≡ suc last - i = ground arith in
        rw (here, same) (limit_loop-take i o last (r ∷ rows) (ground arith))
  ]

  -- On rows without an error, where the sum of offset and limit fits a `usize`, the executor yields
  -- the rows after the offset, as many as the limit says, and one if there is no limit.
  pub execute_limit_lem :
      (op : LimitOperator) (rows : List A)
      → unwrap_or op.offset 0 + unwrap_or op.limit 1 < 2 ^ 64
      → execute_limit {E = E} op (map ok rows)
        ≡ map ok (take (unwrap_or op.limit 1) (drop (unwrap_or op.offset 0) rows))
  unfolding execute_limit
  execute_limit_lem op rows h =
      let o = unwrap_or op.offset 0 in
      let n = unwrap_or op.limit 1 in
      elim (Bool-cases (n == 0)) [
        | inl z ↦ let zero_rows : n ≡ 0 = ground arith in rw (z, zero_rows) refl
        | inr p ↦
            let last : offset_limit_of o n ≡ o + n - 1 =
              let positive : 0 < n = ground arith in omega arith in
            let count : suc (o + n - 1) - o ≡ n = ground arith in
            rw (p, last)
              (limit_loop-drop 0 o (o + n - 1) rows (omega arith) ∙ rw (count, sub_zero o) refl)
      ]

  merged :
      (n m : ℕ) (offset : Option ℕ) (rows : List A)
      → n < 2 ^ 64
      → unwrap_or offset 0 + m < 2 ^ 64
      → execute_limit {E = E}
          (eliminate_limits
            (record { offset = none; limit = some n })
            (record { offset = offset; limit = some m }))
          (map ok rows)
        ≡ map ok (take (min n m) (drop (unwrap_or offset 0) rows))
  unfolding eliminate_limits binary_options
  merged n m none rows h k =
      execute_limit_lem (record { offset = none; limit = some (min n m) }) rows (ground arith)
  merged n m (some o) rows h k =
      execute_limit_lem (record { offset = some o; limit = some (min n m) }) rows (ground arith)

  -- A limit without an offset, above a limit: where the offset and limit of the one below fit a
  -- `usize`, the one limit that they become yields the same rows.
  pub eliminate_limits_lem :
      (n m : ℕ) (offset : Option ℕ) (rows : List A)
      → n < 2 ^ 64
      → unwrap_or offset 0 + m < 2 ^ 64
      → execute_limit {E = E}
          (record { offset = none; limit = some n })
          (execute_limit (record { offset = offset; limit = some m }) (map ok rows))
        ≡ execute_limit
            (eliminate_limits
              (record { offset = none; limit = some n })
              (record { offset = offset; limit = some m }))
            (map ok rows)
  unfolding eliminate_limits
  eliminate_limits_lem n m offset rows h k =
      let child : LimitOperator = record { offset = offset; limit = some m } in
      let op : LimitOperator = record { offset = none; limit = some n } in
      ap (execute_limit op) (execute_limit_lem child rows k)
      ∙ execute_limit_lem op (take m (drop (unwrap_or offset 0) rows)) (omega arith)
      ∙ ap (map ok) (take-take n m (drop (unwrap_or offset 0) rows))
      ∙ sym (merged n m offset rows h k)
