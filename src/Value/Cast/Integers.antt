-- ===== src/Value/Cast/Integers.antt =====
-- `cast` of src/types/value.rs between integers.
use kip_sql.Prelude.{
  ◌≡◌, refl, Bool, true, ◌||◌, Option, none, some, arith, ◌^◌, ◌<◌, ltb, Bool-cases, inl, inr, ℕ,
  ◌∙◌,
}
use kip_sql.Prelude.Int.{ℤ, pos, negsuc, IsSigned}
use kip_sql.Prelude.Outcome.{Outcome, ok, err, panic, map_transpose}
use kip_sql.Types.{LogicalType, TypeError, is_signed_numeric, is_unsigned_numeric}
use kip_sql.Value.{DataValue, int8, int16, int32, int64, u_int8, u_int16, u_int32, u_int64, InRange}
use kip_sql.Value.Cast.{
  Conversions, cast, wrap, to_unsigned, cast_int8, cast_int16, cast_int32, cast_int64, cast_u_int8,
  cast_u_int16, cast_u_int32, cast_u_int64,
}

-- The integer of a value.
abbrev pub integer_value : {D : Type 0} → DataValue D → Option ℤ
integer_value (int8 v) = v
integer_value (int16 v) = v
integer_value (int32 v) = v
integer_value (int64 v) = v
integer_value (u_int8 (some v)) = some (pos v)
integer_value (u_int16 (some v)) = some (pos v)
integer_value (u_int32 (some v)) = some (pos v)
integer_value (u_int64 (some v)) = some (pos v)
integer_value _ = none

abbrev pub is_integer_type : LogicalType → Bool
is_integer_type ty = is_signed_numeric ty || is_unsigned_numeric ty

widened : (half wide : ℕ) (n : ℤ) → IsSigned half n → half < wide → IsSigned wide n
widened half wide (pos n) r l = omega arith
widened half wide (negsuc n) r l = omega arith

module _ {D : Type 0} where
  abbrev Keeps : ℤ → Outcome TypeError (DataValue D) → Type 0
  Keeps n (ok w) = (integer_value w ≡ some n) × InRange w
  Keeps n (err e) = Unit
  Keeps n panic = ⊥

  narrowed-Keeps :
      (limit : ℕ) (c : Option ℕ → DataValue D) (v n : ℤ)
      → some v ≡ some n
      → ((k : ℕ) → k < limit → (integer_value (c (some k)) ≡ some (pos k)) × InRange (c (some k)))
      → Keeps n (wrap c (map_transpose (to_unsigned limit) (some v)))
  narrowed-Keeps limit c (pos k) n e h = elim (Bool-cases (ltb k limit)) [
    | inl l ↦ let (same, range) = h k (ground arith) in rw l (same ∙ e, range)
    | inr l ↦ rw l tt
  ]
  narrowed-Keeps limit c (negsuc k) n e h = tt

  module _ (y : Conversions D) where
    cast-Keeps :
        (v : DataValue D) (to : LogicalType) (n : ℤ)
        → integer_value v ≡ some n
        → InRange v
        → is_integer_type to ≡ true
        → Keeps n (cast y v to)
    unfolding cast cast_int8 cast_int16 cast_int32 cast_int64 cast_u_int8 cast_u_int16 cast_u_int32
        cast_u_int64 is_signed_numeric is_unsigned_numeric
    cast-Keeps (int8 (some v)) LogicalType.u_tinyint n e r k =
        narrowed-Keeps (2 ^ 8) u_int8 v n e (λ k l. (refl, l))
    cast-Keeps (int8 (some v)) LogicalType.u_smallint n e r k =
        narrowed-Keeps (2 ^ 16) u_int16 v n e (λ k l. (refl, l))
    cast-Keeps (int8 (some v)) LogicalType.u_integer n e r k =
        narrowed-Keeps (2 ^ 32) u_int32 v n e (λ k l. (refl, l))
    cast-Keeps (int8 (some v)) LogicalType.u_bigint n e r k =
        narrowed-Keeps (2 ^ 64) u_int64 v n e (λ k l. (refl, l))
    cast-Keeps (int8 (some v)) LogicalType.tinyint n e r k = (e, r)
    cast-Keeps (int8 (some v)) LogicalType.smallint n e r k =
        (e, widened (2 ^ 7) (2 ^ 15) v r (omega arith))
    cast-Keeps (int8 (some v)) LogicalType.integer n e r k =
        (e, widened (2 ^ 7) (2 ^ 31) v r (omega arith))
    cast-Keeps (int8 (some v)) LogicalType.bigint n e r k =
        (e, widened (2 ^ 7) (2 ^ 63) v r (omega arith))
    cast-Keeps (int8 (some v)) _ n e r k = ground arith
    cast-Keeps (int16 (some v)) LogicalType.u_tinyint n e r k =
        narrowed-Keeps (2 ^ 8) u_int8 v n e (λ k l. (refl, l))
    cast-Keeps (int16 (some v)) LogicalType.u_smallint n e r k =
        narrowed-Keeps (2 ^ 16) u_int16 v n e (λ k l. (refl, l))
    cast-Keeps (int16 (some v)) LogicalType.u_integer n e r k =
        narrowed-Keeps (2 ^ 32) u_int32 v n e (λ k l. (refl, l))
    cast-Keeps (int16 (some v)) LogicalType.u_bigint n e r k =
        narrowed-Keeps (2 ^ 64) u_int64 v n e (λ k l. (refl, l))
    cast-Keeps (int16 (some v)) LogicalType.tinyint n e r k = tt
    cast-Keeps (int16 (some v)) LogicalType.smallint n e r k = (e, r)
    cast-Keeps (int16 (some v)) LogicalType.integer n e r k =
        (e, widened (2 ^ 15) (2 ^ 31) v r (omega arith))
    cast-Keeps (int16 (some v)) LogicalType.bigint n e r k =
        (e, widened (2 ^ 15) (2 ^ 63) v r (omega arith))
    cast-Keeps (int16 (some v)) _ n e r k = ground arith
    cast-Keeps (int32 (some v)) LogicalType.u_tinyint n e r k =
        narrowed-Keeps (2 ^ 8) u_int8 v n e (λ k l. (refl, l))
    cast-Keeps (int32 (some v)) LogicalType.u_smallint n e r k =
        narrowed-Keeps (2 ^ 16) u_int16 v n e (λ k l. (refl, l))
    cast-Keeps (int32 (some v)) LogicalType.u_integer n e r k =
        narrowed-Keeps (2 ^ 32) u_int32 v n e (λ k l. (refl, l))
    cast-Keeps (int32 (some v)) LogicalType.u_bigint n e r k =
        narrowed-Keeps (2 ^ 64) u_int64 v n e (λ k l. (refl, l))
    cast-Keeps (int32 (some v)) LogicalType.tinyint n e r k = tt
    cast-Keeps (int32 (some v)) LogicalType.smallint n e r k = tt
    cast-Keeps (int32 (some v)) LogicalType.integer n e r k = (e, r)
    cast-Keeps (int32 (some v)) LogicalType.bigint n e r k =
        (e, widened (2 ^ 31) (2 ^ 63) v r (omega arith))
    cast-Keeps (int32 (some v)) _ n e r k = ground arith
    cast-Keeps (int64 (some v)) LogicalType.u_tinyint n e r k =
        narrowed-Keeps (2 ^ 8) u_int8 v n e (λ k l. (refl, l))
    cast-Keeps (int64 (some v)) LogicalType.u_smallint n e r k =
        narrowed-Keeps (2 ^ 16) u_int16 v n e (λ k l. (refl, l))
    cast-Keeps (int64 (some v)) LogicalType.u_integer n e r k =
        narrowed-Keeps (2 ^ 32) u_int32 v n e (λ k l. (refl, l))
    cast-Keeps (int64 (some v)) LogicalType.u_bigint n e r k =
        narrowed-Keeps (2 ^ 64) u_int64 v n e (λ k l. (refl, l))
    cast-Keeps (int64 (some v)) LogicalType.tinyint n e r k = tt
    cast-Keeps (int64 (some v)) LogicalType.smallint n e r k = tt
    cast-Keeps (int64 (some v)) LogicalType.integer n e r k = tt
    cast-Keeps (int64 (some v)) LogicalType.bigint n e r k = (e, r)
    cast-Keeps (int64 (some v)) _ n e r k = ground arith
    cast-Keeps (u_int8 (some v)) LogicalType.u_tinyint n e r k = (e, omega arith)
    cast-Keeps (u_int8 (some v)) LogicalType.u_smallint n e r k = (e, omega arith)
    cast-Keeps (u_int8 (some v)) LogicalType.u_integer n e r k = (e, omega arith)
    cast-Keeps (u_int8 (some v)) LogicalType.u_bigint n e r k = (e, omega arith)
    cast-Keeps (u_int8 (some v)) LogicalType.tinyint n e r k = tt
    cast-Keeps (u_int8 (some v)) LogicalType.smallint n e r k = (e, omega arith)
    cast-Keeps (u_int8 (some v)) LogicalType.integer n e r k = (e, omega arith)
    cast-Keeps (u_int8 (some v)) LogicalType.bigint n e r k = (e, omega arith)
    cast-Keeps (u_int8 (some v)) _ n e r k = ground arith
    cast-Keeps (u_int16 (some v)) LogicalType.u_tinyint n e r k = tt
    cast-Keeps (u_int16 (some v)) LogicalType.u_smallint n e r k = (e, omega arith)
    cast-Keeps (u_int16 (some v)) LogicalType.u_integer n e r k = (e, omega arith)
    cast-Keeps (u_int16 (some v)) LogicalType.u_bigint n e r k = (e, omega arith)
    cast-Keeps (u_int16 (some v)) LogicalType.tinyint n e r k = tt
    cast-Keeps (u_int16 (some v)) LogicalType.smallint n e r k = tt
    cast-Keeps (u_int16 (some v)) LogicalType.integer n e r k = (e, omega arith)
    cast-Keeps (u_int16 (some v)) LogicalType.bigint n e r k = (e, omega arith)
    cast-Keeps (u_int16 (some v)) _ n e r k = ground arith
    cast-Keeps (u_int32 (some v)) LogicalType.u_tinyint n e r k = tt
    cast-Keeps (u_int32 (some v)) LogicalType.u_smallint n e r k = tt
    cast-Keeps (u_int32 (some v)) LogicalType.u_integer n e r k = (e, omega arith)
    cast-Keeps (u_int32 (some v)) LogicalType.u_bigint n e r k = (e, omega arith)
    cast-Keeps (u_int32 (some v)) LogicalType.tinyint n e r k = tt
    cast-Keeps (u_int32 (some v)) LogicalType.smallint n e r k = tt
    cast-Keeps (u_int32 (some v)) LogicalType.integer n e r k = tt
    cast-Keeps (u_int32 (some v)) LogicalType.bigint n e r k = (e, omega arith)
    cast-Keeps (u_int32 (some v)) _ n e r k = ground arith
    cast-Keeps (u_int64 (some v)) LogicalType.u_tinyint n e r k = tt
    cast-Keeps (u_int64 (some v)) LogicalType.u_smallint n e r k = tt
    cast-Keeps (u_int64 (some v)) LogicalType.u_integer n e r k = tt
    cast-Keeps (u_int64 (some v)) LogicalType.u_bigint n e r k = (e, omega arith)
    cast-Keeps (u_int64 (some v)) LogicalType.tinyint n e r k = tt
    cast-Keeps (u_int64 (some v)) LogicalType.smallint n e r k = tt
    cast-Keeps (u_int64 (some v)) LogicalType.integer n e r k = tt
    cast-Keeps (u_int64 (some v)) LogicalType.bigint n e r k = tt
    cast-Keeps (u_int64 (some v)) _ n e r k = ground arith
    cast-Keeps v to n e r k = ground arith

    kept :
        (n : ℤ) (r : Outcome TypeError (DataValue D)) (w : DataValue D)
        → Keeps n r
        → r ≡ ok w
        → (integer_value w ≡ some n) × InRange w
    kept n (ok a) w g e = ground arith
    kept n (err x) w g e = cc
    kept n panic w g e = cc

    -- A cast of an integer in the range of its variant to an integer type, when it succeeds,
    -- keeps the integer, and the result is in the range of its variant.
    pub cast_exact :
        (v w : DataValue D) (to : LogicalType) (n : ℤ)
        → integer_value v ≡ some n
        → InRange v
        → is_integer_type to ≡ true
        → cast y v to ≡ ok w
        → (integer_value w ≡ some n) × InRange w
    cast_exact v w to n e r k h = kept n (cast y v to) w (cast-Keeps v to n e r k) h
