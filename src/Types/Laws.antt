-- ===== src/Types/Laws.antt =====
-- Laws of the type lattice of src/types/mod.rs.
use kip_sql.Prelude.{
  ℕ, suc, ◌≡◌, refl, ◌≢◌, ◌⊎◌, inl, inr, true, Option, none, some, arith, option_eq, if◌then◌else◌,
}
use kip_sql.Prelude.Outcome.{ok, err, panic, to_option}
use kip_sql.Types.{
  LogicalType, invalid, sql_null, boolean, tinyint, u_tinyint, smallint, u_smallint, integer,
  u_integer, bigint, u_bigint, float, double, varchar, date, date_time, decimal, internal_error,
  can_not_combine, type_eq, is_numeric, is_signed_numeric, is_unsigned_numeric, can_implicit_cast,
  combine_calls, combine_numeric_types, max_logical_type,
}

option_eq_refl : (a : Option ℕ) → option_eq a a ≡ true
option_eq_refl none = refl
option_eq_refl (some n) = ground arith

option_eq_sym : (a b : Option ℕ) → option_eq a b ≡ option_eq b a
option_eq_sym none none = refl
option_eq_sym none (some _) = refl
option_eq_sym (some _) none = refl
option_eq_sym (some m) (some n) = ground arith

option_eq-eq : (a b : Option ℕ) → option_eq a b ≡ true → a ≡ b
option_eq-eq none none h = refl
option_eq-eq none (some _) h = ground arith
option_eq-eq (some _) none h = ground arith
option_eq-eq (some m) (some n) h = ground arith

-- The derived equality is equality.
pub eq_of_type_eq : (a b : LogicalType) → type_eq a b ≡ true → a ≡ b
unfolding type_eq
eq_of_type_eq (varchar m) (varchar n) h = ground (arith, option_eq-eq m n)
eq_of_type_eq (decimal p s) (decimal q t) h = ground (arith, option_eq-eq p q, option_eq-eq s t)
eq_of_type_eq invalid invalid h = refl
eq_of_type_eq sql_null sql_null h = refl
eq_of_type_eq boolean boolean h = refl
eq_of_type_eq tinyint tinyint h = refl
eq_of_type_eq u_tinyint u_tinyint h = refl
eq_of_type_eq smallint smallint h = refl
eq_of_type_eq u_smallint u_smallint h = refl
eq_of_type_eq integer integer h = refl
eq_of_type_eq u_integer u_integer h = refl
eq_of_type_eq bigint bigint h = refl
eq_of_type_eq u_bigint u_bigint h = refl
eq_of_type_eq float float h = refl
eq_of_type_eq double double h = refl
eq_of_type_eq date date h = refl
eq_of_type_eq date_time date_time h = refl
eq_of_type_eq a b h = cc

pub type_eq_refl : (a : LogicalType) → type_eq a a ≡ true
unfolding type_eq
type_eq_refl (varchar n) = ground (arith, option_eq_refl n)
type_eq_refl (decimal p s) = ground (arith, option_eq_refl p, option_eq_refl s)
type_eq_refl _ = refl

-- `max_logical_type` treats its operands alike: both orders give the same type, or both give none.
pub max_logical_type_comm :
    (a b : LogicalType) → to_option (max_logical_type a b) ≡ to_option (max_logical_type b a)
unfolding max_logical_type
max_logical_type_comm (varchar m) (varchar n) = ground (arith, option_eq_sym m n, option_eq-eq m n)
max_logical_type_comm (decimal p s) (decimal q t) =
    ground (arith, option_eq_sym p q, option_eq_sym s t, option_eq-eq p q, option_eq-eq s t)
max_logical_type_comm invalid invalid = refl
max_logical_type_comm sql_null invalid = refl
max_logical_type_comm boolean invalid = refl
max_logical_type_comm tinyint invalid = refl
max_logical_type_comm u_tinyint invalid = refl
max_logical_type_comm smallint invalid = refl
max_logical_type_comm u_smallint invalid = refl
max_logical_type_comm integer invalid = refl
max_logical_type_comm u_integer invalid = refl
max_logical_type_comm bigint invalid = refl
max_logical_type_comm u_bigint invalid = refl
max_logical_type_comm float invalid = refl
max_logical_type_comm double invalid = refl
max_logical_type_comm (varchar m) invalid = refl
max_logical_type_comm date invalid = refl
max_logical_type_comm date_time invalid = refl
max_logical_type_comm (decimal p s) invalid = refl
max_logical_type_comm _ _ = refl

-- The exchange of the operands is done once at most: two calls decide, and more change nothing.
pub combine_numeric_types_total :
    (calls : ℕ) (a b : LogicalType)
    → (combine_calls (suc (suc calls)) a b ≡ combine_numeric_types a b)
      × (combine_numeric_types a b ≢ panic)
unfolding combine_numeric_types
combine_numeric_types_total n (varchar m) (varchar k) = ground arith
combine_numeric_types_total n (decimal p s) (decimal q t) = ground arith
combine_numeric_types_total n invalid invalid = (refl, λ e. cc)
combine_numeric_types_total n sql_null invalid = (refl, λ e. cc)
combine_numeric_types_total n boolean invalid = (refl, λ e. cc)
combine_numeric_types_total n tinyint invalid = (refl, λ e. cc)
combine_numeric_types_total n u_tinyint invalid = (refl, λ e. cc)
combine_numeric_types_total n smallint invalid = (refl, λ e. cc)
combine_numeric_types_total n u_smallint invalid = (refl, λ e. cc)
combine_numeric_types_total n integer invalid = (refl, λ e. cc)
combine_numeric_types_total n u_integer invalid = (refl, λ e. cc)
combine_numeric_types_total n bigint invalid = (refl, λ e. cc)
combine_numeric_types_total n u_bigint invalid = (refl, λ e. cc)
combine_numeric_types_total n float invalid = (refl, λ e. cc)
combine_numeric_types_total n double invalid = (refl, λ e. cc)
combine_numeric_types_total n (varchar m) invalid = (refl, λ e. cc)
combine_numeric_types_total n date invalid = (refl, λ e. cc)
combine_numeric_types_total n date_time invalid = (refl, λ e. cc)
combine_numeric_types_total n (decimal p s) invalid = (refl, λ e. cc)
combine_numeric_types_total n _ _ = (refl, λ e. cc)

-- A signed and an unsigned type meet only where the unsigned one casts to the signed one: neither
-- order of the operands reaches the arms that widen the type.
pub combine_mixed_sign :
    (a b : LogicalType)
    → is_signed_numeric a ≡ true
    → is_unsigned_numeric b ≡ true
    → (combine_numeric_types a b
        ≡ (if can_implicit_cast b a then ok a else err (internal_error (can_not_combine b a))))
      × (combine_numeric_types b a
          ≡ (if can_implicit_cast b a then ok a else err (internal_error (can_not_combine b a))))
unfolding combine_numeric_types is_signed_numeric is_unsigned_numeric can_implicit_cast
combine_mixed_sign tinyint u_tinyint h k = (refl, refl)
combine_mixed_sign tinyint u_smallint h k = (refl, refl)
combine_mixed_sign tinyint u_integer h k = (refl, refl)
combine_mixed_sign tinyint u_bigint h k = (refl, refl)
combine_mixed_sign smallint u_tinyint h k = (refl, refl)
combine_mixed_sign smallint u_smallint h k = (refl, refl)
combine_mixed_sign smallint u_integer h k = (refl, refl)
combine_mixed_sign smallint u_bigint h k = (refl, refl)
combine_mixed_sign integer u_tinyint h k = (refl, refl)
combine_mixed_sign integer u_smallint h k = (refl, refl)
combine_mixed_sign integer u_integer h k = (refl, refl)
combine_mixed_sign integer u_bigint h k = (refl, refl)
combine_mixed_sign bigint u_tinyint h k = (refl, refl)
combine_mixed_sign bigint u_smallint h k = (refl, refl)
combine_mixed_sign bigint u_integer h k = (refl, refl)
combine_mixed_sign bigint u_bigint h k = (refl, refl)
combine_mixed_sign _ _ h k = cc

can_implicit_cast_refl : (a : LogicalType) → can_implicit_cast a a ≡ true
unfolding can_implicit_cast
can_implicit_cast_refl a = ground (arith, type_eq_refl a)

-- The unified type of two numeric types is one of them, and the other one casts to it.
combine-either :
    (a b : LogicalType) {t : LogicalType}
    → is_numeric a ≡ true
    → is_numeric b ≡ true
    → combine_numeric_types a b ≡ ok t
    → ((t ≡ a) × (can_implicit_cast b a ≡ true)) ⊎ ((t ≡ b) × (can_implicit_cast a b ≡ true))
unfolding combine_numeric_types is_numeric can_implicit_cast
combine-either tinyint tinyint h k e = ground arith
combine-either u_tinyint tinyint h k e = ground arith
combine-either smallint tinyint h k e = ground arith
combine-either u_smallint tinyint h k e = ground arith
combine-either integer tinyint h k e = ground arith
combine-either u_integer tinyint h k e = ground arith
combine-either bigint tinyint h k e = ground arith
combine-either u_bigint tinyint h k e = ground arith
combine-either float tinyint h k e = ground arith
combine-either double tinyint h k e = ground arith
combine-either _ _ h k e = ground arith

-- Between numeric types, the unified type, if there is one, is the least that both operands cast
-- to implicitly: both cast to it, and it casts to every type that both cast to.
pub combine_numeric_types_least :
    (a b c : LogicalType) {t : LogicalType}
    → is_numeric a ≡ true
    → is_numeric b ≡ true
    → combine_numeric_types a b ≡ ok t
    → (can_implicit_cast a t ≡ true)
      × (can_implicit_cast b t ≡ true)
      × (can_implicit_cast a c ≡ true → can_implicit_cast b c ≡ true → can_implicit_cast t c ≡ true)
combine_numeric_types_least a b c h k e = elim (combine-either a b h k e) [
  | inl (p, q) ↦ rw p (can_implicit_cast_refl a, q, λ u v. u)
  | inr (p, q) ↦ rw p (q, can_implicit_cast_refl b, λ u v. v)
]
