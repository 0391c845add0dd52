-- ===== src/Value/Key/Compare.antt =====
-- The order of keys is the order of values: `to_primary_key` and `to_index_key` of src/types/value.rs
-- against `partial_cmp`.
use kip_sql.Prelude.{
  ℕ, suc, ◌^◌, ◌≤◌, ◌≡◌, refl, sym, ◌∙◌, Bool, true, false, some, [], ◌∷◌, ◌++◌, arith, length,
  if◌then◌else◌, Ordering,
}
use kip_sql.Prelude.Int.{compare_ℤ}
use kip_sql.Prelude.Bytes.{Bytes, be_bytes, compare_bytes, compare_bytes-append}
use kip_sql.Prelude.Outcome.{Outcome, ok}
use kip_sql.Types.{TypeError}
use kip_sql.Value.{
  DataValue, boolean, float32, float64, int8, int16, int32, int64, u_int8, u_int16, u_int32,
  u_int64, utf8, date32, date64, External, partial_cmp, InRange, compare_bool,
}
use kip_sql.Value.Key.{to_primary_key, to_index_key, float_word, realloc_size, f32_inf, f64_inf}
use kip_sql.Value.Key.Order.{signed_key, unsigned_key, text_key}
use kip_sql.Value.Key.Floats.{IsNumber, magnitude, compare-float_word, float_word-lt}

-- What ordered_float documents of its order on floats that are numbers.
pub record OrdersFloats {D : Type 0} (x : External D) : Type 0 where
  pub f32_law :
      (f g : ℕ)
      → IsNumber (2 ^ 31) f32_inf f
      → IsNumber (2 ^ 31) f32_inf g
      → x.cmp_f32 f g ≡ compare_ℤ (magnitude (2 ^ 31) f) (magnitude (2 ^ 31) g)
  pub f64_law :
      (f g : ℕ)
      → IsNumber (2 ^ 63) f64_inf f
      → IsNumber (2 ^ 63) f64_inf g
      → x.cmp_f64 f g ≡ compare_ℤ (magnitude (2 ^ 63) f) (magnitude (2 ^ 63) g)

-- A value in the range of its variant, a float that is no NaN, or a text for which
-- `realloc_bytes` leaves the prefix `b` as it is.
abbrev pub IsKeyable : {D : Type 0} → Bytes → DataValue D → Type 0
IsKeyable b (float32 (some f)) = IsNumber (2 ^ 31) f32_inf f
IsKeyable b (float64 (some f)) = IsNumber (2 ^ 63) f64_inf f
IsKeyable b (utf8 (some s)) = realloc_size s ≤ length b
IsKeyable b v = InRange v

same_order :
    {k l k' l' : Bytes} {o o' : Ordering}
    → ◌≡◌ {A = Outcome TypeError Bytes} (ok k') (ok k)
    → ◌≡◌ {A = Outcome TypeError Bytes} (ok l') (ok l)
    → some o' ≡ some o
    → compare_bytes k' l' ≡ o'
    → compare_bytes k l ≡ o
same_order p q r h = ground arith

float_key :
    (k w inf : ℕ) (b : Bytes) (f g : ℕ)
    → 2 ^ suc w ≡ 256 ^ k
    → IsNumber (2 ^ w) inf f
    → IsNumber (2 ^ w) inf g
    → compare_bytes
        (b ++ be_bytes k (float_word (2 ^ w) inf f))
        (b ++ be_bytes k (float_word (2 ^ w) inf g))
      ≡ compare_ℤ (magnitude (2 ^ w) f) (magnitude (2 ^ w) g)
float_key k w inf b f g e hf hg =
    unsigned_key k b (float_word (2 ^ w) inf f) (float_word (2 ^ w) inf g)
      (omega (arith, e, float_word-lt w inf f hf)) (omega (arith, e, float_word-lt w inf g hg))
    ∙ compare-float_word w inf f g hf hg

bool_key :
    (b : Bytes) (u v : Bool)
    → compare_bytes (b ++ (if u then b'1' else b'0') ∷ []) (b ++ (if v then b'1' else b'0') ∷ [])
      ≡ compare_bool u v
unfolding compare_bytes
bool_key b true true = compare_bytes-append b _ _
bool_key b true false = compare_bytes-append b _ _
bool_key b false true = compare_bytes-append b _ _
bool_key b false false = compare_bytes-append b _ _

module _ {D : Type 0} (x : External D) where
  -- Two values that have primary keys behind one prefix and that compare: the keys compare as the
  -- values do, where the values are in the range of their variants, and the prefix is long enough
  -- for `realloc_bytes` to leave it as it is before a text.
  pub compare-to_primary_key :
      (b : Bytes) (v w : DataValue D) {k l : Bytes} {o : Ordering}
      → IsKeyable b v
      → IsKeyable b w
      → to_primary_key v b ≡ ok k
      → to_primary_key w b ≡ ok l
      → partial_cmp x v w ≡ some o
      → compare_bytes k l ≡ o
  unfolding to_primary_key partial_cmp
  compare-to_primary_key b (int8 (some u)) (int8 (some v)) hu hv p q r =
      same_order p q r (signed_key 1 7 b u v refl hu hv)
  compare-to_primary_key b (int16 (some u)) (int16 (some v)) hu hv p q r =
      same_order p q r (signed_key 2 15 b u v refl hu hv)
  compare-to_primary_key b (int32 (some u)) (int32 (some v)) hu hv p q r =
      same_order p q r (signed_key 4 31 b u v refl hu hv)
  compare-to_primary_key b (int64 (some u)) (int64 (some v)) hu hv p q r =
      same_order p q r (signed_key 8 63 b u v refl hu hv)
  compare-to_primary_key b (u_int8 (some u)) (u_int8 (some v)) hu hv p q r =
      same_order p q r (unsigned_key 1 b u v hu hv)
  compare-to_primary_key b (u_int16 (some u)) (u_int16 (some v)) hu hv p q r =
      same_order p q r (unsigned_key 2 b u v hu hv)
  compare-to_primary_key b (u_int32 (some u)) (u_int32 (some v)) hu hv p q r =
      same_order p q r (unsigned_key 4 b u v hu hv)
  compare-to_primary_key b (u_int64 (some u)) (u_int64 (some v)) hu hv p q r =
      same_order p q r (unsigned_key 8 b u v hu hv)
  compare-to_primary_key b (utf8 (some u)) (utf8 (some v)) hu hv p q r =
      same_order p q r (text_key b u v hu hv)
  compare-to_primary_key b _ _ hu hv p q r = ground arith

module _ {D : Type 0} (x : External D) (law : OrdersFloats x) where
  -- Two values that have index keys behind one prefix and that compare: the keys compare as the
  -- values do, where the values are in the range of their variants, no float is a NaN,
  -- ordered_float orders the other floats by their magnitude, and the prefix is long enough for
  -- `realloc_bytes` to leave it as it is before a text.
  pub compare-to_index_key :
      (b : Bytes) (v w : DataValue D) {k l : Bytes} {o : Ordering}
      → IsKeyable b v
      → IsKeyable b w
      → to_index_key v b ≡ ok k
      → to_index_key w b ≡ ok l
      → partial_cmp x v w ≡ some o
      → compare_bytes k l ≡ o
  unfolding to_index_key partial_cmp
  compare-to_index_key b (int8 (some u)) (int8 (some v)) hu hv p q r =
      same_order p q r (signed_key 1 7 b u v refl hu hv)
  compare-to_index_key b (int16 (some u)) (int16 (some v)) hu hv p q r =
      same_order p q r (signed_key 2 15 b u v refl hu hv)
  compare-to_index_key b (int32 (some u)) (int32 (some v)) hu hv p q r =
      same_order p q r (signed_key 4 31 b u v refl hu hv)
  compare-to_index_key b (int64 (some u)) (int64 (some v)) hu hv p q r =
      same_order p q r (signed_key 8 63 b u v refl hu hv)
  compare-to_index_key b (u_int8 (some u)) (u_int8 (some v)) hu hv p q r =
      same_order p q r (unsigned_key 1 b u v hu hv)
  compare-to_index_key b (u_int16 (some u)) (u_int16 (some v)) hu hv p q r =
      same_order p q r (unsigned_key 2 b u v hu hv)
  compare-to_index_key b (u_int32 (some u)) (u_int32 (some v)) hu hv p q r =
      same_order p q r (unsigned_key 4 b u v hu hv)
  compare-to_index_key b (u_int64 (some u)) (u_int64 (some v)) hu hv p q r =
      same_order p q r (unsigned_key 8 b u v hu hv)
  compare-to_index_key b (utf8 (some u)) (utf8 (some v)) hu hv p q r =
      same_order p q r (text_key b u v hu hv)
  compare-to_index_key b (date32 (some u)) (date32 (some v)) hu hv p q r =
      same_order p q r (signed_key 4 31 b u v refl hu hv)
  compare-to_index_key b (date64 (some u)) (date64 (some v)) hu hv p q r =
      same_order p q r (signed_key 8 63 b u v refl hu hv)
  compare-to_index_key b (boolean (some u)) (boolean (some v)) hu hv p q r =
      same_order p q r (bool_key b u v)
  compare-to_index_key b (float32 (some u)) (float32 (some v)) hu hv p q r =
      same_order p q r (float_key 4 31 f32_inf b u v refl hu hv ∙ sym (law.f32_law u v hu hv))
  compare-to_index_key b (float64 (some u)) (float64 (some v)) hu hv p q r =
      same_order p q r (float_key 8 63 f64_inf b u v refl hu hv ∙ sym (law.f64_law u v hu hv))
  compare-to_index_key b _ _ hu hv p q r = ground arith
