-- ===== src/Codec/Prefix.antt =====
-- The keys of src/storage/table_codec.rs extend their prefixes, and the bytes of a table's name and
-- kind come before the first tag.
use kip_sql.Prelude.{
  ℕ, ◌-◌, ◌<◌, ◌≡◌, ◌≢◌, refl, sym, ap, ◌∙◌, some, [], ◌∷◌, ◌++◌, arith, Ordering, compare,
  then_cmp, length, All, replicate, ltb, Bool-cases, inl, inr, compare_refl,
}
use mathlib.Core.Path.{ap₂}
use mathlib.Core.List.{append_assoc, append-nil}
use kip_sql.Prelude.Bytes.{Bytes, compare_bytes}
use kip_sql.Prelude.Outcome.{Outcome, ok}
use kip_sql.Types.{TypeError}
use kip_sql.Value.{
  DataValue, utf8, boolean, float32, float64, int8, int16, int32, int64, u_int8, u_int16, u_int32,
  u_int64, date32, date64, is_null,
}
use kip_sql.Value.Key.{
  group_size, to_primary_key, to_index_key, encode_bytes, realloc_bytes, realloc_size,
}
use kip_sql.Value.Key.Groups.{grouped, encode_bytes_lem}

-- The key is the prefix with more bytes behind it.
abbrev pub Extends : Bytes → Outcome TypeError Bytes → Type 0
Extends b (ok k) = (t : Bytes) × (k ≡ b ++ t)
Extends b _ = Unit

realloc_bytes-extends : (b : Bytes) (size : ℕ) → (t : Bytes) × (realloc_bytes b size ≡ b ++ t)
unfolding realloc_bytes
realloc_bytes-extends b size = elim (Bool-cases (ltb (length b) size)) [
  | inl h ↦ (replicate (size - length b) 0, rw h refl)
  | inr h ↦ ([], rw h (sym (append-nil b)))
]

encode_bytes-extends : (b s : Bytes) → (t : Bytes) × (encode_bytes b s ≡ b ++ t)
encode_bytes-extends b s =
    let (t, e) = realloc_bytes-extends b (realloc_size s) in
    (
      t ++ grouped group_size s,
      encode_bytes_lem b s
          ∙ ap (◌++ grouped group_size s) e
          ∙ append_assoc b t (grouped group_size s),
    )

module _ {D : Type 0} where
  pub to_primary_key-Extends : (v : DataValue D) (b : Bytes) → Extends b (to_primary_key v b)
  unfolding to_primary_key is_null
  to_primary_key-Extends (utf8 (some s)) b = encode_bytes-extends b s
  to_primary_key-Extends (int8 (some v)) b = (_, refl)
  to_primary_key-Extends (int16 (some v)) b = (_, refl)
  to_primary_key-Extends (int32 (some v)) b = (_, refl)
  to_primary_key-Extends (int64 (some v)) b = (_, refl)
  to_primary_key-Extends (u_int8 (some v)) b = (_, refl)
  to_primary_key-Extends (u_int16 (some v)) b = (_, refl)
  to_primary_key-Extends (u_int32 (some v)) b = (_, refl)
  to_primary_key-Extends (u_int64 (some v)) b = (_, refl)
  to_primary_key-Extends v b = ground arith

  pub to_index_key-Extends : (v : DataValue D) (b : Bytes) → Extends b (to_index_key v b)
  unfolding to_index_key is_null
  to_index_key-Extends (utf8 (some s)) b = encode_bytes-extends b s
  to_index_key-Extends (int8 (some v)) b = (_, refl)
  to_index_key-Extends (int16 (some v)) b = (_, refl)
  to_index_key-Extends (int32 (some v)) b = (_, refl)
  to_index_key-Extends (int64 (some v)) b = (_, refl)
  to_index_key-Extends (u_int8 (some v)) b = (_, refl)
  to_index_key-Extends (u_int16 (some v)) b = (_, refl)
  to_index_key-Extends (u_int32 (some v)) b = (_, refl)
  to_index_key-Extends (u_int64 (some v)) b = (_, refl)
  to_index_key-Extends (boolean (some v)) b = (_, refl)
  to_index_key-Extends (float32 (some v)) b = (_, refl)
  to_index_key-Extends (float64 (some v)) b = (_, refl)
  to_index_key-Extends (date32 (some v)) b = (_, refl)
  to_index_key-Extends (date64 (some v)) b = (_, refl)
  to_index_key-Extends v b = ground arith

-- Bytes above both tags.
abbrev pub AboveTags : Bytes → Type 0
AboveTags = All (λ b. 1 < b)

abbrev pub InBound : Bytes × Bytes → Bytes → Type 0
InBound bound key =
    (compare_bytes key bound.0 ≢ Ordering.lt) × (compare_bytes key bound.1 ≢ Ordering.gt)

head_eq :
    (x y : ℕ) (o p : Ordering)
    → then_cmp (compare x y) o ≢ Ordering.lt
    → then_cmp (compare x y) p ≢ Ordering.gt
    → x ≡ y
head_eq x y o p lo hi = ground arith

tail_orders :
    (x y : ℕ) (o p : Ordering)
    → then_cmp (compare x y) o ≢ Ordering.lt
    → then_cmp (compare x y) p ≢ Ordering.gt
    → (o ≢ Ordering.lt) × (p ≢ Ordering.gt)
tail_orders x y o p lo hi =
    let e = head_eq x y o p lo hi in
    let c : compare x y ≡ Ordering.eq = ground arith in
    (λ h. lo (ap (λ q. then_cmp q o) c ∙ h), λ h. hi (ap (λ q. then_cmp q p) c ∙ h))

tail_bound :
    (x y : ℕ) (xs ys t : Bytes)
    → compare_bytes (x ∷ (xs ++ (0 ∷ t))) (y ∷ (ys ++ (0 ∷ []))) ≢ Ordering.lt
    → compare_bytes (x ∷ (xs ++ (0 ∷ t))) (y ∷ (ys ++ (1 ∷ []))) ≢ Ordering.gt
    → InBound (ys ++ (0 ∷ []), ys ++ (1 ∷ [])) (xs ++ (0 ∷ t))
unfolding compare_bytes
tail_bound x y xs ys t lo hi =
    tail_orders x y (compare_bytes (xs ++ (0 ∷ t)) (ys ++ (0 ∷ [])))
      (compare_bytes (xs ++ (0 ∷ t)) (ys ++ (1 ∷ []))) lo hi

-- A key whose prefix has no tag lies between the tags of another such prefix only if the two are
-- the same.
pub InBound-eq :
    (p q t : Bytes)
    → AboveTags p
    → AboveTags q
    → InBound (q ++ (0 ∷ []), q ++ (1 ∷ [])) (p ++ (0 ∷ t))
    → p ≡ q
unfolding compare_bytes
InBound-eq [] [] t hp hq (lo, hi) = refl
InBound-eq [] (y ∷ ys) t hp hq (lo, hi) = absurd (lo (ground (arith, hq.0)))
InBound-eq (x ∷ xs) [] t hp hq (lo, hi) = absurd (hi (ground (arith, hp.0)))
InBound-eq (x ∷ xs) (y ∷ ys) t hp hq (lo, hi) =
    ap₂ ◌∷◌
      (head_eq x y (compare_bytes (xs ++ (0 ∷ t)) (ys ++ (0 ∷ [])))
        (compare_bytes (xs ++ (0 ∷ t)) (ys ++ (1 ∷ []))) lo hi)
      (InBound-eq xs ys t hp.1 hq.1 (tail_bound x y xs ys t lo hi))

pub InBound-refl : (q t : Bytes) → InBound (q ++ (0 ∷ []), q ++ (1 ∷ [])) (q ++ (0 ∷ t))
unfolding compare_bytes
InBound-refl [] [] = (λ e. cc, λ e. cc)
InBound-refl [] (z ∷ t) = (λ e. cc, λ e. cc)
InBound-refl (x ∷ q) t = let (lo, hi) = InBound-refl q t in rw (compare_refl x) (lo, hi)
