-- ===== src/Tuple/Read.antt =====
-- `deserialize_from`: src/types/tuple.rs. How one value is read back.
use kip_sql.Prelude.{
  ℕ, zero, suc, ◌+◌, ◌/◌, ◌%◌, ◌^◌, ◌<◌, ◌≡◌, refl, sym, ap, ◌∙◌, inl, inr, true, false, none, some,
  [], ◌∷◌, ◌++◌, arith, length, get_elem?, leb, Bool-cases, length-append, take_append, drop_append,
  get_elem?-append,
}
use mathlib.Core.List.{append_assoc}
use native.Mathlib.Nat.{mod-eq_of_lt}
use kip_sql.Prelude.Bytes.{Bytes}
use kip_sql.Prelude.Outcome.{ok}
use kip_sql.Types.{LogicalType, raw_len}
use kip_sql.Value.{utf8, DataValue, External, is_null, is_variable}
use kip_sql.Value.Raw.{to_raw, from_raw}
use kip_sql.Value.Raw.RoundTrip.{
  KeepsFixed, IsOf, IsStorable, stored, from_raw-to_raw, raw_len-length, none_of-null,
}
use kip_sql.Tuple.{is_none_bit, byte_at, slice, deserialize_value}
use kip_sql.Tuple.Serialize.{piece, byte_at-get_elem?}
use kip_sql.Tuple.Bitmap.{bit_at, bit_at_lem}

slice-append :
    (p q r : Bytes) (pos len : ℕ)
    → pos ≡ length p
    → len ≡ length q
    → slice (p ++ (q ++ r)) pos len ≡ ok q
unfolding slice
slice-append p q r pos len e d =
    let fits : leb (length p + length q) (length (p ++ (q ++ r))) ≡ true =
      ground (arith, length-append p (q ++ r), length-append q r) in
    rw (e, d, fits, drop_append p (q ++ r), take_append q r) refl

in_range : (xs : Bytes) (i : ℕ) → i < length xs → (a : ℕ) × (get_elem? xs i ≡ some a)
in_range [] i h = elim h [ ]
in_range (x ∷ xs) zero h = (x, refl)
in_range (x ∷ xs) (suc i) h = in_range xs i (omega arith)

add_zero : (n : ℕ) → n + 0 ≡ n
add_zero n = omega arith

module _ {D : Type 0} (x : External D) (law : KeepsFixed x) where
  read_null :
      (i : ℕ) (ty : LogicalType) (v : DataValue D) (h t : Bytes) (position : ℕ)
      → i / 8 < length h
      → bit_at h i ≡ is_null v
      → is_null v ≡ true
      → IsOf ty v
      → deserialize_value x i ty (h ++ t) position ≡ ok (stored v, position)
  unfolding deserialize_value
  read_null i ty v h t position l mark null of =
      let (b, e) = in_range h (i / 8) l in
      let (none_ok, same) = none_of-null x law ty v of null in
      rw
        (
          byte_at-get_elem? (h ++ t) (i / 8) b (get_elem?-append h t (i / 8) l ∙ e),
          bit_at_lem h i b e,
          mark,
          null,
          none_ok,
          same,
        )
        refl

  read_fixed :
      (i : ℕ) (ty : LogicalType) (v : DataValue D) (h b t : Bytes)
      → i / 8 < length h
      → bit_at h i ≡ is_null v
      → is_null v ≡ false
      → is_variable v ≡ false
      → raw_len ty ≡ some (length (to_raw x v))
      → IsOf ty v
      → IsStorable v
      → deserialize_value x i ty (h ++ (b ++ (to_raw x v ++ t))) (length h + length b)
        ≡ ok (stored v, length h + length b + length (to_raw x v))
  unfolding deserialize_value
  read_fixed i ty v h b t l mark value fixed len of storable =
      let (bits, e) = in_range h (i / 8) l in
      rw
        (
          byte_at-get_elem? (h ++ (b ++ (to_raw x v ++ t))) (i / 8) bits
              (get_elem?-append h (b ++ (to_raw x v ++ t)) (i / 8) l ∙ e),
          bit_at_lem h i bits e,
          mark,
          value,
          len,
          sym (append_assoc h b (to_raw x v ++ t)),
          slice-append (h ++ b) (to_raw x v) t (length h + length b) (length (to_raw x v))
              (sym (length-append h b)) refl,
          from_raw-to_raw x law ty v of storable value,
        )
        refl

  read_pieces :
      (i : ℕ) (ty : LogicalType) (w : DataValue D) (bytes head raw : Bytes) (position bits : ℕ)
      → byte_at bytes (i / 8) ≡ ok bits
      → is_none_bit bits (i % 8) ≡ false
      → raw_len ty ≡ none
      → slice bytes position 4 ≡ ok head
      → x.decode_fixed 4 head ≡ length raw
      → slice bytes (position + 4) (length raw) ≡ ok raw
      → from_raw x raw ty ≡ ok w
      → deserialize_value x i ty bytes position ≡ ok (w, position + 4 + length raw)
  unfolding deserialize_value
  read_pieces i ty w bytes head raw position bits e bit len at_head decode at_raw read =
      rw (e, bit, len, at_head, decode, at_raw, read) refl

  read_variable :
      (i : ℕ) (ty : LogicalType) (v : DataValue D) (h b t : Bytes)
      → i / 8 < length h
      → bit_at h i ≡ is_null v
      → is_null v ≡ false
      → is_variable v ≡ true
      → raw_len ty ≡ none
      → length (to_raw x v) < 2 ^ 32
      → IsOf ty v
      → IsStorable v
      → deserialize_value x i ty
          (h ++ (b ++ ((x.encode_fixed 4 (length (to_raw x v) % 2 ^ 32) ++ to_raw x v) ++ t)))
          (length h + length b)
        ≡ ok (stored v, length h + length b + 4 + length (to_raw x v))
  read_variable i ty v h b t l mark value variable len small of storable =
      let (bits, e) = in_range h (i / 8) l in
      let head = x.encode_fixed 4 (length (to_raw x v) % 2 ^ 32) in
      let raw = to_raw x v in
      let at_byte = get_elem?-append h (b ++ ((head ++ raw) ++ t)) (i / 8) l ∙ e in
      let bytes = h ++ (b ++ ((head ++ raw) ++ t)) in
      let split : bytes ≡ (h ++ b) ++ (head ++ (raw ++ t)) =
        ap (λ r. h ++ (b ++ r)) (append_assoc head raw t)
        ∙ sym (append_assoc h b (head ++ (raw ++ t))) in
      let split' : bytes ≡ ((h ++ b) ++ head) ++ (raw ++ t) =
        split ∙ sym (append_assoc (h ++ b) head (raw ++ t)) in
      let four = law.encode_length 4 (length raw % 2 ^ 32) in
      read_pieces i ty (stored v) bytes head raw (length h + length b) bits
        (byte_at-get_elem? bytes (i / 8) bits at_byte) (bit_at_lem h i bits e ∙ mark ∙ value) len
        (ap (λ r. slice r (length h + length b) 4) split
          ∙ slice-append (h ++ b) head (raw ++ t) (length h + length b) 4 (sym (length-append h b))
              (sym four))
        (law.decode_encode 4 (length raw % 2 ^ 32) (omega arith) ∙ mod-eq_of_lt small)
        (ap (λ r. slice r (length h + length b + 4) (length raw)) split'
          ∙ slice-append ((h ++ b) ++ head) raw t (length h + length b + 4) (length raw)
              (omega (arith, length-append (h ++ b) head, length-append h b, four)) refl)
        (from_raw-to_raw x law ty v of storable value)

  variable-length :
      (v : DataValue D)
      → is_null v ≡ false
      → is_variable v ≡ true
      → IsStorable v
      → length (to_raw x v) < 2 ^ 32
  unfolding is_null is_variable to_raw
  variable-length (utf8 (some s)) n h r = r.1
  variable-length _ n h r = ground arith

  length_head :
      (raw : Bytes) (n : ℕ)
      → n + length (x.encode_fixed 4 (length raw % 2 ^ 32) ++ raw) ≡ n + 4 + length raw
  length_head raw n = omega (
    arith,
    length-append (x.encode_fixed 4 (length raw % 2 ^ 32)) raw,
    law.encode_length 4 (length raw % 2 ^ 32),
  )

  -- A value behind the bytes before it is read back, and the position is that of its end.
  pub read_value :
      (i : ℕ) (ty : LogicalType) (v : DataValue D) (h b t : Bytes)
      → i / 8 < length h
      → bit_at h i ≡ is_null v
      → IsOf ty v
      → IsStorable v
      → deserialize_value x i ty (h ++ (b ++ (piece x v ++ t))) (length h + length b)
        ≡ ok (stored v, length h + length b + length (piece x v))
  unfolding piece
  read_value i ty v h b t l mark of storable = elim (Bool-cases (is_null v)) [
    | inl null ↦
        rw (null, add_zero (length h + length b))
          (read_null i ty v h (b ++ t) (length h + length b) l mark null of)
    | inr value ↦ elim (raw_len-length x law ty v of value) [
      | inl (variable, len) ↦
          rw (value, variable, length_head (to_raw x v) (length h + length b))
            (read_variable i ty v h b t l mark value variable len
              (variable-length v value variable storable) of storable)
      | inr (fixed, len) ↦
          rw (value, fixed) (read_fixed i ty v h b t l mark value fixed len of storable)
    ]
  ]
