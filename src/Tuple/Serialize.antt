-- ===== src/Tuple/Serialize.antt =====
-- `serialize_to`: src/types/tuple.rs. What the bytes are made of.
use kip_sql.Prelude.{
  ℕ, ◌+◌, ◌*◌, ◌/◌, ◌%◌, ◌^◌, ◌≤◌, ◌<◌, ◌≡◌, ◌≢◌, refl, sym, ap, ◌∙◌, inl, inr, Bool, true, false,
  some, List, [], ◌∷◌, ◌++◌, arith, length, get_elem?, set, ◌==◌, if◌then◌else◌, Bool-cases,
  length-set, get_elem?-append, set-append,
}
use mathlib.Core.List.{append_assoc, append-nil}
use kip_sql.Prelude.Bytes.{Bytes, AreBytes}
use kip_sql.Prelude.Outcome.{ok}
use kip_sql.Value.{DataValue, External, is_null, is_variable}
use kip_sql.Value.Raw.{to_raw}
use kip_sql.Tuple.{flip_bit, byte_at, serialize_value, serialize_values}
use kip_sql.Tuple.Bitmap.{bit_at, bit_at-set}

pub byte_at-get_elem? :
    (bytes : Bytes) (i b : ℕ) → get_elem? bytes i ≡ some b → byte_at bytes i ≡ ok b
unfolding byte_at
byte_at-get_elem? bytes i b e = rw (byte_at, e) refl

other_bit : (i j : ℕ) (b : Bool) → i ≢ j → (if i == j then true else b) ≡ b
other_bit i j b ne = let e : (i == j) ≡ false = ground (arith, ne) in rw e refl

same_bit : (i : ℕ) (b : Bool) → (if i == i then true else b) ≡ true
same_bit i b = let e : (i == i) ≡ true = ground arith in rw e refl

module _ {D : Type 0} (x : External D) where
  -- What a value adds to the bytes behind the bitmap.
  unfoldable pub piece : DataValue D → Bytes
  piece v =
      if is_null v
      then []
      else if is_variable v
      then x.encode_fixed 4 (length (to_raw x v) % 2 ^ 32) ++ to_raw x v
      else to_raw x v

  unfoldable pub body : List (DataValue D) → Bytes
  body [] = []
  body (v ∷ vs) = piece v ++ body vs

  -- From the i-th bit on, the bitmap tells the nulls of the values.
  unfoldable pub Marks : ℕ → List (DataValue D) → Bytes → Type 0
  Marks i [] h = Unit
  Marks i (v ∷ vs) h = (bit_at h i ≡ is_null v) × Marks (i + 1) vs h

  pub record Serialized (i : ℕ) (vs : List (DataValue D)) (h b : Bytes) : Type 0 where
    pub header : Bytes
    pub result : serialize_values x i vs (h ++ b) ≡ ok (header ++ (b ++ body vs))
    pub same_length : length header ≡ length h
    pub kept : (j : ℕ) → j < i → bit_at header j ≡ bit_at h j
    pub marks : Marks i vs header

  null_step :
      (i : ℕ) (v : DataValue D) (h b : Bytes) (bits : ℕ)
      → is_null v ≡ true
      → i / 8 < length h
      → get_elem? h (i / 8) ≡ some bits
      → serialize_value x i v (h ++ b) ≡ ok (set h (i / 8) (flip_bit bits (i % 8)) ++ b)
  unfolding serialize_value
  null_step i v h b bits null l e =
      rw (null, byte_at-get_elem? (h ++ b) (i / 8) bits (get_elem?-append h b (i / 8) l ∙ e))
        (ap ok (set-append h b (i / 8) (flip_bit bits (i % 8)) l))

  value_step :
      (i : ℕ) (v : DataValue D) (bytes : Bytes)
      → is_null v ≡ false
      → serialize_value x i v bytes ≡ ok (bytes ++ piece v)
  unfolding serialize_value piece
  value_step i v bytes value = elim (Bool-cases (is_variable v)) [
    | inl variable ↦ rw (value, variable) refl
    | inr fixed ↦ rw (value, fixed) refl
  ]

  piece_null : (v : DataValue D) → is_null v ≡ true → piece v ≡ []
  unfolding piece
  piece_null v null = rw null refl

  pub serialize_values_lem :
      (i : ℕ) (vs : List (DataValue D)) (h b : Bytes)
      → AreBytes h
      → i + length vs ≤ 8 * length h
      → ((j : ℕ) → i ≤ j → bit_at h j ≡ false)
      → Serialized i vs h b
  unfolding serialize_values body Marks
  serialize_values_lem i [] h b bytes l zeros = record {
    header = h;
    result = ap (λ t. ok (h ++ t)) (sym (append-nil b));
    same_length = refl;
    kept = λ j lt. refl;
    marks = tt;
  }
  serialize_values_lem i (v ∷ vs) h b bytes l zeros = elim (Bool-cases (is_null v)) [
    | inl null ↦
        let (bits, e, bytes', bit) = bit_at-set h i bytes (omega arith) in
        let h' = set h (i / 8) (flip_bit bits (i % 8)) in
        let same = length-set h (i / 8) (flip_bit bits (i % 8)) in
        let rest =
          serialize_values_lem (i + 1) vs h' b bytes' (omega (arith, same))
            (λ j le. bit j ∙ other_bit i j (bit_at h j) (omega arith) ∙ zeros j (omega arith)) in
        record {
          header = rest.header;
          result = rw (null_step i v h b bits null (omega arith) e, piece_null v null) rest.result;
          same_length = rest.same_length ∙ same;
          kept =
              λ j lt. rest.kept j (omega arith) ∙ bit j ∙ other_bit i j (bit_at h j) (omega arith);
          marks =
              (rest.kept i (omega arith) ∙ bit i ∙ same_bit i (bit_at h i) ∙ sym null, rest.marks);
        }
    | inr value ↦
        let rest =
          serialize_values_lem (i + 1) vs h (b ++ piece v) bytes (omega arith)
            (λ j le. zeros j (omega arith)) in
        record {
          header = rest.header;
          result =
              rw
                (
                  value_step i v (h ++ b) value,
                  append_assoc h b (piece v),
                  sym (append_assoc b (piece v) (body vs)),
                )
                rest.result;
          same_length = rest.same_length;
          kept = λ j lt. rest.kept j (omega arith);
          marks = (rest.kept i (omega arith) ∙ zeros i (omega arith) ∙ sym value, rest.marks);
        }
  ]
