-- ===== src/Tuple/RoundTrip.antt =====
-- `deserialize_from` after `serialize_to`: src/types/tuple.rs.
use kip_sql.Prelude.{
  ℕ, suc, ◌+◌, ◌*◌, ◌≤◌, ◌≡◌, refl, sym, ap, ◌∙◌, none, some, List, [], ◌∷◌, ◌++◌, arith, length,
  if◌then◌else◌, length-append, Option, map, replicate, length-replicate,
}
use mathlib.Core.List.{append_assoc, append-nil}
use kip_sql.Prelude.Bytes.{Bytes}
use kip_sql.Prelude.Outcome.{ok}
use kip_sql.Value.{DataValue, External}
use kip_sql.Value.Raw.RoundTrip.{KeepsFixed, IsOf, IsStorable, stored}
use kip_sql.Tuple.{
  serialize_values, deserialize_values, serialize_to, deserialize_from, Tuple, bits_len,
}
use kip_sql.Tuple.Serialize.{piece, body, Marks, serialize_values_lem}
use kip_sql.Tuple.Read.{read_value}
use kip_sql.Tuple.Bitmap.{zeros-AreBytes, bit_at-zeros}
use kip_sql.Catalog.{ColumnCatalog, datatype}

module _ {D R : Type 0} where
  -- Each value belongs to the type of its column and can be stored.
  abbrev pub AllMatch : List (ColumnCatalog D R) → List (DataValue D) → Type 0
  AllMatch [] [] = Unit
  AllMatch (c ∷ cs) (v ∷ vs) = IsOf (datatype c) v × IsStorable v × AllMatch cs vs
  AllMatch _ _ = ⊥

  -- The value of the last primary column.
  abbrev pub primary_value :
      Option (DataValue D) → List (ColumnCatalog D R) → List (DataValue D) → Option (DataValue D)
  primary_value id (c ∷ cs) (v ∷ vs) =
      primary_value (if c.desc.is_primary then some v else id) cs vs
  primary_value id _ _ = id

  same_count :
      (cs : List (ColumnCatalog D R)) (vs : List (DataValue D))
      → AllMatch cs vs
      → length cs ≡ length vs
  same_count [] [] m = refl
  same_count (c ∷ cs) (v ∷ vs) m = ap suc (same_count cs vs m.2)
  same_count [] (v ∷ vs) m = absurd m
  same_count (c ∷ cs) [] m = absurd m

add_zero : (n : ℕ) → n + 0 ≡ n
add_zero n = omega arith

further : (n : ℕ) (b p : Bytes) → n + length b + length p ≡ n + length (b ++ p)
further n b p = omega (arith, length-append b p)

module _ {D R : Type 0} (x : External D) (law : KeepsFixed x) where
  deserialize_values_lem :
      (i : ℕ) (cs : List (ColumnCatalog D R)) (vs : List (DataValue D)) (h b : Bytes)
      (id : Option (DataValue D))
      → AllMatch cs vs
      → Marks x i vs h
      → i + length vs ≤ 8 * length h
      → deserialize_values x i cs (h ++ (b ++ body x vs)) (length h + length b) id
        ≡ ok (primary_value id cs (map stored vs), map stored vs)
  unfolding deserialize_values Marks body
  deserialize_values_lem i [] [] h b id m k l = refl
  deserialize_values_lem i (c ∷ cs) (v ∷ vs) h b id (of, storable, m) (mark, k) l =
      let bytes = h ++ (b ++ (piece x v ++ body x vs)) in
      let read = read_value x law i (datatype c) v h b (body x vs) (omega arith) mark of storable in
      let split : bytes ≡ h ++ ((b ++ piece x v) ++ body x vs) =
        ap (h ++◌) (sym (append_assoc b (piece x v) (body x vs))) in
      let next =
        deserialize_values_lem (i + 1) cs vs h (b ++ piece x v)
          (if c.desc.is_primary then some (stored v) else id) m k (omega arith) in
      rw (read, split, further (length h) b (piece x v), next) refl
  deserialize_values_lem i [] (v ∷ vs) h b id m k l = absurd m
  deserialize_values_lem i (c ∷ cs) [] h b id m k l = absurd m

  -- Where integer-encoding and rust_decimal keep their fixed-length forms, a tuple whose values
  -- belong to the types of its columns and can be stored is written without a panic, and what is
  -- read back with the same columns has each value of the tuple, but a null for an empty text,
  -- and for its id the value of the last primary column.
  pub deserialize_from-serialize_to :
      (t : Tuple D R)
      → AllMatch t.columns t.values
      → (bytes : Bytes) × (serialize_to x t ≡ ok bytes)
        × (deserialize_from x t.columns bytes
            ≡ ok (record {
              id = primary_value none t.columns (map stored t.values);
              columns = t.columns;
              values = map stored t.values;
            }))
  unfolding serialize_to deserialize_from
  deserialize_from-serialize_to t m =
      let n = length t.values in
      let h = replicate (bits_len n) 0 in
      let size : length h ≡ bits_len n = length-replicate (bits_len n) 0 in
      let s =
        serialize_values_lem x 0 t.values h [] (zeros-AreBytes (bits_len n)) (omega (arith, size))
          (λ j le. bit_at-zeros (bits_len n) j) in
      let read =
        deserialize_values_lem 0 t.columns t.values s.header [] none m s.marks
          (omega (arith, size, s.same_length)) in
      (
        s.header ++ body x t.values,
        ap (serialize_values x 0 t.values) (sym (append-nil h)) ∙ s.result,
        rw
            (
              same_count t.columns t.values m,
              sym size,
              sym s.same_length,
              sym (add_zero (length s.header)),
              read,
            )
            refl,
      )
