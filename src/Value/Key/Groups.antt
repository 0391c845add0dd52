-- ===== src/Value/Key/Groups.antt =====
-- The loop of `encode_bytes` writes the memory-comparable form of its input, whose order is that
-- of the input.
use kip_sql.Prelude.{
  ℕ, zero, suc, ◌+◌, ◌-◌, ◌/◌, ◌≤◌, ◌<◌, ◌≡◌, refl, sym, ap, ◌∙◌, inl, inr, true, false, [], ◌∷◌,
  ◌++◌, arith, leb, length, take, drop, replicate, Ordering, Bool-cases, length-drop, reverse_cmp,
}
use mathlib.Core.List.{append_assoc}
use native.Mathlib.Nat.{zero-add, suc-add}
use kip_sql.Prelude.Bytes.{
  Bytes, compare_bytes, compare_bytes_refl, compare_bytes_swap, compare_bytes-append,
}
use kip_sql.Value.Key.{
  group_size, encode_marker, encode_group, encode_loop, encode_bytes, realloc_bytes, realloc_size,
}

-- The form, byte by byte: `room` bytes are left in the group. A full group ends with the marker
-- 255, the last one with 255 less its padding.
pub grouped : ℕ → Bytes → Bytes
grouped room [] = replicate room 0 ++ (encode_marker - room) ∷ []
grouped zero (x ∷ xs) = x ∷ encode_marker ∷ grouped group_size xs
grouped (suc zero) (x ∷ xs) = x ∷ encode_marker ∷ grouped group_size xs
grouped (suc (suc room)) (x ∷ xs) = x ∷ grouped (suc room) xs

pub grouped-cons : (x : ℕ) (xs : Bytes) → grouped group_size (x ∷ xs) ≡ x ∷ grouped 7 xs
unfolding grouped
grouped-cons x xs = refl

grouped_full :
    (room : ℕ) (xs : Bytes)
    → suc room ≤ length xs
    → grouped (suc room) xs
      ≡ take (suc room) xs ++ encode_marker ∷ grouped group_size (drop (suc room) xs)
unfolding grouped
grouped_full room [] h = absurd (omega arith)
grouped_full zero (x ∷ xs) h = refl
grouped_full (suc room) (x ∷ xs) h = ap (◌∷◌ x) (grouped_full room xs (omega arith))

grouped_last :
    (room : ℕ) (xs : Bytes)
    → length xs < suc room
    → grouped (suc room) xs
      ≡ xs ++ (replicate (suc room - length xs) 0 ++ (encode_marker - (suc room - length xs)) ∷ [])
unfolding grouped
grouped_last room [] h = let e : suc room - 0 ≡ suc room = omega arith in rw e refl
grouped_last zero (x ∷ xs) h = absurd (omega arith)
grouped_last (suc room) (x ∷ xs) h =
    let e : suc (suc room) - suc (length xs) ≡ suc room - length xs = omega arith in
    rw e (ap (◌∷◌ x) (grouped_last room xs (omega arith)))

drop-nil : (m : ℕ) → drop {A = ℕ} m [] ≡ []
drop-nil zero = refl
drop-nil (suc m) = refl

drop-drop : (m n : ℕ) (xs : Bytes) → drop m (drop n xs) ≡ drop (n + m) xs
drop-drop m zero xs = rw zero-add
drop-drop m (suc n) [] = rw (suc-add n m) (drop-nil m)
drop-drop m (suc n) (x ∷ xs) = rw (suc-add n m) (drop-drop m n xs)

encode_group_full :
    (b bytes : Bytes) (idx : ℕ)
    → idx + group_size ≤ length bytes
    → encode_group b bytes idx ++ grouped group_size (drop (idx + group_size) bytes)
      ≡ b ++ grouped group_size (drop idx bytes)
unfolding encode_group
encode_group_full b bytes idx h =
    let e : leb group_size (length bytes - idx) ≡ true = ground arith in
    rw (e, append_assoc b)
      (ap (◌++◌ b) (
        rw (append_assoc (take group_size (drop idx bytes))) (
          rw (← drop-drop group_size idx bytes)
            (sym (grouped_full 7 (drop idx bytes) (omega (arith, length-drop idx bytes)))))))

encode_group_last :
    (b bytes : Bytes) (idx : ℕ)
    → idx ≤ length bytes
    → length bytes < idx + group_size
    → encode_group b bytes idx ≡ b ++ grouped group_size (drop idx bytes)
unfolding encode_group
encode_group_last b bytes idx h k =
    let e : leb group_size (length bytes - idx) ≡ false = ground arith in
    rw
      (
        e,
        grouped_last 7 (drop idx bytes) (omega (arith, length-drop idx bytes)),
        length-drop idx bytes,
      )
      refl

encode_loop_stop :
    (fuel : ℕ) (b bytes : Bytes) (idx : ℕ) → length bytes < idx → encode_loop fuel b bytes idx ≡ b
unfolding encode_loop
encode_loop_stop zero b bytes idx h = refl
encode_loop_stop (suc fuel) b bytes idx h = ground arith

-- With enough fuel the loop ends by its test, and has written the form of what it had to write.
encode_loop_lem :
    (fuel : ℕ) (b bytes : Bytes) (idx : ℕ)
    → idx ≤ length bytes
    → (length bytes - idx) / group_size + 1 < fuel
    → encode_loop fuel b bytes idx ≡ b ++ grouped group_size (drop idx bytes)
unfolding encode_loop
encode_loop_lem zero b bytes idx h k = absurd (omega arith)
encode_loop_lem (suc fuel) b bytes idx h k =
    let e : leb idx (length bytes) ≡ true = ground arith in
    let b' = encode_group b bytes idx in
    rw e (elim (Bool-cases (leb (idx + group_size) (length bytes))) [
      | inl more ↦
          encode_loop_lem fuel b' bytes (idx + group_size) (ground arith) (ground arith)
          ∙ encode_group_full b bytes idx (ground arith)
      | inr last ↦
          encode_loop_stop fuel b' bytes (idx + group_size) (ground arith)
          ∙ encode_group_last b bytes idx h (ground arith)
    ])

padding_last :
    (room pad : ℕ)
    → suc (suc room) ≤ pad
    → pad ≤ group_size
    → compare_bytes (replicate (suc room) 0 ++ (encode_marker - pad) ∷ []) (grouped (suc room) [])
      ≡ Ordering.lt
unfolding compare_bytes grouped
padding_last room pad h k =
    compare_bytes-append (replicate (suc room) 0) ((encode_marker - pad) ∷ [])
      ((encode_marker - suc room) ∷ [])
    ∙ ground arith

-- The padding of a last group sorts before any group that goes on.
padding_lt :
    (room y : ℕ) (ys : Bytes) (pad : ℕ)
    → suc room ≤ pad
    → pad ≤ group_size
    → compare_bytes
        (replicate (suc room) 0 ++ (encode_marker - pad) ∷ [])
        (grouped (suc room) (y ∷ ys))
      ≡ Ordering.lt
unfolding compare_bytes grouped
padding_lt zero y ys pad h k = ground arith
padding_lt (suc room) (suc y) ys pad h k = ground arith
padding_lt (suc room) zero [] pad h k = padding_last room pad h k
padding_lt (suc room) zero (y ∷ ys) pad h k = padding_lt room y ys pad (omega arith) k

-- The grouped form keeps the order of byte strings.
pub compare-grouped :
    (room : ℕ) (xs ys : Bytes)
    → room < group_size
    → compare_bytes (grouped (suc room) xs) (grouped (suc room) ys) ≡ compare_bytes xs ys
unfolding compare_bytes grouped
compare-grouped room [] [] h = compare_bytes_refl (grouped (suc room) [])
compare-grouped room [] (y ∷ ys) h = padding_lt room y ys (suc room) (omega arith) (omega arith)
compare-grouped room (x ∷ xs) [] h =
    compare_bytes_swap (grouped (suc room) []) (grouped (suc room) (x ∷ xs))
    ∙ ap reverse_cmp (padding_lt room x xs (suc room) (omega arith) (omega arith))
compare-grouped zero (x ∷ xs) (y ∷ ys) h = ground (arith, compare-grouped 7 xs ys)
compare-grouped (suc room) (x ∷ xs) (y ∷ ys) h = ground (arith, compare-grouped room xs ys)

-- What `encode_bytes` appends: the grouped form, behind the zeros of `realloc_bytes`.
pub encode_bytes_lem :
    (b bytes : Bytes)
    → encode_bytes b bytes ≡ realloc_bytes b (realloc_size bytes) ++ grouped group_size bytes
unfolding encode_bytes
encode_bytes_lem b bytes =
    encode_loop_lem (length bytes / group_size + 2) (realloc_bytes b (realloc_size bytes)) bytes 0
      (omega arith) (omega arith)
