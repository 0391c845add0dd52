-- ===== src/Value/Text.antt =====
-- The standard library's texts of Booleans and integers, and its readings of them: `to_string` and
-- `from_str`, on UTF-8 bytes.
use kip_sql.Prelude.{
  ℕ, zero, suc, ◌+◌, ◌-◌, ◌*◌, ◌/◌, ◌%◌, Bool, true, false, ◌&&◌, Option, none, some, [], ◌∷◌, ltb,
  leb, ◌==◌, if◌then◌else◌,
}
use kip_sql.Prelude.Int.{ℤ, pos, negsuc}
use kip_sql.Prelude.Bytes.{Bytes}

-- One call for each digit, the number itself is more than enough.
abbrev digits : ℕ → ℕ → Bytes → Bytes
digits zero n done = done
digits (suc calls) n done =
    let more = digits calls (n / 10) ((48 + n % 10) ∷ done) in
    if ltb n 10 then (48 + n) ∷ done else more

abbrev pub show_ℕ : ℕ → Bytes
show_ℕ n = digits (suc n) n []

abbrev pub show_ℤ : ℤ → Bytes
show_ℤ (pos n) = show_ℕ n
show_ℤ (negsuc n) = 45 ∷ show_ℕ (suc n)

-- `true` and `false`.
abbrev pub show_bool : Bool → Bytes
show_bool true = 116 ∷ 114 ∷ 117 ∷ 101 ∷ []
show_bool false = 102 ∷ 97 ∷ 108 ∷ 115 ∷ 101 ∷ []

abbrev same_text : Bytes → Bytes → Bool
same_text [] [] = true
same_text (a ∷ ws) (b ∷ bs) = a == b && same_text ws bs
same_text _ _ = false

abbrev pub parse_bool_text : Bytes → Option Bool
parse_bool_text text =
    if same_text text (show_bool true)
    then some true
    else if same_text text (show_bool false)
    then some false
    else none

abbrev read_digits : ℕ → Bytes → Option ℕ
read_digits n [] = some n
read_digits n (c ∷ cs) =
    let more = read_digits (10 * n + (c - 48)) cs in if leb 48 c && leb c 57 then more else none

abbrev some_digits : Bytes → Option ℕ
some_digits [] = none
some_digits (c ∷ cs) = read_digits 0 (c ∷ cs)

-- A number below `limit`, with an optional plus.
abbrev below : ℕ → Option ℕ → Option ℕ
below limit none = none
below limit (some n) = if ltb n limit then some n else none

abbrev pub parse_unsigned : ℕ → Bytes → Option ℕ
parse_unsigned limit [] = none
parse_unsigned limit (c ∷ cs) =
    below limit (if c == 43 then some_digits cs else some_digits (c ∷ cs))

abbrev negated : ℕ → Option ℕ → Option ℤ
negated half none = none
negated half (some zero) = some (pos 0)
negated half (some (suc n)) = if ltb n half then some (negsuc n) else none

abbrev positive : Option ℕ → Option ℤ
positive none = none
positive (some n) = some (pos n)

abbrev pub parse_signed : ℕ → Bytes → Option ℤ
parse_signed half [] = none
parse_signed half (c ∷ cs) =
    if c == 45
    then negated half (some_digits cs)
    else positive (below half (if c == 43 then some_digits cs else some_digits (c ∷ cs)))
