-- ===== src/Prelude/Utf8.antt =====
-- Which byte strings are texts: the test of `String::from_utf8`, by the table of well-formed
-- UTF-8 sequences.
use Prim.Native.Nat.{ℕ, zero, suc}
use mathlib.Core.Bool.{Bool, true, false, ◌&&◌}
use mathlib.Core.List.{List, [], ◌∷◌}
use kip_sql.Prelude.Tests.{ltb, leb, ◌==◌, if◌then◌else◌}

-- Between characters; in one, with bytes to come, the next of them in a range; or refused.
pub data Utf8State : Type 0 where
  ready bad : Utf8State
  expect : ℕ → ℕ → ℕ → Utf8State

lead : ℕ → Utf8State
lead b =
    if ltb b 0x80
    then ready
    else if ltb b 0xc2
    then bad
    else if ltb b 0xe0
    then expect 0 0x80 0xbf
    else if b == 0xe0
    then expect 1 0xa0 0xbf
    else if b == 0xed
    then expect 1 0x80 0x9f
    else if ltb b 0xf0
    then expect 1 0x80 0xbf
    else if b == 0xf0
    then expect 2 0x90 0xbf
    else if ltb b 0xf4
    then expect 2 0x80 0xbf
    else if b == 0xf4
    then expect 2 0x80 0x8f
    else bad

next : Utf8State → ℕ → Utf8State
unfolding lead
next ready b = lead b
next bad b = bad
next (expect zero lo hi) b = if leb lo b && leb b hi then ready else bad
next (expect (suc more) lo hi) b = if leb lo b && leb b hi then expect more 0x80 0xbf else bad

is_utf8_from : Utf8State → List ℕ → Bool
unfolding next
is_utf8_from ready [] = true
is_utf8_from bad [] = false
is_utf8_from (expect _ _ _) [] = false
is_utf8_from s (b ∷ bs) = is_utf8_from (next s b) bs

unfoldable pub is_utf8 : List ℕ → Bool
unfolding is_utf8_from
is_utf8 bs = is_utf8_from ready bs
