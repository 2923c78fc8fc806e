-- ===== src/Cable/Utf8.antt =====
-- What the crate uses of Rust's `String`: a string is its bytes; `String::from_utf8` checks them,
-- and `chars().count()` counts code points.
pub mod Bounds
use cable_rs.Base.{
  ℕ, zero, suc, ◌+◌, Bool, true, false, ◌&&◌, List, [], ◌∷◌, ltb, leb, if◌then◌else◌, Option, none,
  some, nat_beq,
}

-- What may come next: a new code point, or a byte between `lo` and `hi` and `more` after it.
pub data Utf8State : Type 0 where
  start : Utf8State
  next : ℕ → ℕ → ℕ → Utf8State

-- The first byte of a code point (table 3-7 of the Unicode standard).
utf8_lead : ℕ → Option Utf8State
utf8_lead b =
    if ltb b 0x80
    then some start
    else if ltb b 0xc2
    then none
    else if ltb b 0xe0
    then some (next 0x80 0xbf 0)
    else if nat_beq b 0xe0
    then some (next 0xa0 0xbf 1)
    else if nat_beq b 0xed
    then some (next 0x80 0x9f 1)
    else if ltb b 0xf0
    then some (next 0x80 0xbf 1)
    else if nat_beq b 0xf0
    then some (next 0x90 0xbf 2)
    else if ltb b 0xf4
    then some (next 0x80 0xbf 2)
    else if nat_beq b 0xf4
    then some (next 0x80 0x8f 2)
    else none

utf8_after : ℕ → Utf8State
utf8_after zero = start
utf8_after (suc k) = next 0x80 0xbf k

utf8_run : Utf8State → List ℕ → Bool
unfolding utf8_lead utf8_after
utf8_run start [] = true
utf8_run (next lo hi more) [] = false
utf8_run start (b ∷ bs) = elim (utf8_lead b) [ none ↦ false | some st ↦ utf8_run st bs ]
utf8_run (next lo hi more) (b ∷ bs) =
    let rest = utf8_run (utf8_after more) bs in if leb lo b && leb b hi then rest else false

-- `String::from_utf8` succeeds.
unfoldable pub valid_utf8 : List ℕ → Bool
unfolding utf8_run
valid_utf8 = utf8_run start

-- `chars().count()`: the bytes that do not continue a code point.
unfoldable pub chars_count : List ℕ → ℕ
chars_count [] = 0
chars_count (b ∷ bs) =
    let rest = chars_count bs in if leb 0x80 b && ltb b 0xc0 then rest else rest + 1
