-- ===== src/Cable/Utf8/Bounds.antt =====
-- How long an accepted string is.
use cable_rs.Base.{
  ℕ, zero, suc, ◌+◌, ◌≤◌, ◌*◌, ◌≡◌, true, false, ◌&&◌, some, Option-cases, List, [], ◌∷◌, ltb, leb,
  All, refl, ◌<◌, length, arith, inl, inr,
}
use cable_rs.Cable.Utf8.{
  Utf8State, start, next, utf8_lead, utf8_after, utf8_run, valid_utf8, chars_count,
}

-- How many bytes a state still asks for, at most.
abbrev pending : Utf8State → ℕ
pending start = 0
pending (next lo hi more) = more + 1

lead_pending : (b : ℕ) (st : Utf8State) → utf8_lead b ≡ some st → pending st ≤ 3
unfolding utf8_lead
lead_pending b st h = ground arith

after_pending : (k : ℕ) → pending (utf8_after k) ≡ k
unfolding utf8_after
after_pending zero = omega arith
after_pending (suc k) = omega arith

lead_not_continuation :
    (b : ℕ) (st : Utf8State) → utf8_lead b ≡ some st → leb 0x80 b && ltb b 0xc0 ≡ false
unfolding utf8_lead
lead_not_continuation b st h = ground arith

length-le_pending :
    (st : Utf8State) (bs : List ℕ)
    → utf8_run st bs ≡ true
    → length bs ≤ 4 * chars_count bs + pending st
unfolding utf8_run chars_count
length-le_pending start [] h = omega arith
length-le_pending (next lo hi more) [] h = cc
length-le_pending start (b ∷ bs) h = elim (Option-cases (utf8_lead b)) [
  | inl e ↦ ground (arith, e)
  | inr (st, e) ↦
      ground (arith, e, lead_pending b st e, lead_not_continuation b st e, length-le_pending st bs)
]
length-le_pending (next lo hi more) (b ∷ bs) h =
    ground (arith, after_pending more, length-le_pending (utf8_after more) bs)

-- A valid string has four bytes at most for each code point.
pub length-le-chars_count : (s : List ℕ) → valid_utf8 s ≡ true → length s ≤ 4 * chars_count s
unfolding valid_utf8
length-le-chars_count s h = omega (arith, length-le_pending start s h)

lead_ascii : (b : ℕ) → b < 128 → utf8_lead b ≡ some start
unfolding utf8_lead
lead_ascii b h = ground arith

ascii_run : (s : List ℕ) → All (λ b. b < 128) s → utf8_run start s ≡ true
unfolding utf8_run
ascii_run [] h = refl
ascii_run (b ∷ s) h = rw (lead_ascii b h.0, utf8_run) (ascii_run s h.1)

-- ASCII text is valid, with a code point for each byte.
pub ascii_valid :
    (s : List ℕ) → All (λ b. b < 128) s → (valid_utf8 s ≡ true) × (chars_count s ≡ length s)
unfolding valid_utf8 chars_count
ascii_valid [] h = (ascii_run [] h, refl)
ascii_valid (b ∷ s) h = (ascii_run (b ∷ s) h, ground (arith, ascii_valid s h.1))
