-- ===== src/Core/Store/Ranges.antt =====
-- What the store gives for the time range of a request, and when the range makes it panic.
use cable_rs.Base.{
  ℕ, ◌≡◌, ◌↔◌, refl, not, Bool, true, false, ◌&&◌, List, some, Bool-cases, inl, inr, nat_beq, ltb,
  leb, arith,
}
use cable_rs.Base.Equality.{option_eq}
use cable_rs.Cable.Error.{ok, panic}
use cable_rs.Cable.Types.{ChannelOptions}
use cable_rs.Core.Map.{Tree, lookup, map, retain}
use cable_rs.Core.Store.{MemoryStore}
use cable_rs.Core.Store.Posts.{Entry, range, channel_entries, get_post_hashes}
use cable_rs.Core.Stream.{in_stream_times}
use mathlib.Core.List.{flat_map}

-- The start lies behind the end, and the end is a bound.
abbrev pub is_reversed : ChannelOptions → Bool
is_reversed o = ltb 0 o.time_end && ltb o.time_end o.time_start

range-reversed :
    {V : Type 0} (start end : ℕ) (t : Tree V)
    → ltb 0 end && ltb end start ≡ true
    → range start end t ≡ panic
range-reversed start end t h = ground (arith, h)

range-ok :
    {V : Type 0} (start end : ℕ) (t : Tree V)
    → ltb 0 end && ltb end start ≡ false
    → (r : Tree V) × (range start end t ≡ ok r)
range-ok start end t h = elim (Bool-cases (nat_beq start 0 && nat_beq end 0)) [
  | inl a ↦ (t, rw a refl)
  | inr a ↦ elim (Bool-cases (nat_beq start 0)) [
    | inl b ↦ (retain (λ e. ltb e.0 end) t, rw (a, b) refl)
    | inr b ↦ elim (Bool-cases (nat_beq end 0)) [
      | inl c ↦ (retain (λ e. leb start e.0) t, rw (a, b, c) refl)
      | inr c ↦
          let d : ltb end start ≡ false = ground (arith, h, c) in
          (retain (λ e. leb start e.0 && ltb e.0 end) t, rw (a, b, c, d) refl)
    ]
  ]
]

-- For a channel that has posts, the hashes of a time range are given, but for a range whose start
-- lies behind its end: there the store panics.
pub get_post_hashes-range :
    (o : ChannelOptions) (s : MemoryStore) (t : Tree (List Entry))
    → lookup (some o.channel) s.posts ≡ some t
    → ((get_post_hashes o s ≡ panic) ↔ (is_reversed o ≡ true))
      × ((is_reversed o ≡ false) ↔ ((hs : List (List ℕ)) × (get_post_hashes o s ≡ ok hs)))
unfolding get_post_hashes
get_post_hashes-range o s t e = elim (Bool-cases (is_reversed o)) [
  | inl r ↦
      let p : get_post_hashes o s ≡ panic =
        rw (e, channel_entries, range-reversed o.time_start o.time_end t r) refl in
      ((λ _. r, λ _. p), (λ f. absurd cc, λ (hs, q). absurd cc))
  | inr r ↦
      let (u, q) = range-ok o.time_start o.time_end t r in
      let hs = map (λ (x : Entry). x.1) (flat_map (λ (x : ℕ × List Entry). x.1) u) in
      let p : get_post_hashes o s ≡ ok hs = rw (e, channel_entries, q) refl in
      ((λ z. absurd cc, λ z. absurd cc), (λ _. (hs, p), λ _. r))
]

-- A time that a live stream with the same options accepts, but for the end of the range.
unfoldable pub before_end : ChannelOptions → ℕ → Bool
before_end o n = in_stream_times o n && not (ltb 0 o.time_end && nat_beq n o.time_end)
