-- ===== src/Cable/Desert/Leb128.antt =====
-- A codec that meets the laws: varints in groups of seven bits, lowest first, the top bit set on every
-- byte but the last. It stands in for the vendored crate in the concrete examples.
use cable_rs.Base.{
  ℕ, zero, suc, ◌+◌, ◌*◌, ◌/◌, ◌%◌, ◌^◌, ◌≤◌, ◌<◌, ◌≡◌, refl, Option, none, some, List, [], ◌∷◌,
  ◌++◌, length, ltb, if◌then◌else◌, arith, inl, inr, min, Option-cases,
}
use cable_rs.Cable.Desert.{Desert, DesertLaws, Fits, groups}

-- The groups of `n`, a byte each, with fuel for the bytes after the first.
write_groups : ℕ → ℕ → List ℕ
write_groups zero n = n ∷ []
write_groups (suc fuel) n =
    let more = write_groups fuel (n / 128) in if ltb n 128 then n ∷ [] else (n % 128 + 128) ∷ more

one_more : ℕ → Option (ℕ × ℕ) → Option (ℕ × ℕ)
one_more b none = none
one_more b (some (s, n)) = some (suc s, b % 128 + 128 * n)

-- The value is cut off after `fuel` groups, as the crate does after eight.
read_groups : ℕ → List ℕ → Option (ℕ × ℕ)
unfolding one_more
read_groups zero bs = some (0, 0)
read_groups (suc fuel) [] = none
read_groups (suc fuel) (b ∷ bs) =
    let more = one_more b (read_groups fuel bs) in if ltb b 128 then some (1, b) else more

unfoldable pub leb128 : Desert
unfolding write_groups read_groups
leb128 = record {
  size = groups;
  encode = write_groups 9;
  decode = read_groups 8;
  array = λ bs. bs;
  u32_bytes = λ n. n / 16777216 ∷ n / 65536 % 256 ∷ n / 256 % 256 ∷ n % 256 ∷ [];
}

big_endian_injective :
    (m n : ℕ)
    → ◌≡◌ {A = List ℕ}
        (m / 16777216 ∷ m / 65536 % 256 ∷ m / 256 % 256 ∷ m % 256 ∷ [])
        (n / 16777216 ∷ n / 65536 % 256 ∷ n / 256 % 256 ∷ n % 256 ∷ [])
    → m ≡ n
big_endian_injective m n e = ground arith

length-write_groups : (n : ℕ) → Fits n → length (write_groups 9 n) ≡ groups n
unfolding write_groups
length-write_groups n h = ground arith

read-write_groups :
    (k f n : ℕ) (rest : List ℕ)
    → n < 128 ^ suc k
    → k ≤ f
    → read_groups (suc k) (write_groups f n ++ rest) ≡ some (length (write_groups f n), n)
unfolding read_groups write_groups
read-write_groups zero zero n rest h le = ground arith
read-write_groups zero (suc f) n rest h le = ground arith
read-write_groups (suc k) zero n rest h le = absurd (omega arith)
read-write_groups (suc k) (suc f) n rest h le =
    ground (arith, read-write_groups k f (n / 128) rest (omega arith) (omega arith))

pow_suc_pos : (k : ℕ) → (128 ^ suc k ≡ 128 * 128 ^ k) × (1 ≤ 128 ^ k)
pow_suc_pos zero = omega arith
pow_suc_pos (suc k) = omega (arith, pow_suc_pos k)

read_groups_bounds :
    (k : ℕ) (buf : List ℕ) (s n : ℕ)
    → read_groups k buf ≡ some (s, n)
    → (min 1 k ≤ s) × (s ≤ length buf) × (n < 128 ^ k)
unfolding read_groups one_more
read_groups_bounds zero buf s n h = ground arith
read_groups_bounds (suc k) [] s n h = cc
read_groups_bounds (suc k) (b ∷ bs) s n h = elim (Option-cases (read_groups k bs)) [
  | inl e ↦ ground (arith, e, pow_suc_pos k)
  | inr ((t, m), e) ↦ ground (arith, e, pow_suc_pos k, read_groups_bounds k bs t m)
]

-- The codec meets what the crate relies on.
pub leb128_laws : DesertLaws leb128
unfolding leb128
leb128_laws = record {
  size_groups = λ n h. refl;
  length-encode = length-write_groups;
  decode-encode = λ n rest h.
      rw (← length-write_groups n h) (read-write_groups 7 9 n rest (omega arith) (omega arith));
  decode_bounds = λ buf s n h.
      let b = read_groups_bounds 8 buf s n h in (omega arith, omega arith, omega arith);
  array_same = λ bs e. refl;
  length-u32_bytes = λ n h. refl;
  u32_bytes_injective = λ m n hm hn e. big_endian_injective m n e;
}
