-- ===== src/Cable/Desert.antt =====
-- The calls of the vendored crate `desert`, as a parameter of the codec.
pub mod Leb128
use cable_rs.Base.{ℕ, ◌≤◌, ◌<◌, ◌^◌, ◌≡◌, some, Option, List, ◌++◌, ltb, length, if◌then◌else◌}

-- `size` is `varint::length`; `encode n` is what `varint::encode` writes, given room for `size n`
-- bytes (else it fails with `VarintDstInsufficient`); `decode` returns the number of bytes read and
-- the value, or fails with `VarintSrcInsufficient`. `array` is what `write_bytes` of a `[u8; 4]`
-- writes, given room for four bytes (else it fails with `DstInsufficient`), and `u32_bytes` is
-- `to_bytes` of a `u32`.
pub record Desert : Type 0 where
  pub size : ℕ → ℕ
  pub encode : ℕ → List ℕ
  pub decode : List ℕ → Option (ℕ × ℕ)
  pub array : List ℕ → List ℕ
  pub u32_bytes : ℕ → List ℕ

-- The number of groups of seven bits.
abbrev pub groups : ℕ → ℕ
groups n =
    if ltb n 128
    then 1
    else if ltb n 16384
    then 2
    else if ltb n 2097152
    then 3
    else if ltb n 268435456
    then 4
    else if ltb n 34359738368
    then 5
    else if ltb n 4398046511104
    then 6
    else if ltb n 562949953421312
    then 7
    else 8

-- `varint::decode` reads eight groups of seven bits at most.
abbrev pub Fits : ℕ → Type 0
Fits n = n < 2 ^ 56

-- What the codec relies on: one byte for each group of seven bits, decoding undoes encoding whatever
-- follows, and decoding reads at least one byte, none past the end, and a value of eight groups. An
-- array is written as it is, and a `u32` as four bytes, different numbers differently.
pub record DesertLaws (v : Desert) : Type 0 where
  pub size_groups : (n : ℕ) → Fits n → v.size n ≡ groups n
  pub length-encode : (n : ℕ) → Fits n → length (v.encode n) ≡ v.size n
  pub decode-encode :
      (n : ℕ) (rest : List ℕ) → Fits n → v.decode (v.encode n ++ rest) ≡ some (v.size n, n)
  pub decode_bounds :
      (buf : List ℕ) (s n : ℕ) → v.decode buf ≡ some (s, n) → (1 ≤ s) × (s ≤ length buf) × Fits n
  pub array_same : (bs : List ℕ) → length bs ≡ 4 → v.array bs ≡ bs
  pub length-u32_bytes : (n : ℕ) → n < 2 ^ 32 → length (v.u32_bytes n) ≡ 4
  pub u32_bytes_injective :
      (m n : ℕ) → m < 2 ^ 32 → n < 2 ^ 32 → v.u32_bytes m ≡ v.u32_bytes n → m ≡ n
