-- ===== src/Cable/Writer.antt =====
-- Writing into a buffer at an offset: `&mut buf[offset..]`, `copy_from_slice` and `offset +=`.
use cable_rs.Base.{
  ℕ, ◌+◌, ◌≤◌, ◌≡◌, ap, ◌∙◌, List, [], ◌∷◌, ◌++◌, length, drop, length-append, length-drop, ltb,
  leb, if◌then◌else◌, le→leb, arith, sym, All, drop-drop,
}
use cable_rs.Cable.Error.{
  Outcome, ok, panic, raise, err, dst_too_small, varint_dst_insufficient, dst_insufficient, ◌>>=◌,
}
use cable_rs.Cable.Desert.{Desert, DesertLaws, Fits}
use mathlib.Core.List.{append_assoc, append-nil, flat_map}

-- `buf` is `written ++ rest`, and `offset` is the length of `written`.
pub record Buffer : Type 0 where
  pub written : List ℕ
  pub rest : List ℕ

abbrev pub Writer : Type 0
Writer = Buffer → Outcome Buffer

infixr 6 ◌>>◌
abbrev pub ◌>>◌ : Writer → Writer → Writer
◌>>◌ m k b = m b >>= k

abbrev pub overwrite : List ℕ → Buffer → Buffer
overwrite bs b = record { written = b.written ++ bs; rest = drop (length bs) b.rest }

-- Nothing is written.
abbrev pub skip : Writer
skip b = ok b

-- `buf[offset..offset + n].copy_from_slice(bs)`, which panics past the end; `offset += n`
unfoldable pub put_slice : List ℕ → Writer
put_slice bs b = if leb (length bs) (length b.rest) then ok (overwrite bs b) else panic

-- The same behind the guard `if offset + hash.len() > buf.len()`.
unfoldable pub put_checked : List ℕ → Writer
put_checked bs b =
    let provided = length b.written + length b.rest in
    let required = length b.written + length bs in
    if ltb provided required then raise (dst_too_small provided required) else put_slice bs b

-- `offset += varint::encode(n, &mut buf[offset..])?`
unfoldable pub put_varint : Desert → ℕ → Writer
put_varint v n b =
    if ltb (length b.rest) (v.size n)
    then err varint_dst_insufficient
    else ok (overwrite (v.encode n) b)

-- `offset += id.write_bytes(&mut buf[offset..])?` for an array of four bytes
unfoldable pub put_array : Desert → List ℕ → Writer
put_array v bs b =
    if ltb (length b.rest) (length bs)
    then err (dst_insufficient (length b.rest) (length bs))
    else ok (overwrite (v.array bs) b)

-- A loop that writes one thing after another.
unfoldable pub put_each {ℓ} : {A : Type ℓ} → (A → Writer) → List A → Writer
put_each put [] = skip
put_each put (x ∷ xs) = put x >> put_each put xs

-- With room for `bs`, the writer writes `bs` at the offset, moves the offset behind it, and leaves
-- the rest of the buffer.
pub record Writes (m : Writer) (bs : List ℕ) : Type 0 where
  pub run : (b : Buffer) → length bs ≤ length b.rest → m b ≡ ok (overwrite bs b)

overwrite-overwrite :
    (bs cs : List ℕ) (b : Buffer) → overwrite cs (overwrite bs b) ≡ overwrite (bs ++ cs) b
overwrite-overwrite bs cs b =
    λ i. record { written = append_assoc b.written bs cs i; rest = drop-drop bs cs b.rest i }

pub Writes-skip : Writes skip []
Writes-skip = record {
  run = λ b h. λ i. ok (record { written = sym (append-nil b.written) i; rest = b.rest });
}

pub Writes-put_slice : (bs : List ℕ) → Writes (put_slice bs) bs
unfolding put_slice
Writes-put_slice bs = record { run = λ b h. rw (le→leb _ _ h) }

pub Writes-put_checked : (bs : List ℕ) → Writes (put_checked bs) bs
unfolding put_checked put_slice
Writes-put_checked bs = record { run = λ b h. ground arith }

pub Writes-put_varint :
    (v : Desert) → DesertLaws v → (n : ℕ) → Fits n → Writes (put_varint v n) (v.encode n)
unfolding put_varint
Writes-put_varint v laws n fits = record { run = λ b h. ground (arith, laws.length-encode n fits) }

pub Writes-put_array :
    (v : Desert) → DesertLaws v → (bs : List ℕ) → length bs ≡ 4 → Writes (put_array v bs) bs
unfolding put_array
Writes-put_array v laws bs e = record { run = λ b h. rw (laws.array_same bs e) (ground arith) }

pub Writes-seq :
    (m k : Writer) (bs cs : List ℕ) → Writes m bs → Writes k cs → Writes (m >> k) (bs ++ cs)
Writes-seq m k bs cs hm hk = record {
  run = λ b h.
      let room : length bs ≤ length b.rest = omega (arith, length-append bs cs) in
      let more : length cs ≤ length (drop (length bs) b.rest) =
        omega (arith, length-append bs cs, length-drop (length bs) b.rest) in
      rw (hm.run b room) (hk.run (overwrite bs b) more ∙ ap ok (overwrite-overwrite bs cs b));
}

pub Writes-put_each {ℓ} :
    {A : Type ℓ} (put : A → Writer) (bytes : A → List ℕ) (P : A → Type 0)
    → ((x : A) → P x → Writes (put x) (bytes x))
    → (xs : List A) → All P xs
    → Writes (put_each put xs) (flat_map bytes xs)
unfolding put_each flat_map
Writes-put_each put bytes P each [] h = Writes-skip
Writes-put_each put bytes P each (x ∷ xs) h =
    Writes-seq _ _ _ _ (each x h.0) (Writes-put_each put bytes P each xs h.1)
