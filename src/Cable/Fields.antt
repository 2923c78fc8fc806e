-- ===== src/Cable/Fields.antt =====
-- The two shapes of field that posts and messages share, a counted byte string and a counted list of
-- hashes: how they are written and read, and their bytes.
pub mod Sound
use cable_rs.Base.{ℕ, ◌+◌, ◌*◌, ◌≡◌, true, List, [], ◌∷◌, ◌++◌, length, length-append, All, arith}
use cable_rs.Cable.Reader.{
  Reader, get_varint, get_string, get_hashes, Reads, Reads-bind, Reads-get_varint, Reads-get_string,
  Reads-get_hashes, IsHash, ◌>>=◌,
}
use cable_rs.Cable.Utf8.{valid_utf8}
use cable_rs.Cable.Desert.{Desert, DesertLaws, Fits}
use cable_rs.Cable.Writer.{
  Writer, ◌>>◌, put_slice, put_checked, put_varint, put_each, Writes, Writes-seq, Writes-put_slice,
  Writes-put_checked, Writes-put_varint, Writes-put_each,
}
use mathlib.Core.List.{flat_map}

module _ (v : Desert) where
  -- A length as a varint, and that many bytes.
  unfoldable pub put_sized : List ℕ → Writer
  put_sized s = put_varint v (length s) >> put_slice s

  -- A number of hashes as a varint, and the hashes.
  unfoldable pub put_hashes : List (List ℕ) → Writer
  put_hashes hs = put_varint v (length hs) >> put_each put_checked hs

  unfoldable pub get_sized : Reader (List ℕ)
  get_sized = do n ← get_varint v; get_string n

  unfoldable pub get_counted_hashes : Reader (List (List ℕ))
  get_counted_hashes = do n ← get_varint v; get_hashes n

  abbrev pub sized_bytes : List ℕ → List ℕ
  sized_bytes s = v.encode (length s) ++ s

  abbrev pub hashes_bytes : List (List ℕ) → List ℕ
  hashes_bytes hs = v.encode (length hs) ++ flat_map (λ h. h) hs

-- A number of hashes that fits, and each of 32 bytes.
abbrev pub HashesFit : List (List ℕ) → Type 0
HashesFit hs = Fits (length hs) × All IsHash hs

length-hashes :
    (hs : List (List ℕ)) → All IsHash hs → length (flat_map (λ h. h) hs) ≡ length hs * 32
unfolding flat_map
length-hashes [] h = omega arith
length-hashes (x ∷ hs) h =
    omega (arith, h.0, length-append x (flat_map (λ h. h) hs), length-hashes hs h.1)

module _ (v : Desert) (laws : DesertLaws v) where
  pub Writes-put_sized : (s : List ℕ) → Fits (length s) → Writes (put_sized v s) (sized_bytes v s)
  unfolding put_sized
  Writes-put_sized s h =
      Writes-seq _ _ _ _ (Writes-put_varint v laws (length s) h) (Writes-put_slice s)

  pub Writes-put_hashes :
      (hs : List (List ℕ)) → HashesFit hs → Writes (put_hashes v hs) (hashes_bytes v hs)
  unfolding put_hashes
  Writes-put_hashes hs h =
      Writes-seq _ _ _ _ (Writes-put_varint v laws _ h.0)
        (Writes-put_each _ _ IsHash (λ x _. Writes-put_checked x) hs h.1)

  pub Reads-get_sized :
      (s : List ℕ) → Fits (length s) → valid_utf8 s ≡ true → Reads (get_sized v) (sized_bytes v s) s
  unfolding get_sized
  Reads-get_sized s h e =
      Reads-bind _ _ _ _ _ _ (Reads-get_varint v laws (length s) h) (Reads-get_string s e)

  pub Reads-get_counted_hashes :
      (hs : List (List ℕ)) → HashesFit hs → Reads (get_counted_hashes v) (hashes_bytes v hs) hs
  unfolding get_counted_hashes
  Reads-get_counted_hashes hs h =
      Reads-bind _ _ _ _ _ _ (Reads-get_varint v laws (length hs) h.0) (Reads-get_hashes hs h.1)

  pub length-sized_bytes :
      (s : List ℕ) → Fits (length s) → length (sized_bytes v s) ≡ v.size (length s) + length s
  length-sized_bytes s h =
      omega (arith, length-append (v.encode (length s)) s, laws.length-encode (length s) h)

  pub length-hashes_bytes :
      (hs : List (List ℕ))
      → HashesFit hs
      → length (hashes_bytes v hs) ≡ v.size (length hs) + length hs * 32
  length-hashes_bytes hs h = omega (
    arith,
    length-append (v.encode (length hs)) (flat_map (λ h. h) hs),
    laws.length-encode (length hs) h.0,
    length-hashes hs h.1,
  )
