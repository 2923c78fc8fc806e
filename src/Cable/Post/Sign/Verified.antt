-- ===== src/Cable/Post/Sign/Verified.antt =====
-- Signing and verification fit together, through the encoding.
use cable_rs.Base.{
  ℕ, ◌≤◌, ◌≡◌, ◌∙◌, sym, ap, refl, true, List, ◌++◌, length, length-append, take, drop,
  take-append_length, drop-append_length, drop-drop, le→not_ltb, some, nat_beq_iff, arith,
}
use cable_rs.Cable.Crypto.{Crypto, CryptoLaws}
use cable_rs.Cable.Desert.{Desert, DesertLaws}
use cable_rs.Cable.Error.{ok}
use cable_rs.Cable.Post.{Post}
use cable_rs.Cable.Post.Encode.{to_bytes}
use cable_rs.Cable.Post.Encode.Bytes.{IsWritable, signed_bytes, post_bytes}
use cable_rs.Cable.Post.Encode.Written.{to_bytes_lem}
use cable_rs.Cable.Post.Sign.{with_signature, sign, verify, hash}

-- The three parts of a buffer that starts with a key and a signature.
parts :
    (key sig rest : List ℕ)
    → length key ≡ 32
    → length sig ≡ 64
    → (take 32 (key ++ (sig ++ rest)) ≡ key)
      × (take 64 (drop 32 (key ++ (sig ++ rest))) ≡ sig)
      × (drop 96 (key ++ (sig ++ rest)) ≡ rest)
      × (96 ≤ length (key ++ (sig ++ rest)))
parts key sig rest hk hs =
    let d : drop 32 (key ++ (sig ++ rest)) ≡ sig ++ rest =
      ap (λ n. drop n (key ++ (sig ++ rest))) (sym hk) ∙ drop-append_length key (sig ++ rest) in
    let e : length (key ++ sig) ≡ 96 = omega (arith, length-append key sig) in
    (
      ap (λ n. take n (key ++ (sig ++ rest))) (sym hk) ∙ take-append_length key (sig ++ rest),
      ap (take 64) d ∙ ap (λ n. take n (sig ++ rest)) (sym hs) ∙ take-append_length sig rest,
      ap (λ n. drop n (key ++ (sig ++ rest))) (sym e)
          ∙ sym (drop-drop key sig (key ++ (sig ++ rest)))
          ∙ ap (λ n. drop n (drop (length key) (key ++ (sig ++ rest)))) refl
          ∙ ap (drop (length sig)) (drop-append_length key (sig ++ rest))
          ∙ drop-append_length sig rest,
      omega (arith, length-append key (sig ++ rest), length-append sig rest),
    )

module _ (v : Desert) (laws : DesertLaws v) (c : Crypto) (Pair : List ℕ → List ℕ → Type 0)
    (crypto : CryptoLaws c Pair) where
  abbrev pub signed : Post → List ℕ → Post
  signed p sk = with_signature p (c.sign_detached (signed_bytes v p) sk)

  pub sign_lem :
      (p : Post) (sk : List ℕ) → IsWritable p → length sk ≡ 64 → sign v c p sk ≡ ok (signed p sk)
  unfolding sign
  sign_lem p sk w l =
      let hd = p.header in
      let (_, _, d, n) =
        parts hd.public_key hd.signature (signed_bytes v p) w.public_key w.signature in
      rw ((to_bytes_lem v laws p w).0, crypto.secret_key_slice sk l, le→not_ltb _ _ n, d)

  -- The signature is no part of what is signed, so a signed post stays writable and keeps its bytes
  -- but for the signature.
  signed-IsWritable : (p : Post) (sk : List ℕ) → IsWritable p → IsWritable (signed p sk)
  signed-IsWritable p sk w = record {
    public_key = w.public_key;
    signature = crypto.length-sign_detached (signed_bytes v p) sk;
    links = w.links;
    timestamp = w.timestamp;
    body = w.body;
  }

  -- A writable post that is signed with the secret key, of 64 bytes, of its author's key pair
  -- changes only in its signature, can be encoded, and its encoding verifies.
  pub verify-sign :
      (p : Post) (sk : List ℕ)
      → IsWritable p
      → Pair p.header.public_key sk
      → length sk ≡ 64
      → (q : Post) × (bs : List ℕ) × (sign v c p sk ≡ ok q)
        × (q.body ≡ p.body)
        × (with_signature q p.header.signature ≡ p)
        × (to_bytes v q ≡ ok bs)
        × (verify c bs ≡ true)
  unfolding verify
  verify-sign p sk w pair l =
      let hd = p.header in
      let sig = c.sign_detached (signed_bytes v p) sk in
      let q = signed p sk in
      let (a, b, d, n) =
        parts hd.public_key sig (signed_bytes v p) w.public_key
          (crypto.length-sign_detached (signed_bytes v p) sk) in
      (
        q,
        post_bytes v q,
        sign_lem p sk w l,
        refl,
        refl,
        (to_bytes_lem v laws q (signed-IsWritable p sk w)).0,
        rw
            (
              le→not_ltb _ _ n,
              a,
              crypto.public_key_slice hd.public_key w.public_key,
              b,
              crypto.signature_parses (signed_bytes v p) sk,
              d,
            )
            (crypto.verify-sign (signed_bytes v p) hd.public_key sk pair),
      )

  -- The hash of a writable post is that of its bytes.
  pub hash_lem :
      (p : Post) (digest : List ℕ)
      → IsWritable p
      → c.generic_hash (post_bytes v p) ≡ some digest
      → length digest ≡ 32
      → hash v c p ≡ ok digest
  unfolding hash
  hash_lem p digest w e n =
      rw ((to_bytes_lem v laws p w).0, e, (nat_beq_iff (length digest) 32).1 n) refl
