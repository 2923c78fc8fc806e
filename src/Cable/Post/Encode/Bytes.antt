-- ===== src/Cable/Post/Encode/Bytes.antt =====
-- The bytes of a post in plain list terms, and that `count_bytes` counts them.
use cable_rs.Base.{ℕ, ◌+◌, ◌≡◌, List, [], ◌∷◌, ◌++◌, length, length-append, All, arith}
use cable_rs.Cable.Fields.{
  sized_bytes, hashes_bytes, HashesFit, length-sized_bytes, length-hashes_bytes,
}
use cable_rs.Cable.Post.{
  PostBody, Post, text, delete, info, topic, join, leave, unrecognized, body_type,
}
use cable_rs.Cable.Post.Encode.{body_size, count_bytes}
use cable_rs.Cable.Types.{UserInfo}
use cable_rs.Cable.Desert.{Desert, DesertLaws, Fits}
use mathlib.Core.List.{flat_map, foldl}

-- What fits an encoding: every number and every length that is written as a varint.
abbrev pub InfoFits : UserInfo → Type 0
InfoFits u = Fits (length u.key) × Fits (length u.val)

abbrev pub BodyFits : PostBody → Type 0
BodyFits (text c t) = Fits (length c) × Fits (length t)
BodyFits (delete hashes) = HashesFit hashes
BodyFits (info i) = All InfoFits i
BodyFits (topic c t) = Fits (length c) × Fits (length t)
BodyFits (join c) = Fits (length c)
BodyFits (leave c) = Fits (length c)
BodyFits (unrecognized _) = ⊥

-- A recognized post whose arrays have their Rust lengths and whose varints fit.
pub record IsWritable (p : Post) : Type 0 where
  pub public_key : length p.header.public_key ≡ 32
  pub signature : length p.header.signature ≡ 64
  pub links : HashesFit p.header.links
  pub timestamp : Fits p.header.timestamp
  pub body : BodyFits p.body

pub BodyFits-type : (b : PostBody) → BodyFits b → Fits (body_type b)
BodyFits-type (text c t) h = omega arith
BodyFits-type (delete hashes) h = omega arith
BodyFits-type (info i) h = omega arith
BodyFits-type (topic c t) h = omega arith
BodyFits-type (join c) h = omega arith
BodyFits-type (leave c) h = omega arith
BodyFits-type (unrecognized _) h = absurd h

module _ (v : Desert) where
  abbrev pub info_bytes : UserInfo → List ℕ
  info_bytes u = sized_bytes v u.key ++ sized_bytes v u.val

  abbrev pub body_bytes : PostBody → List ℕ
  body_bytes (text c t) = sized_bytes v c ++ sized_bytes v t
  body_bytes (delete hashes) = hashes_bytes v hashes
  body_bytes (info i) = flat_map info_bytes i ++ v.encode 0
  body_bytes (topic c t) = sized_bytes v c ++ sized_bytes v t
  body_bytes (join c) = sized_bytes v c
  body_bytes (leave c) = sized_bytes v c
  body_bytes (unrecognized _) = []

  -- What follows the public key and the signature: the part that is signed.
  abbrev pub signed_bytes : Post → List ℕ
  signed_bytes p =
      hashes_bytes v p.header.links
      ++ (v.encode (body_type p.body) ++ (v.encode p.header.timestamp ++ body_bytes p.body))

  abbrev pub post_bytes : Post → List ℕ
  post_bytes p = p.header.public_key ++ (p.header.signature ++ signed_bytes p)

module _ (v : Desert) (laws : DesertLaws v) where
  length-info_bytes :
      (u : UserInfo)
      → InfoFits u
      → length (info_bytes v u)
        ≡ v.size (length u.key) + length u.key + v.size (length u.val) + length u.val
  length-info_bytes u h = omega (
    arith,
    length-append (sized_bytes v u.key) (sized_bytes v u.val),
    length-sized_bytes v laws u.key h.0,
    length-sized_bytes v laws u.val h.1,
  )

  -- The running sum of `count_bytes` against the bytes of the pairs.
  length-infos :
      (i : List UserInfo) (sum : ℕ)
      → All InfoFits i
      → foldl
          (λ sum u.
            sum + v.size (length u.key) + length u.key + v.size (length u.val) + length u.val)
          sum
          i
        ≡ sum + length (flat_map (info_bytes v) i)
  unfolding flat_map
  length-infos [] sum h = omega arith
  length-infos (u ∷ i) sum h = omega (
    arith,
    length-infos i _ h.1,
    length-append (info_bytes v u) (flat_map (info_bytes v) i),
    length-info_bytes u h.0,
  )

  length-pair :
      (c t : List ℕ)
      → Fits (length c)
      → Fits (length t)
      → length (sized_bytes v c ++ sized_bytes v t)
        ≡ v.size (length c) + length c + v.size (length t) + length t
  length-pair c t hc ht = length-info_bytes (record { key = c; val = t }) (hc, ht)

  length-body_bytes : (b : PostBody) → BodyFits b → length (body_bytes v b) ≡ body_size v b
  unfolding body_size
  length-body_bytes (text c t) h = length-pair c t h.0 h.1
  length-body_bytes (delete hashes) h = length-hashes_bytes v laws hashes h
  length-body_bytes (info i) h = omega (
    arith,
    length-append (flat_map (info_bytes v) i) (v.encode 0),
    length-infos i 0 h,
    laws.length-encode 0 (omega arith),
  )
  length-body_bytes (topic c t) h = length-pair c t h.0 h.1
  length-body_bytes (join c) h = length-sized_bytes v laws c h
  length-body_bytes (leave c) h = length-sized_bytes v laws c h
  length-body_bytes (unrecognized _) h = absurd h

  pub length-post_bytes : (p : Post) → IsWritable p → length (post_bytes v p) ≡ count_bytes v p
  unfolding count_bytes
  length-post_bytes p h =
      let hd = p.header in
      let links = hashes_bytes v hd.links in
      let ty = v.encode (body_type p.body) in
      let ts = v.encode hd.timestamp in
      let body = body_bytes v p.body in
      omega (
        arith,
        h.public_key,
        h.signature,
        length-append hd.public_key (hd.signature ++ signed_bytes v p),
        length-append hd.signature (signed_bytes v p),
        length-append links (ty ++ (ts ++ body)),
        length-append ty (ts ++ body),
        length-append ts body,
        length-hashes_bytes v laws hd.links h.links,
        laws.length-encode (body_type p.body) (BodyFits-type p.body h.body),
        laws.length-encode hd.timestamp h.timestamp,
        length-body_bytes p.body h.body,
      )
