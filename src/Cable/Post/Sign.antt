-- ===== src/Cable/Post/Sign.antt =====
-- `Post::hash`, `is_signed`, `sign` and `verify`.
pub mod Verified
use cable_rs.Base.{
  ℕ, Bool, true, false, not, ◌||◌, List, [], ◌∷◌, length, take, drop, nat_beq, ltb, none, some,
  if◌then◌else◌,
}
use cable_rs.Cable.Crypto.{Crypto}
use cable_rs.Cable.Desert.{Desert}
use cable_rs.Cable.Error.{
  Outcome, ok, err, panic, raise, none_error, post_hashing_failed, try_from_slice, ◌>>=◌,
}
use cable_rs.Cable.Post.{Post}
use cable_rs.Cable.Post.Encode.{to_bytes}
use cable_rs.Cable.Types.{Hash}

-- A byte of the signature is not 0.
abbrev pub any_nonzero : List ℕ → Bool
any_nonzero [] = false
any_nonzero (b ∷ bs) = not (nat_beq b 0) || any_nonzero bs

unfoldable pub is_signed : Post → Bool
is_signed p = any_nonzero p.header.signature

abbrev pub with_signature : Post → List ℕ → Post
with_signature p s = record p { header = record p.header { signature = s } }

module _ (v : Desert) (c : Crypto) where
  unfoldable pub hash : Post → Outcome Hash
  hash p = do
    buf ← to_bytes v p
    elim (c.generic_hash buf) [
      | none ↦ raise post_hashing_failed
      | some digest ↦ if nat_beq (length digest) 32 then ok digest else err try_from_slice
    ]

  -- The slice `buf[96..]` panics on a shorter buffer.
  unfoldable pub sign : Post → List ℕ → Outcome Post
  sign p secret_key = do
    buf ← to_bytes v p
    elim (c.secret_key secret_key) [
      | none ↦ raise (none_error "failed to decode secret key from slice")
      | some sk ↦
          if ltb (length buf) 96
          then panic
          else ok (with_signature p (c.sign_detached (drop 96 buf) sk))
    ]

-- Of an encoded post.
unfoldable pub verify : Crypto → List ℕ → Bool
verify c buf = if ltb (length buf) 96 then false else elim (c.public_key (take 32 buf)) [
  | none ↦ false
  | some pk ↦ elim (c.signature (take 64 (drop 32 buf))) [
    | none ↦ false
    | some sig ↦ c.verify_detached sig (drop 96 buf) pk
  ]
]
