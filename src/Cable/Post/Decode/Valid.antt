-- ===== src/Cable/Post/Decode/Valid.antt =====
-- The limits that the code sets on a post, stated apart from the functions that check them.
use cable_rs.Base.{ℕ, ◌≤◌, ◌<◌, ◌≡◌, true, List, length, All, arith, Bool-cases, inl, inr, sym, ◌∙◌}
use cable_rs.Base.Equality.{list_beq, list_beq_iff}
use cable_rs.Cable.Error.{ok}
use cable_rs.Cable.Post.{
  PostBody, Post, text, delete, info, topic, join, leave, unrecognized, body_type,
}
use cable_rs.Cable.Post.Encode.Bytes.{IsWritable}
use cable_rs.Cable.Post.Decode.{key_val}
use cable_rs.Cable.Types.{UserInfo}
use cable_rs.Cable.Utf8.{valid_utf8, chars_count}
use cable_rs.Cable.Validation.{validate_channel, validate_text, validate_topic, user_name, name_key}

-- The limits that the code puts on the strings of a post. For a topic these are 521 code points,
-- where the comments and the error text of `validate_topic` say 512.
abbrev pub IsChannel : List ℕ → Type 0
IsChannel c = (valid_utf8 c ≡ true) × (1 ≤ chars_count c) × (chars_count c ≤ 64)

abbrev pub IsText : List ℕ → Type 0
IsText t = (valid_utf8 t ≡ true) × (length t ≤ 4096)

abbrev pub IsTopic : List ℕ → Type 0
IsTopic t = (valid_utf8 t ≡ true) × (chars_count t ≤ 521)

abbrev pub IsInfo : UserInfo → Type 0
IsInfo u =
    (0 < length u.key)
    × (valid_utf8 u.key ≡ true)
    × (valid_utf8 u.val ≡ true)
    × (u.key ≡ name_key → (1 ≤ chars_count u.val) × (chars_count u.val ≤ 32))

abbrev pub BodyValid : PostBody → Type 0
BodyValid (text c t) = IsChannel c × IsText t
BodyValid (delete hashes) = Unit
BodyValid (info i) = All IsInfo i
BodyValid (topic c t) = IsChannel c × IsTopic t
BodyValid (join c) = IsChannel c
BodyValid (leave c) = IsChannel c
BodyValid (unrecognized _) = ⊥

-- A post as the code accepts it: it fits its encoding, its header names the type of its body, and
-- its strings keep to the limits.
pub record IsPost (p : Post) : Type 0 where
  pub writable : IsWritable p
  pub post_type : p.header.post_type ≡ body_type p.body
  pub valid : BodyValid p.body

pub validate_channel-ok : (c : List ℕ) → IsChannel c → validate_channel c ≡ ok tt
unfolding validate_channel
validate_channel-ok c h = ground arith

pub validate_text-ok : (t : List ℕ) → IsText t → validate_text t ≡ ok tt
unfolding validate_text
validate_text-ok t h = ground arith

pub validate_topic-ok : (t : List ℕ) → IsTopic t → validate_topic t ≡ ok tt
unfolding validate_topic
validate_topic-ok t h = ground arith

user_name-ok :
    (val : List ℕ)
    → (1 ≤ chars_count val) × (chars_count val ≤ 32)
    → user_name val ≡ ok (record { key = name_key; val = val })
unfolding user_name
user_name-ok val h = ground arith

pub key_val-ok : (u : UserInfo) → IsInfo u → key_val u.key u.val ≡ ok u
unfolding key_val
key_val-ok u h = elim (Bool-cases (list_beq u.key name_key)) [
  | inl e ↦
      let named : u.key ≡ name_key = (list_beq_iff u.key name_key).0 e in
      rw e (user_name-ok u.val (h.3 named) ∙ λ i. ok (record { key = sym named i; val = u.val }))
  | inr e ↦ rw e
]
