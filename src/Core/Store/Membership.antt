-- ===== src/Core/Store/Membership.antt =====
-- Who is a member of a channel after a `post/join` or a `post/leave`.
use cable_rs.Base.{
  ℕ, ◌≡◌, ◌≢◌, ◌⊎◌, inl, inr, ◌∙◌, refl, sym, true, false, Bool, not, List, [], ◌∷◌, none, some,
  Bool-cases, Option-cases,
}
use cable_rs.Base.Equality.{◌==◌, ==_refl, bytes_eq}
use cable_rs.Cable.Crypto.{Crypto}
use cable_rs.Cable.Desert.{Desert}
use cable_rs.Cable.Error.{ok}
use cable_rs.Cable.Post.{Post, PostHeader, join, leave, get_channel}
use cable_rs.Cable.Post.Sign.{hash}
use cable_rs.Cable.Types.{Channel, Hash, PublicKey}
use cable_rs.Core.Map.{Map, lookup, adjust, upsert, retain}
use cable_rs.Core.Map.Lookup.{
  ==_false, lookup-upsert, lookup-upsert_other, lookup-adjust, lookup-adjust_other,
}
use cable_rs.Core.Store.{
  MemoryStore, contains, push, is_channel_member, insert_channel_member, remove_channel_member,
  insert_ex_channel_member, remove_ex_channel_member, update_channel_membership_hashes,
}
use cable_rs.Core.Store.Insert.{insert_body, insert_post, store_payload}
use cable_rs.Core.Store.Inserted.{hash-bytes, insert_post_lem}
use cable_rs.Core.Store.Posts.{insert_post_payload}
use mathlib.Core.Path.{subst}

pub contains-push : (x : List ℕ) (xs : List (List ℕ)) → contains x (push x xs) ≡ true
contains-push x [] = rw (==_refl x) refl
contains-push x (y ∷ ys) = elim (Bool-cases (x == y)) [
  | inl t ↦ rw t refl
  | inr f ↦ rw f (contains-push x ys)
]

pub contains-push_other :
    (x y : List ℕ) (xs : List (List ℕ)) → x ≢ y → contains x (push y xs) ≡ contains x xs
contains-push_other x y [] n = rw (==_false x y n) refl
contains-push_other x y (z ∷ zs) n = elim (Bool-cases (x == z)) [
  | inl t ↦ rw t refl
  | inr f ↦ rw f (contains-push_other x y zs n)
]

pub contains-retain :
    (x : List ℕ) (xs : List (List ℕ)) → contains x (retain (λ y. not (y == x)) xs) ≡ false
contains-retain x [] = refl
contains-retain x (y ∷ ys) = elim (Bool-cases (y == x)) [
  | inl t ↦ rw t (contains-retain x ys)
  | inr f ↦
      rw (f, ==_false x y (λ s. absurd (cc ((bytes_eq.beq_iff y x).1 (sym s), f))))
        (contains-retain x ys)
]

pub contains-retain_other :
    (x y : List ℕ) (xs : List (List ℕ))
    → x ≢ y
    → contains x (retain (λ z. not (z == y)) xs) ≡ contains x xs
contains-retain_other x y [] n = refl
contains-retain_other x y (z ∷ zs) n = elim (Bool-cases (z == y)) [
  | inl t ↦
      rw (t, ==_false x z (λ s. n (s ∙ (bytes_eq.beq_iff z y).0 t)))
        (contains-retain_other x y zs n)
  | inr f ↦ elim (Bool-cases (x == z)) [
    | inl t ↦ rw (f, t) refl
    | inr g ↦ rw (f, g) (contains-retain_other x y zs n)
  ]
]

-- The key stands in the list of a channel.
abbrev pub is_listed : Channel → PublicKey → Map Channel (List PublicKey) → Bool
is_listed c pk m = elim (lookup c m) [ some members ↦ contains pk members | none ↦ false ]

listed-push :
    (c : Channel) (pk : PublicKey) (m : Map Channel (List PublicKey))
    → is_listed c pk (upsert c (push pk) (pk ∷ []) m) ≡ true
listed-push c pk m = elim (Option-cases (lookup c m)) [
  | inl n ↦ rw (lookup-upsert c (push pk) (pk ∷ []) m, n, is_listed) (rw (==_refl pk) refl)
  | inr (xs, e) ↦ rw (lookup-upsert c (push pk) (pk ∷ []) m, e, is_listed) (contains-push pk xs)
]

listed-retain :
    (c : Channel) (pk : PublicKey) (m : Map Channel (List PublicKey))
    → is_listed c pk (adjust c (retain (λ x. not (x == pk))) m) ≡ false
listed-retain c pk m = elim (Option-cases (lookup c m)) [
  | inl n ↦ rw (lookup-adjust c (retain (λ x. not (x == pk))) m, n, is_listed) refl
  | inr (xs, e) ↦
      rw (lookup-adjust c (retain (λ x. not (x == pk))) m, e, is_listed) (contains-retain pk xs)
]

-- Another channel, or another key.
listed-push_other :
    (c d : Channel) (pk q : PublicKey) (m : Map Channel (List PublicKey))
    → (d ≢ c) ⊎ (q ≢ pk)
    → is_listed d q (upsert c (push pk) (pk ∷ []) m) ≡ is_listed d q m
listed-push_other c d pk q m h = elim (Bool-cases (d == c)) [
  | inl t ↦
      let same : d ≡ c = (bytes_eq.beq_iff d c).0 t in
      subst (λ x. is_listed x q (upsert c (push pk) (pk ∷ []) m) ≡ is_listed x q m) (sym same)
        (at-channel (elim h [ inl n ↦ absurd (n same) | inr n ↦ n ]))
  | inr f ↦
      rw
        (
          lookup-upsert_other c d (push pk) (pk ∷ []) m
              (λ s. absurd (cc ((bytes_eq.beq_iff d c).1 s, f))),
          is_listed,
        )
        refl
]
  where
    at-channel : q ≢ pk → is_listed c q (upsert c (push pk) (pk ∷ []) m) ≡ is_listed c q m
    at-channel n = elim (Option-cases (lookup c m)) [
      | inl z ↦ rw (lookup-upsert c (push pk) (pk ∷ []) m, z, is_listed) (rw (==_false q pk n) refl)
      | inr (xs, e) ↦
          rw (lookup-upsert c (push pk) (pk ∷ []) m, e, is_listed) (contains-push_other q pk xs n)
    ]

listed-retain_other :
    (c d : Channel) (pk q : PublicKey) (m : Map Channel (List PublicKey))
    → (d ≢ c) ⊎ (q ≢ pk)
    → is_listed d q (adjust c (retain (λ x. not (x == pk))) m) ≡ is_listed d q m
listed-retain_other c d pk q m h = elim (Bool-cases (d == c)) [
  | inl t ↦
      let same : d ≡ c = (bytes_eq.beq_iff d c).0 t in
      subst (λ x. is_listed x q (adjust c (retain (λ x. not (x == pk))) m) ≡ is_listed x q m)
        (sym same) (at-channel (elim h [ inl n ↦ absurd (n same) | inr n ↦ n ]))
  | inr f ↦
      rw
        (
          lookup-adjust_other c d (retain (λ x. not (x == pk))) m
              (λ s. absurd (cc ((bytes_eq.beq_iff d c).1 s, f))),
          is_listed,
        )
        refl
]
  where
    at-channel : q ≢ pk → is_listed c q (adjust c (retain (λ x. not (x == pk))) m) ≡ is_listed c q m
    at-channel n = elim (Option-cases (lookup c m)) [
      | inl z ↦ rw (lookup-adjust c (retain (λ x. not (x == pk))) m, z, is_listed) refl
      | inr (xs, e) ↦
          rw (lookup-adjust c (retain (λ x. not (x == pk))) m, e, is_listed)
            (contains-retain_other q pk xs n)
    ]

module _ (v : Desert) (c : Crypto) where
  -- After the insertion of a post/join that has a hash, which succeeds, its author is a member of
  -- the channel and no ex-member; any other pair of a channel and a key is a member, and an
  -- ex-member, as before.
  pub insert_post-join :
      (hd : PostHeader) (channel d : Channel) (q : PublicKey) (h : Hash) (s : MemoryStore)
      → hash v c (record { header = hd; body = join channel }) ≡ ok h
      → (d ≢ channel) ⊎ (q ≢ hd.public_key)
      → let r = insert_post v c (record { header = hd; body = join channel }) s in
        (r.0 ≡ ok h)
        × (is_channel_member channel hd.public_key r.1 ≡ true)
        × (is_listed channel hd.public_key r.1.ex_channel_members ≡ false)
        × (is_channel_member d q r.1 ≡ is_channel_member d q s)
        × (is_listed d q r.1.ex_channel_members ≡ is_listed d q s.ex_channel_members)
  unfolding insert_body store_payload insert_post_payload is_channel_member insert_channel_member
      remove_ex_channel_member update_channel_membership_hashes get_channel
  insert_post-join hd channel d q h s e o =
      let p : Post = record { header = hd; body = join channel } in
      let (bs, w) = hash-bytes v c p h e in
      rw (insert_post_lem v c p h s e, w)
        (
          refl,
          listed-push channel hd.public_key s.channel_members,
          listed-retain channel hd.public_key s.ex_channel_members,
          listed-push_other channel d hd.public_key q s.channel_members o,
          listed-retain_other channel d hd.public_key q s.ex_channel_members o,
        )

  -- After the insertion of a post/leave that has a hash, which succeeds, its author is an
  -- ex-member of the channel and no member; any other pair of a channel and a key is a member,
  -- and an ex-member, as before.
  pub insert_post-leave :
      (hd : PostHeader) (channel d : Channel) (q : PublicKey) (h : Hash) (s : MemoryStore)
      → hash v c (record { header = hd; body = leave channel }) ≡ ok h
      → (d ≢ channel) ⊎ (q ≢ hd.public_key)
      → let r = insert_post v c (record { header = hd; body = leave channel }) s in
        (r.0 ≡ ok h)
        × (is_channel_member channel hd.public_key r.1 ≡ false)
        × (is_listed channel hd.public_key r.1.ex_channel_members ≡ true)
        × (is_channel_member d q r.1 ≡ is_channel_member d q s)
        × (is_listed d q r.1.ex_channel_members ≡ is_listed d q s.ex_channel_members)
  unfolding insert_body store_payload insert_post_payload is_channel_member remove_channel_member
      insert_ex_channel_member update_channel_membership_hashes get_channel
  insert_post-leave hd channel d q h s e o =
      let p : Post = record { header = hd; body = leave channel } in
      let (bs, w) = hash-bytes v c p h e in
      rw (insert_post_lem v c p h s e, w)
        (
          refl,
          listed-retain channel hd.public_key s.channel_members,
          listed-push channel hd.public_key s.ex_channel_members,
          listed-retain_other channel d hd.public_key q s.channel_members o,
          listed-push_other channel d hd.public_key q s.ex_channel_members o,
        )
