-- ===== src/Core/Store/Replay.antt =====
-- Membership as an abstract view: who is a member after any posts is what replaying their joins and
-- leaves gives.
use cable_rs.Base.{
  ℕ, ◌≡◌, ◌≢◌, ◌⊎◌, inl, inr, ◌∙◌, refl, ap, true, false, Bool, ◌&&◌, List, [], ◌∷◌, All,
  Bool-cases, if◌then◌else◌, arith, length,
}
use cable_rs.Base.Equality.{◌==◌, bytes_eq}
use cable_rs.Cable.Crypto.{Crypto}
use cable_rs.Cable.Desert.{Desert}
use cable_rs.Cable.Error.{ok}
use cable_rs.Cable.Post.{
  Post, PostBody, PostHeader, text, delete, info, topic, join, leave, unrecognized, get_public_key,
}
use cable_rs.Cable.Post.Sign.{hash}
use cable_rs.Cable.Types.{Channel, Hash, PublicKey}
use std.Path.{fun_ext}
use cable_rs.Core.Store.{MemoryStore, is_channel_member}
use cable_rs.Core.Store.Insert.{insert_post}
use cable_rs.Core.Store.Membership.{is_listed, insert_post-join, insert_post-leave}
use cable_rs.Core.Store.Unjoined.{insert_post-Same}

-- Who is a member of which channel.
abbrev pub View : Type 0
View = Channel → PublicKey → Bool

-- What a post makes of it.
abbrev pub set_member : Channel → PublicKey → Bool → View → View
set_member c pk b view d q = if d == c && q == pk then b else view d q

abbrev pub apply_post : Post → View → View
apply_post p view = elim p.body [
  | join c ↦ set_member c (get_public_key p) true view
  | leave c ↦ set_member c (get_public_key p) false view
  | _ ↦ view
]

abbrev pub replay : List Post → View → View
replay [] view = view
replay (p ∷ ps) view = replay ps (apply_post p view)

abbrev pub members : MemoryStore → View
members s c pk = is_channel_member c pk s

longer : (x : ℕ) (xs : List ℕ) → (x ∷ xs) ≢ xs
longer x xs e = let n : length (x ∷ xs) ≡ length xs = ap length e in omega (arith, n)

module _ (v : Desert) (c : Crypto) where
  unfoldable pub insert_all : List Post → MemoryStore → MemoryStore
  insert_all [] s = s
  insert_all (p ∷ ps) s = insert_all ps (insert_post v c p s).1

  -- The key and the channel of a join or a leave, or others.
  view_cases :
      (x view : View) (ch : Channel) (pk : PublicKey) (b : Bool) (d : Channel) (q : PublicKey)
      → x ch pk ≡ b
      → ((d ≢ ch) ⊎ (q ≢ pk) → x d q ≡ view d q)
      → x d q ≡ set_member ch pk b view d q
  view_cases x view ch pk b d q same others = elim (Bool-cases (d == ch)) [
    | inr f ↦ rw f (others (inl (λ e. absurd (cc ((bytes_eq.beq_iff d ch).1 e, f)))))
    | inl t ↦ elim (Bool-cases (q == pk)) [
      | inr f ↦ rw (t, f) (others (inr (λ e. absurd (cc ((bytes_eq.beq_iff q pk).1 e, f)))))
      | inl u ↦
          rw (t, u)
            (ap (λ z. x z q) ((bytes_eq.beq_iff d ch).0 t)
              ∙ ap (x ch) ((bytes_eq.beq_iff q pk).0 u)
              ∙ same)
    ]
  ]

  step-members :
      (hd : PostHeader) (b : PostBody) (h : Hash) (s : MemoryStore) (d : Channel) (q : PublicKey)
      → hash v c (record { header = hd; body = b }) ≡ ok h
      → members (insert_post v c (record { header = hd; body = b }) s).1 d q
        ≡ apply_post (record { header = hd; body = b }) (members s) d q
  unfolding is_channel_member
  step-members hd (join ch) h s d q e =
      let p : Post = record { header = hd; body = join ch } in
      view_cases (members (insert_post v c p s).1) (members s) ch hd.public_key true d q
        (insert_post-join v c hd ch (0 ∷ ch) q h s e (inl (longer 0 ch))).1
        (λ o. (insert_post-join v c hd ch d q h s e o).3)
  step-members hd (leave ch) h s d q e =
      let p : Post = record { header = hd; body = leave ch } in
      view_cases (members (insert_post v c p s).1) (members s) ch hd.public_key false d q
        (insert_post-leave v c hd ch (0 ∷ ch) q h s e (inl (longer 0 ch))).1
        (λ o. (insert_post-leave v c hd ch d q h s e o).3)
  step-members hd (text ch t) h s d q e =
      ap (is_listed d q) (insert_post-Same v c (record { header = hd; body = text ch t }) h s e tt)
  step-members hd (topic ch t) h s d q e =
      ap (is_listed d q) (insert_post-Same v c (record { header = hd; body = topic ch t }) h s e tt)
  step-members hd (info i) h s d q e =
      ap (is_listed d q) (insert_post-Same v c (record { header = hd; body = info i }) h s e tt)
  step-members hd (delete gs) h s d q e =
      ap (is_listed d q) (insert_post-Same v c (record { header = hd; body = delete gs }) h s e tt)
  step-members hd (unrecognized k) h s d q e =
      ap (is_listed d q)
        (insert_post-Same v c (record { header = hd; body = unrecognized k }) h s e tt)

  -- After any posts that have hashes were inserted, whether that failed or not, the members of all
  -- channels are what the replay of the posts on the abstract view of the store gives.
  pub insert_all-replay :
      (ps : List Post) (s : MemoryStore)
      → All (λ p. (h : Hash) × (hash v c p ≡ ok h)) ps
      → members (insert_all ps s) ≡ replay ps (members s)
  unfolding insert_all
  insert_all-replay [] s k = refl
  insert_all-replay (p ∷ ps) s k =
      insert_all-replay ps (insert_post v c p s).1 k.1
      ∙ ap (replay ps)
          (fun_ext (λ d. fun_ext (λ q. step-members p.header p.body k.0.0 s d q k.0.1)))
