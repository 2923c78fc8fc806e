-- ===== src/Core/Store/Inserted.antt =====
-- What `insert_post` leaves in the store of payloads, and what `want` makes of it.
use cable_rs.Base.{
  ℕ, ◌≡◌, ◌∙◌, refl, sym, ap, true, false, Bool, not, ◌&&◌, List, [], ◌∷◌, Option, none, some,
  Bool-cases, inl, inr,
}
use cable_rs.Base.Equality.{◌==◌, bytes_eq}
use cable_rs.Cable.Crypto.{Crypto}
use cable_rs.Cable.Desert.{Desert}
use cable_rs.Cable.Error.{Outcome, ok, err, panic, stuck, >>=-eq-ok}
use cable_rs.Cable.Post.{
  Post, PostBody, text, delete, info, topic, join, leave, unrecognized, get_channel,
}
use cable_rs.Cable.Post.Encode.{to_bytes}
use cable_rs.Cable.Post.Sign.{hash}
use cable_rs.Cable.Types.{Channel, Hash}
use cable_rs.Core.Map.{lookup}
use cable_rs.Core.Map.Lookup.{lookup-insert}
use cable_rs.Core.Store.{MemoryStore, contains}
use cable_rs.Core.Store.Posts.{
  get_post_payload, insert_post_payload, send_post_to_live_streams, contains_key, want,
}
use cable_rs.Core.Step.{Step, continue, continue-ok}
use cable_rs.Core.Store.Insert.{store_payload, delete_all, insert_body, know_channel, insert_post}

and_false : (b : Bool) → (b && false) ≡ false
and_false true = refl
and_false false = refl

-- `want` keeps exactly those of the hashes that have no payload.
pub want_lem :
    (s : MemoryStore) (hs : List Hash) (g : Hash)
    → contains g (want hs s) ≡ (contains g hs && not (contains_key g s))
unfolding want
want_lem s [] g = refl
want_lem s (h ∷ hs) g = elim (Bool-cases (g == h)) [
  | inl t ↦
      let e : contains_key g s ≡ contains_key h s =
        ap (λ x. contains_key x s) ((bytes_eq.beq_iff g h).0 t) in
      elim (Bool-cases (contains_key h s)) [
        | inl k ↦
            let gone : (contains g hs && not (contains_key g s)) ≡ false =
              ap (λ b. contains g hs && not b) (e ∙ k) ∙ and_false (contains g hs) in
            rw (k, t) (want_lem s hs g ∙ gone ∙ sym (ap not (e ∙ k)))
        | inr k ↦ rw (k, t) (sym (ap not (e ∙ k)))
      ]
  | inr f ↦ elim (Bool-cases (contains_key h s)) [
    | inl k ↦ rw (k, f) (want_lem s hs g)
    | inr k ↦ rw (k, f) (want_lem s hs g)
  ]
]

-- A post of a type that the protocol has.
abbrev pub IsRecognized : PostBody → Type 0
IsRecognized (unrecognized _) = ⊥
IsRecognized _ = Unit

pub know_channel-payloads :
    (o : Option Channel) (s : MemoryStore) → (know_channel o s).post_payloads ≡ s.post_payloads
know_channel-payloads none s = refl
know_channel-payloads (some c) s = refl

module _ (v : Desert) (c : Crypto) where
  -- A hash is made of the bytes of the post.
  pub hash-bytes :
      (p : Post) (h : Hash) → hash v c p ≡ ok h → (bs : List ℕ) × (to_bytes v p ≡ ok bs)
  unfolding hash
  hash-bytes p h e = let (bs, w, _) = >>=-eq-ok (to_bytes v p) _ e in (bs, w)

  -- What `store_payload` comes to for a post that has bytes.
  pub store_payload_lem :
      (p : Post) (h : Hash) (bs : List ℕ) (s : MemoryStore)
      → to_bytes v p ≡ ok bs
      → store_payload v c p h s ≡ (ok tt, insert_post_payload h bs s)
  unfolding store_payload
  store_payload_lem p h bs s e = rw e refl

  after-store_payload :
      (p : Post) (h : Hash) (bs : List ℕ) (x : Outcome Unit × MemoryStore)
      → to_bytes v p ≡ ok bs
      → (continue (λ _. store_payload v c p h) x).0 ≡ ok tt
      → get_post_payload h (continue (λ _. store_payload v c p h) x).1 ≡ some bs
  unfolding insert_post_payload
  after-store_payload p h bs (ok _, s) e r =
      rw (store_payload_lem p h bs s e) (lookup-insert h bs s.post_payloads)
  after-store_payload p h bs (err _, s) e r = absurd cc
  after-store_payload p h bs (panic, s) e r = absurd cc
  after-store_payload p h bs (stuck, s) e r = absurd cc

  insert_body-payload :
      (p : Post) (h : Hash) (bs : List ℕ) (b : PostBody) (s : MemoryStore)
      → to_bytes v p ≡ ok bs
      → IsRecognized b
      → (insert_body v c p h b s).0 ≡ ok tt
      → get_post_payload h (insert_body v c p h b s).1 ≡ some bs
  unfolding insert_body store_payload insert_post_payload send_post_to_live_streams
  insert_body-payload p h bs (text _ _) s e t r = rw e (lookup-insert h bs _)
  insert_body-payload p h bs (delete hashes) s e t r =
      after-store_payload p h bs (delete_all v c p h hashes s) e r
  insert_body-payload p h bs (info i) s e t r = rw e (lookup-insert h bs _)
  insert_body-payload p h bs (topic _ _) s e t r = rw e (lookup-insert h bs _)
  insert_body-payload p h bs (join _) s e t r = rw e (lookup-insert h bs _)
  insert_body-payload p h bs (leave _) s e t r = rw e (lookup-insert h bs _)
  insert_body-payload p h bs (unrecognized k) s e t r = absurd t

  -- After a recognized body: the channel becomes known, and the hash is the result.
  abbrev pub finish : Post → Hash → Step MemoryStore Hash
  finish p g = λ s. (ok g, know_channel (get_channel p) s)

  pub insert_post_lem :
      (p : Post) (g : Hash) (s : MemoryStore)
      → hash v c p ≡ ok g
      → insert_post v c p s ≡ continue (λ _. finish p g) (insert_body v c p g p.body s)
  unfolding insert_post
  insert_post_lem p g s e = rw e refl

  insert_post-hash :
      (p : Post) (h : Hash) (s : MemoryStore)
      → (insert_post v c p s).0 ≡ ok h
      → (g : Hash) × (hash v c p ≡ ok g)
  unfolding insert_post
  insert_post-hash p h s r = continue-ok _ (hash v c p, s) h r

  finished :
      (p : Post) (g h : Hash) (P : MemoryStore → Type 0) (x : Outcome Unit × MemoryStore)
      → (x.0 ≡ ok tt → P (know_channel (get_channel p) x.1))
      → (continue (λ _. finish p g) x).0 ≡ ok h
      → (g ≡ h) × P (continue (λ _. finish p g) x).1
  finished p g h P (ok _, s) k r = (cc r, k refl)
  finished p g h P (err _, s) k r = absurd cc
  finished p g h P (panic, s) k r = absurd cc
  finished p g h P (stuck, s) k r = absurd cc

  -- A post of the protocol that was inserted has its bytes in the store under the hash that the call
  -- returned, so that the hash is not wanted any more.
  pub insert_post-stored :
      (p : Post) (h : Hash) (s : MemoryStore)
      → IsRecognized p.body
      → (insert_post v c p s).0 ≡ ok h
      → (bs : List ℕ) × (to_bytes v p ≡ ok bs)
        × (hash v c p ≡ ok h)
        × (get_post_payload h (insert_post v c p s).1 ≡ some bs)
        × (want (h ∷ []) (insert_post v c p s).1 ≡ [])
  unfolding want
  insert_post-stored p h s known r =
      let (g, e) = insert_post-hash p h s r in
      let (bs, w) = hash-bytes p g e in
      let whole = insert_post_lem p g s e in
      let (same, stored) =
        finished p g h (λ t. get_post_payload g t ≡ some bs) (insert_body v c p g p.body s)
          (λ done.
            ap (lookup g) (know_channel-payloads (get_channel p) (insert_body v c p g p.body s).1)
            ∙ insert_body-payload p g bs p.body s w known done)
          (ap (λ x. x.0) (sym whole) ∙ r) in
      let there : get_post_payload h (insert_post v c p s).1 ≡ some bs =
        ap (λ x. get_post_payload h x.1) whole
        ∙ ap (λ x. get_post_payload x (continue (λ _. finish p g) (insert_body v c p g p.body s)).1)
            (sym same)
        ∙ stored in
      (bs, w, e ∙ ap ok same, there, rw (there, contains_key) refl)
