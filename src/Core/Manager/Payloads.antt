-- ===== src/Core/Manager/Payloads.antt =====
-- What the payloads of a post response put into the store.
use cable_rs.Base.{
  ℕ, ◌≡◌, ◌∙◌, refl, sym, ap, Bool, true, false, not, ◌&&◌, List, [], ◌∷◌, none, Bool-cases, inl,
  inr, nat_beq, length, if◌then◌else◌,
}
use cable_rs.Base.Equality.{◌==◌, bytes_eq}
use cable_rs.Cable.Crypto.{Crypto}
use cable_rs.Cable.Desert.{Desert}
use cable_rs.Cable.Error.{Outcome, ok, err, panic, stuck}
use cable_rs.Cable.Message.{Message}
use cable_rs.Cable.Post.{Post}
use cable_rs.Cable.Post.Decode.{from_bytes}
use cable_rs.Cable.Post.Sign.{hash, verify}
use cable_rs.Cable.Types.{Hash, Payload}
use cable_rs.Core.Manager.{CableManager, PeerId, on_store}
use cable_rs.Core.Manager.Handle.{
  end_request, is_awaited, receive_decoded, receive_payload, receive_payloads, receive_post,
}
use cable_rs.Core.Step.{continue-ends, continue-keeps}
use cable_rs.Core.Store.{contains}
use cable_rs.Core.Store.Fresh.{insert_post-own_hash}
use cable_rs.Core.Store.Insert.{insert_post}
use cable_rs.Core.Store.Posts.{get_post_payload}
use cable_rs.Core.Manager.Sets.{contains-set_remove}

is_awaited-end_request :
    (g h : Hash) (m : CableManager)
    → is_awaited g m ≡ false
    → is_awaited g (end_request h m) ≡ false
is_awaited-end_request g h m e = elim (Bool-cases (contains g m.deleted_posts)) [
  | inl t ↦ rw t refl
  | inr f ↦
      let asked : contains g m.requested_posts ≡ false =
        ap (λ b. not b && contains g m.requested_posts) (sym f) ∙ e in
      rw f (contains-set_remove g h m.requested_posts asked)
]

module _ (v : Desert) (c : Crypto) where
  -- The bytes are those of a post, with a valid signature, that has the hash.
  abbrev pub is_post_of : Hash → Payload → Bool
  is_post_of g bytes = verify c bytes && (elim (from_bytes v bytes) [
    | ok (s, p) ↦ nat_beq s (length bytes) && (elim (hash v c p) [ ok h ↦ g == h | _ ↦ false ])
    | _ ↦ false
  ])

  abbrev pub any_post_of : Hash → List Payload → Bool
  any_post_of g [] = false
  any_post_of g (bytes ∷ posts) =
      let rest = any_post_of g posts in if is_post_of g bytes then true else rest

-- No payload under the hash.
abbrev pub Absent : Hash → CableManager → Type 0
Absent g m = get_post_payload g m.store ≡ none

module _ (v : Desert) (c : Crypto) (accepts : PeerId → List Message → Bool) (g : Hash) where
  -- A post with another hash, or with this one where it is not awaited.
  receive_post-Absent :
      (p : Post) (h : Hash) (m : CableManager)
      → hash v c p ≡ ok h
      → Absent g m
      → ((g == h) ≡ true → is_awaited g m ≡ false)
      → Absent g (receive_post v c accepts p h m).1
  unfolding receive_post
  receive_post-Absent p h m e k n = elim (Bool-cases (is_awaited h m)) [
    | inr f ↦ rw (f, receive_post) k
    | inl t ↦
        rw (t, receive_post)
          (continue-keeps (Absent g) (λ _ s. (ok tt, s))
            (on_store (insert_post v c p) (end_request h m))
            (insert_post-own_hash v c p h g m.store e
              (λ same.
                absurd (cc (t, ap (λ x. is_awaited x m) same, n ((bytes_eq.beq_iff g h).1 same))))
              k)
            (λ _ s q. q))
  ]

  receive_post-is_awaited :
      (p : Post) (h : Hash) (m : CableManager)
      → is_awaited g m ≡ false
      → is_awaited g (receive_post v c accepts p h m).1 ≡ false
  unfolding receive_post
  receive_post-is_awaited p h m e = elim (Bool-cases (is_awaited h m)) [
    | inr f ↦ rw (f, receive_post) e
    | inl t ↦
        rw (t, receive_post)
          (continue-keeps (λ s. is_awaited g s ≡ false) (λ _ s. (ok tt, s))
            (on_store (insert_post v c p) (end_request h m)) (is_awaited-end_request g h m e)
            (λ _ s q. q))
  ]

  -- The post, where all bytes are part of it.
  receive_decoded-Absent :
      (b : Bool) (p : Post) (m : CableManager)
      → Absent g m
      → ((b && (elim (hash v c p) [ ok h ↦ g == h | _ ↦ false ])) ≡ true → is_awaited g m ≡ false)
      → Absent g (receive_decoded v c accepts b p m).1
        × (is_awaited g m ≡ false → is_awaited g (receive_decoded v c accepts b p m).1 ≡ false)
  unfolding receive_decoded
  receive_decoded-Absent false p m k n = (k, λ e. e)
  receive_decoded-Absent true p m k n = hashed (hash v c p) refl
    where
      hashed :
          (x : Outcome Hash)
          → hash v c p ≡ x
          → Absent g (receive_decoded v c accepts true p m).1
            × (is_awaited g m ≡ false
                → is_awaited g (receive_decoded v c accepts true p m).1 ≡ false)
      hashed (ok h) e =
          rw (e, receive_decoded)
            (receive_post-Absent p h m e k (λ same. n (rw e same)), receive_post-is_awaited p h m)
      hashed (err _) e = rw (e, receive_decoded) (k, λ z. z)
      hashed panic e = rw (e, receive_decoded) (k, λ z. z)
      hashed stuck e = rw (e, receive_decoded) (k, λ z. z)

  receive_payload-Absent :
      (bytes : Payload) (m : CableManager)
      → Absent g m
      → (is_post_of v c g bytes ≡ true → is_awaited g m ≡ false)
      → Absent g (receive_payload v c accepts bytes m).1
        × (is_awaited g m ≡ false → is_awaited g (receive_payload v c accepts bytes m).1 ≡ false)
  unfolding receive_payload
  receive_payload-Absent bytes m k n = elim (Bool-cases (verify c bytes)) [
    | inr f ↦ rw (f, receive_payload) (k, λ z. z)
    | inl t ↦ decoded t (from_bytes v bytes) refl
  ]
    where
      decoded :
          verify c bytes ≡ true
          → (x : Outcome (ℕ × Post)) → from_bytes v bytes ≡ x
          → Absent g (receive_payload v c accepts bytes m).1
            × (is_awaited g m ≡ false
                → is_awaited g (receive_payload v c accepts bytes m).1 ≡ false)
      decoded t (ok (s, p)) e =
          rw (t, e, receive_payload)
            (receive_decoded-Absent (nat_beq s (length bytes)) p m k (λ same. n (rw (t, e) same)))
      decoded t (err _) e = rw (t, e, receive_payload) (k, λ z. z)
      decoded t panic e = rw (t, e, receive_payload) (k, λ z. z)
      decoded t stuck e = rw (t, e, receive_payload) (k, λ z. z)

  pub receive_payloads-Absent :
      (posts : List Payload) (m : CableManager)
      → Absent g m
      → (any_post_of v c g posts ≡ true → is_awaited g m ≡ false)
      → Absent g (receive_payloads v c accepts posts m).1
  unfolding receive_payloads
  receive_payloads-Absent [] m k n = k
  receive_payloads-Absent (bytes ∷ posts) m k n =
      let first = receive_payload-Absent bytes m k (λ e. n (rw e refl)) in
      let later : any_post_of v c g posts ≡ true → is_awaited g m ≡ false = λ e.
        elim (Bool-cases (is_post_of v c g bytes)) [ inl t ↦ n (rw t refl) | inr f ↦ n (rw f e) ] in
      continue-ends (Absent g) (λ _. receive_payloads v c accepts posts)
        (receive_payload v c accepts bytes m) first.0
        (λ _ _.
          receive_payloads-Absent posts (receive_payload v c accepts bytes m).1 first.0
            (λ e. first.1 (later e)))
