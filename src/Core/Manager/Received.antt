-- ===== src/Core/Manager/Received.antt =====
-- Which posts of a peer's messages get into the store.
use cable_rs.Base.{
  ℕ, ◌≡◌, refl, Bool, true, false, not, ◌&&◌, List, [], ◌∷◌, none, some, Bool-cases, inl, inr,
}
use cable_rs.Base.Equality.{bytes_eq}
use cable_rs.Cable.Crypto.{Crypto}
use cable_rs.Cable.Desert.{Desert}
use cable_rs.Cable.Message.{Message, MessageBody, RequestBody, ResponseBody}
use cable_rs.Cable.Message as Message
use cable_rs.Cable.Types.{Channel, CircuitId, Hash, ReqId}
use cable_rs.Core.Manager.{CableManager, PeerId}
use cable_rs.Core.Manager.Frame.{handle_request-Framed, request_posts-Framed}
use cable_rs.Core.Manager.Handle.{
  handle, handle_body, handle_response, insert_channels, is_awaited, is_dropped, mark_handled,
}
use cable_rs.Core.Step.{continue-keeps}
use cable_rs.Core.Store.{contains, insert_channel}
use cable_rs.Core.Store.Posts.{get_post_payload, want}
use cable_rs.Core.Manager.Payloads.{Absent, any_post_of, receive_payloads-Absent}

module _ (v : Desert) (c : Crypto) where
  -- The message is a post response with such a post.
  abbrev pub carries : Hash → MessageBody → Bool
  carries g (Message.response (Message.posts posts)) = any_post_of v c g posts
  carries g _ = false

module _ (v : Desert) (c : Crypto) (accepts : PeerId → List Message → Bool) (g : Hash) where
  insert_channels-Absent :
      (chs : List Channel) (m : CableManager) → Absent g m → Absent g (insert_channels chs m)
  insert_channels-Absent [] m k = k
  insert_channels-Absent (ch ∷ chs) m k =
      insert_channels-Absent chs (record m { store = insert_channel ch m.store }) k

  handle_body-Absent :
      (p : PeerId) (circuit : CircuitId) (r : ReqId) (b : MessageBody) (msg : Message)
      (m : CableManager)
      → Absent g m
      → (carries v c g b ≡ true → is_awaited g m ≡ false)
      → Absent g (handle_body v c accepts p circuit r b msg m).1
  unfolding handle_body handle_response
  handle_body-Absent p circuit r (Message.request ttl b) msg m k n =
      (handle_request-Framed v c accepts (λ s. get_post_payload g s ≡ none) m p circuit r ttl b msg
        m (k, refl, (refl, λ _ e. e), refl, λ b. b)).0
  handle_body-Absent p circuit r (Message.response (Message.hash hs)) msg m k n =
      (request_posts-Framed v c accepts (λ s. get_post_payload g s ≡ none) m p circuit r
        (want hs m.store) m (k, refl, (refl, λ _ e. e), refl, λ b. b)).0
  handle_body-Absent p circuit r (Message.response (Message.posts posts)) msg m k n =
      receive_payloads-Absent v c accepts g posts m k n
  handle_body-Absent p circuit r (Message.response (Message.channels chs)) msg m k n =
      insert_channels-Absent chs m k
  handle_body-Absent p circuit r (Message.unrecognized _) msg m k n = k

  pub handle-Absent :
      (p : PeerId) (msg : Message) (m : CableManager)
      → Absent g m
      → (carries v c g msg.body ≡ true → is_awaited g m ≡ false)
      → Absent g (handle v c accepts p msg m).1
  unfolding handle mark_handled
  handle-Absent p msg m k n = elim (Bool-cases (is_dropped p msg.header.req_id m)) [
    | inl t ↦ rw (t, handle) k
    | inr f ↦
        rw (f, handle)
          (continue-keeps (Absent g) _
            (handle_body v c accepts p msg.header.circuit_id msg.header.req_id msg.body msg m)
            (handle_body-Absent p msg.header.circuit_id msg.header.req_id msg.body msg m k n)
            (λ _ s q. q))
  ]

  -- When the handling of a message, however it ends, puts a payload under a hash that had none,
  -- then the message is a post response with the bytes of a post that has this hash and a valid
  -- signature, the hash was among the requested posts, and not among the deleted ones.
  pub handle-stores_requested :
      (p : PeerId) (msg : Message) (m : CableManager) (bs : List ℕ)
      → get_post_payload g m.store ≡ none
      → get_post_payload g (handle v c accepts p msg m).1.store ≡ some bs
      → (carries v c g msg.body ≡ true)
        × (contains g m.requested_posts ≡ true)
        × (contains g m.deleted_posts ≡ false)
  handle-stores_requested p msg m bs k stored = elim (Bool-cases (carries v c g msg.body)) [
    | inr f ↦ absurd (cc (handle-Absent p msg m k (λ e. absurd cc), stored))
    | inl t ↦ elim (Bool-cases (is_awaited g m)) [
      | inr f ↦ absurd (cc (handle-Absent p msg m k (λ _. f), stored))
      | inl w ↦
          let both = awaited_both (contains g m.deleted_posts) (contains g m.requested_posts) w in
          (t, both.0, both.1)
    ]
  ]
    where
      awaited_both : (d r : Bool) → (not d && r) ≡ true → (r ≡ true) × (d ≡ false)
      awaited_both true r e = absurd cc
      awaited_both false true e = (refl, refl)
      awaited_both false false e = absurd cc
