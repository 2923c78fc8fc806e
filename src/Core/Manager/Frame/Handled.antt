-- ===== src/Core/Manager/Frame/Handled.antt =====
-- What `handle` leaves alone, whatever the message is.
use cable_rs.Base.{Bool, true, false, List, [], ◌∷◌, Bool-cases, inl, inr, nat_beq, length}
use cable_rs.Base.Equality.{bytes_eq, nat_eq}
use cable_rs.Cable.Crypto.{Crypto}
use cable_rs.Cable.Desert.{Desert}
use cable_rs.Cable.Error.{ok}
use cable_rs.Cable.Message.{Message, MessageBody, RequestBody, ResponseBody}
use cable_rs.Cable.Message as Message
use cable_rs.Cable.Types.{Channel, ChannelOptions, CircuitId, Hash, Payload, ReqId}
use cable_rs.Core.Manager.{CableManager, PeerId, on_store}
use cable_rs.Core.Manager.Frame.{Framed, handle_request-Framed, request_posts-Framed}
use cable_rs.Core.Manager.Handle.{
  end_request, handle, handle_body, handle_response, insert_channels, is_awaited, is_dropped,
  mark_handled, receive_decoded, receive_payload, receive_payloads, receive_post,
}
use cable_rs.Cable.Post.{Post}
use cable_rs.Cable.Post.Decode.{from_bytes}
use cable_rs.Cable.Post.Sign.{hash, verify}
use cable_rs.Core.Manager.Sets.{contains-set_add_kept}
use cable_rs.Core.Step.{continue-keeps}
use cable_rs.Core.Store.{MemoryStore, insert_channel}
use cable_rs.Core.Store.Insert.{insert_post}
use cable_rs.Core.Store.Posts.{want, get_posts_live}

-- A property of stores that the insertion of a post and of a channel keep.
pub record KeptByStore (v : Desert) (c : Crypto) (Q : MemoryStore → Type 0) : Type 0 where
  pub post : (p : Post) (s : MemoryStore) → Q s → Q (insert_post v c p s).1
  pub channel : (ch : Channel) (s : MemoryStore) → Q s → Q (insert_channel ch s)
  pub live : (o : ChannelOptions) (s : MemoryStore) → Q s → Q (get_posts_live o s).2

module _ (v : Desert) (c : Crypto) (accepts : PeerId → List Message → Bool)
    (Q : MemoryStore → Type 0) (kept : KeptByStore v c Q) (m0 : CableManager) where
  receive_post-Framed :
      (p : Post) (h : Hash) (m : CableManager)
      → Framed Q m0 m
      → Framed Q m0 (receive_post v c accepts p h m).1
  unfolding receive_post
  receive_post-Framed p h m k = elim (Bool-cases (is_awaited h m)) [
    | inr f ↦ rw (f, receive_post) k
    | inl t ↦
        rw (t, receive_post)
          (continue-keeps (Framed Q m0) (λ _ s. (ok tt, s))
            (on_store (insert_post v c p) (end_request h m))
            (kept.post p m.store k.0, k.1, k.2, k.3, k.4) (λ _ s q. q))
  ]

  receive_decoded-Framed :
      (b : Bool) (p : Post) (m : CableManager)
      → Framed Q m0 m
      → Framed Q m0 (receive_decoded v c accepts b p m).1
  unfolding receive_decoded
  receive_decoded-Framed false p m k = k
  receive_decoded-Framed true p m k =
      continue-keeps (Framed Q m0) (λ h. receive_post v c accepts p h) (hash v c p, m) k
        (λ h s q. receive_post-Framed p h s q)

  receive_payload-Framed :
      (bytes : Payload) (m : CableManager)
      → Framed Q m0 m
      → Framed Q m0 (receive_payload v c accepts bytes m).1
  unfolding receive_payload
  receive_payload-Framed bytes m k = elim (Bool-cases (verify c bytes)) [
    | inr f ↦ rw (f, receive_payload) k
    | inl t ↦
        rw (t, receive_payload)
          (continue-keeps (Framed Q m0) _ (from_bytes v bytes, m) k
            (λ d s q. receive_decoded-Framed (nat_beq d.0 (length bytes)) d.1 s q))
  ]

  receive_payloads-Framed :
      (posts : List Payload) (m : CableManager)
      → Framed Q m0 m
      → Framed Q m0 (receive_payloads v c accepts posts m).1
  unfolding receive_payloads
  receive_payloads-Framed [] m k = k
  receive_payloads-Framed (bytes ∷ posts) m k =
      continue-keeps (Framed Q m0) (λ _. receive_payloads v c accepts posts)
        (receive_payload v c accepts bytes m) (receive_payload-Framed bytes m k)
        (λ _ s q. receive_payloads-Framed posts s q)

  insert_channels-Framed :
      (chs : List Channel) (m : CableManager) → Framed Q m0 m → Framed Q m0 (insert_channels chs m)
  insert_channels-Framed [] m k = k
  insert_channels-Framed (ch ∷ chs) m k =
      insert_channels-Framed chs (record m { store = insert_channel ch m.store })
        (kept.channel ch m.store k.0, k.1, k.2, k.3, k.4)

  handle_body-Framed :
      (p : PeerId) (circuit : CircuitId) (r : ReqId) (b : MessageBody) (msg : Message)
      (m : CableManager)
      → Framed Q m0 m
      → Framed Q m0 (handle_body v c accepts p circuit r b msg m).1
  unfolding handle_body handle_response
  handle_body-Framed p circuit r (Message.request ttl b) msg m k =
      handle_request-Framed v c accepts Q m0 p circuit r ttl b msg m k
  handle_body-Framed p circuit r (Message.response (Message.hash hs)) msg m k =
      request_posts-Framed v c accepts Q m0 p circuit r (want hs m.store) m k
  handle_body-Framed p circuit r (Message.response (Message.posts posts)) msg m k =
      receive_payloads-Framed posts m k
  handle_body-Framed p circuit r (Message.response (Message.channels chs)) msg m k =
      insert_channels-Framed chs m k
  handle_body-Framed p circuit r (Message.unrecognized _) msg m k = k

  pub handle-Framed :
      (p : PeerId) (msg : Message) (m : CableManager)
      → Framed Q m0 m
      → Framed Q m0 (handle v c accepts p msg m).1
  unfolding handle mark_handled
  handle-Framed p msg m k = elim (Bool-cases (is_dropped p msg.header.req_id m)) [
    | inl t ↦ rw (t, handle) k
    | inr f ↦
        rw (f, handle)
          (continue-keeps (Framed Q m0) _
            (handle_body v c accepts p msg.header.circuit_id msg.header.req_id msg.body msg m)
            (handle_body-Framed p msg.header.circuit_id msg.header.req_id msg.body msg m k)
            (λ _ s q. (
              q.0,
              q.1,
              (
                q.2.0,
                λ r e. contains-set_add_kept r msg.header.req_id s.handled_requests (q.2.1 r e),
              ),
              q.3,
              q.4,
            )))
  ]

module _ (v : Desert) (c : Crypto) (accepts : PeerId → List Message → Bool) where
  -- One message after the other; an error of one leaves what it changed.
  unfoldable pub handle_all : List (PeerId × Message) → CableManager → CableManager
  handle_all [] m = m
  handle_all ((p, msg) ∷ msgs) m = handle_all msgs (handle v c accepts p msg m).1

  pub handle_all-Framed :
      (Q : MemoryStore → Type 0)
      → KeptByStore v c Q
      → (m0 : CableManager) (msgs : List (PeerId × Message)) (m : CableManager) → Framed Q m0 m
      → Framed Q m0 (handle_all msgs m)
  unfolding handle_all
  handle_all-Framed Q kept m0 [] m k = k
  handle_all-Framed Q kept m0 ((p, msg) ∷ msgs) m k =
      handle_all-Framed Q kept m0 msgs (handle v c accepts p msg m).1
        (handle-Framed v c accepts Q kept m0 p msg m k)

  -- With nothing of the store.
  pub anything-KeptByStore : KeptByStore v c (λ _. Unit)
  anything-KeptByStore = record { post = λ _ _ _. tt; channel = λ _ _ _. tt; live = λ _ _ _. tt }
