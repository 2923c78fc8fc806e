-- ===== src/Core/Manager/Frame.antt =====
-- What the operations of the manager leave alone: the store, the deleted posts, and the peers but
-- for the messages handed to them.
pub mod Handled
pub mod Published
pub mod Opened
use cable_rs.Base.{
  ℕ, ◌≡◌, ◌∙◌, ◌<◌, arith, refl, ap, Bool, true, false, List, [], ◌∷◌, none, some, ltb, nat_beq,
  Bool-cases, Option-cases, inl, inr, if◌then◌else◌,
}
use cable_rs.Base.Equality.{Eq, ◌==◌, nat_eq}
use cable_rs.Cable.Crypto.{Crypto}
use cable_rs.Cable.Desert.{Desert}
use cable_rs.Cable.Error.{Outcome}
use cable_rs.Cable.Message.{Message, MessageBody, RequestBody}
use cable_rs.Cable.Message as Message
use cable_rs.Cable.Message.New.{hash_response}
use cable_rs.Cable.Types.{Channel, ChannelOptions, CircuitId, Hash, ReqId}
use cable_rs.Core.Manager.{
  CableManager, PeerId, channel_state, decrement_ttl_and_write_to_outbound, get_peer_ids, keep_live,
  new_req_id, next_req_id, remove_live_request, send, send_all, broadcast, write_outbound,
}
use cable_rs.Core.Manager.Handle.{
  channel_page, forward_request, handle_channel_state, handle_request, handle_time_range,
  request_posts, mark_handled, send_and_close,
}
use cable_rs.Core.Manager.Channels.{remove_outbound}
use cable_rs.Core.Manager.Hashes.{range_hashes, state_hashes}
use cable_rs.Core.Manager.Publish.{send_some}
use cable_rs.Core.Map.{Map, insert, lookup, map}
use cable_rs.Core.Step.{Step, continue, continue-keeps}
use cable_rs.Core.Store.{MemoryStore, contains, push}
use mathlib.Core.Path.{subst}

-- What was handled in the first state was handled in the second.
abbrev pub StillHandled : CableManager → CableManager → Type 0
StillHandled m0 m =
    (r : ReqId) → contains r m0.handled_requests ≡ true → contains r m.handled_requests ≡ true

-- The store has a property; the deleted posts, and who the peers are, is as in the other state; the
-- last request ID is a `u32` if it was one there; and no handled request is forgotten.
abbrev pub Framed : (MemoryStore → Type 0) → CableManager → CableManager → Type 0
Framed Q m0 m =
    Q m.store
    × (m.deleted_posts ≡ m0.deleted_posts)
    × ((m.last_peer_id ≡ m0.last_peer_id) × StillHandled m0 m)
    × (get_peer_ids m ≡ get_peer_ids m0)
    × (m0.last_req_id < 4294967296 → m.last_req_id < 4294967296)

-- A value that is put in the place of another one leaves the keys.
keys-insert :
    {V : Type 0} (k : ℕ) (v w : V) (m : Map ℕ V)
    → lookup k m ≡ some w
    → map (λ e. e.0) (insert k v m) ≡ map (λ e. e.0) m
keys-insert k v w [] e = absurd cc
keys-insert k v w ((j, x) ∷ m) e = elim (Bool-cases (k == j)) [
  | inl t ↦ rw t refl
  | inr f ↦ rw f (
      ap (λ ks. j ∷ ks)
        (keys-insert k v w m (subst (λ b. (if b then some x else lookup k m) ≡ some w) f e)))
]

pub next_req_id_bound : (n : ℕ) → n < 4294967296 → next_req_id n < 4294967296
unfolding next_req_id
next_req_id_bound n b = ground arith

module _ (v : Desert) (c : Crypto) (accepts : PeerId → List Message → Bool) where
  module _ (Q : MemoryStore → Type 0) (m0 : CableManager) where
    pub send-Framed :
        (p : PeerId) (msg : Message) (m : CableManager)
        → Framed Q m0 m
        → Framed Q m0 (send accepts p msg m).1
    unfolding send
    send-Framed p msg m k = elim (Option-cases (lookup p m.peers)) [
      | inl n ↦ rw (n, send) k
      | inr (sent, e) ↦ elim (Bool-cases (accepts p sent)) [
        | inl t ↦
            rw (e, t, send) (k.0, k.1, k.2, keys-insert p (push msg sent) sent m.peers e ∙ k.3, k.4)
        | inr f ↦ rw (e, f, send) k
      ]
    ]

    pub send_some-Framed :
        (p : PeerId) (hs : List Hash) (msg : Message) (m : CableManager)
        → Framed Q m0 m
        → Framed Q m0 (send_some v c accepts p hs msg m).1
    send_some-Framed p [] msg m k = k
    send_some-Framed p (_ ∷ _) msg m k = send-Framed p msg m k

    pub forward-Framed :
        (r : ReqId) (msg : Message) (m : CableManager)
        → Framed Q m0 m
        → Framed Q m0 (decrement_ttl_and_write_to_outbound r msg m).1
    unfolding decrement_ttl_and_write_to_outbound write_outbound
    forward-Framed r msg m k =
        continue-keeps (Framed Q m0) _ (Message.decrement_ttl msg, m) k (λ _ t q. q)

    pub forward_request-Framed :
        (ttl : ℕ) (r : ReqId) (msg : Message) (m : CableManager)
        → Framed Q m0 m
        → Framed Q m0 (forward_request ttl r msg m).1
    unfolding forward_request
    forward_request-Framed ttl r msg m k = elim (Bool-cases (ltb 0 ttl)) [
      | inl t ↦ rw (t, forward_request) (forward-Framed r msg m k)
      | inr f ↦ rw (f, forward_request) k
    ]

    module _ (p : PeerId) (circuit : CircuitId) (r : ReqId) where
      handle_time_range-Framed :
          (o : ChannelOptions) (m : CableManager)
          → Framed Q m0 m
          → Framed Q m0 (handle_time_range v c accepts p circuit r o m).1
      unfolding handle_time_range keep_live
      handle_time_range-Framed o m k =
          continue-keeps (Framed Q m0) _ (range_hashes o m.store, m) k
            (λ hs t q. elim (Bool-cases (nat_beq o.time_end 0)) [
              | inl y ↦ rw y (send_some-Framed p hs _ (keep_live p _ t) q)
              | inr n ↦ rw n (send-Framed p _ t q)
            ])

      send_and_close-Framed :
          (hs : List Hash) (m : CableManager)
          → Framed Q m0 m
          → Framed Q m0 (send_and_close v c accepts p circuit r hs m).1
      unfolding send_and_close
      send_and_close-Framed hs m k =
          continue-keeps (Framed Q m0) (λ _. send accepts p (hash_response circuit r []))
            (send_some v c accepts p hs (hash_response circuit r hs) m)
            (send_some-Framed p hs (hash_response circuit r hs) m k)
            (λ _ t q. send-Framed p (hash_response circuit r []) t q)

      handle_channel_state-Framed :
          (ch : Channel) (future : ℕ) (m : CableManager)
          → Framed Q m0 m
          → Framed Q m0 (handle_channel_state v c accepts p circuit r ch future m).1
      unfolding handle_channel_state keep_live
      handle_channel_state-Framed ch future m k = elim (Bool-cases (nat_beq future 0)) [
        | inl y ↦ rw (y, handle_channel_state) (send_and_close-Framed (state_hashes ch m.store) m k)
        | inr n ↦ elim (Bool-cases (nat_beq future 1)) [
          | inl y ↦
              let hs = state_hashes ch m.store in
              rw (n, y, handle_channel_state)
                (send_some-Framed p hs (hash_response circuit r hs)
                  (keep_live p (channel_state r ch) m) k)
          | inr z ↦ rw (n, z, handle_channel_state) k
        ]
      ]

      pub handle_request-Framed :
          (ttl : ℕ) (b : RequestBody) (msg : Message) (m : CableManager)
          → Framed Q m0 m
          → Framed Q m0 (handle_request v c accepts p circuit r ttl b msg m).1
      unfolding handle_request remove_live_request remove_outbound
      handle_request-Framed ttl (Message.post hs) msg m k =
          continue-keeps (Framed Q m0) _ (forward_request ttl r msg m)
            (forward_request-Framed ttl r msg m k) (λ _ t q. send-Framed p _ t q)
      handle_request-Framed ttl (Message.cancel id) msg m k =
          continue-keeps (Framed Q m0) _ (decrement_ttl_and_write_to_outbound r msg m)
            (forward-Framed r msg m k) (λ _ t q. q)
      handle_request-Framed ttl (Message.channel_time_range ch start end limit) msg m k =
          continue-keeps (Framed Q m0) _ (forward_request ttl r msg m)
            (forward_request-Framed ttl r msg m k) (λ _ t q. handle_time_range-Framed _ t q)
      handle_request-Framed ttl (Message.channel_state ch future) msg m k =
          continue-keeps (Framed Q m0) _ (forward_request ttl r msg m)
            (forward_request-Framed ttl r msg m k)
            (λ _ t q. handle_channel_state-Framed ch future t q)
      handle_request-Framed ttl (Message.channel_list skip limit) msg m k =
          continue-keeps (Framed Q m0) _ (forward_request ttl r msg m)
            (forward_request-Framed ttl r msg m k)
            (λ _ t q.
              continue-keeps (Framed Q m0) _ (channel_page skip limit _, t) q
                (λ chs u q'. send-Framed p _ u q'))

      pub request_posts-Framed :
          (hs : List Hash) (m : CableManager)
          → Framed Q m0 m
          → Framed Q m0 (request_posts v c accepts p circuit r hs m).1
      unfolding request_posts new_req_id
      request_posts-Framed [] m k = k
      request_posts-Framed (h ∷ hs) m k =
          continue-keeps (Framed Q m0) _ (send accepts p _ (new_req_id v m).1)
            (send-Framed p _ (new_req_id v m).1
              (k.0, k.1, k.2, k.3, λ b. next_req_id_bound m.last_req_id (k.4 b)))
            (λ _ t q. q)
