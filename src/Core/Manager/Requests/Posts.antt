-- ===== src/Core/Manager/Requests/Posts.antt =====
-- The answer to a post request, and the request that a hash response leads to.
use cable_rs.Base.{
  ℕ, zero, suc, ◌≡◌, ◌∙◌, refl, ap, Bool, true, false, not, ◌&&◌, ◌||◌, List, [], ◌∷◌, some, All,
  ltb, arith,
}
use cable_rs.Base.Equality.{bytes_eq, nat_eq}
use cable_rs.Cable.Crypto.{Crypto}
use cable_rs.Cable.Desert.{Desert}
use cable_rs.Cable.Error.{ok}
use cable_rs.Cable.Message.{
  Message, MessageBody, RequestBody, ResponseBody, MessageHeader, decrement_ttl,
}
use cable_rs.Cable.Message as Message
use cable_rs.Cable.Message.New.{post_request, post_response}
use cable_rs.Cable.Types.{Hash, Payload}
use cable_rs.Core.Manager.{
  CableManager, PeerId, request_ttl, decrement_ttl_and_write_to_outbound, new_req_id, next_req_id,
  remote, send, set_extend, write_outbound,
}
use cable_rs.Core.Manager.Handle.{
  forward_request, handle, handle_body, handle_request, handle_response, is_dropped, mark_handled,
  request_posts,
}
use cable_rs.Core.Manager.Requests.Repeats.{handle_lem}
use cable_rs.Core.Manager.Requests.Payloads.{
  Found, get_post_payloads-Found, IsGiven, get_post_payloads-IsGiven,
}
use cable_rs.Core.Manager.Sets.{contains-set_extend}
use cable_rs.Core.Map.{lookup, insert}
use cable_rs.Core.Map.Lookup.{lookup-insert}
use cable_rs.Core.Store.{MemoryStore, contains, push}
use cable_rs.Core.Store.Inserted.{want_lem}
use cable_rs.Core.Store.Posts.{contains_key, get_post_payload, get_post_payloads, want}

-- What forwarding a request leaves as it is.
forward_request_lem :
    (ttl : ℕ) (h : MessageHeader) (b : RequestBody) (m : CableManager)
    → (m' : CableManager) × (forward_request ttl h.req_id
          (record { header = h; body = Message.request ttl b })
          m
        ≡ (ok tt, m'))
      × (m'.peers ≡ m.peers)
      × (m'.store ≡ m.store)
unfolding forward_request decrement_ttl_and_write_to_outbound decrement_ttl write_outbound
forward_request_lem zero h b m = (m, refl, refl, refl)
forward_request_lem (suc n) h b m = (
  write_outbound h.req_id remote (record { header = h; body = Message.request n b }) m,
  (let above : ltb 0 (suc n) ≡ true = ground arith in rw above refl),
  refl,
  refl,
)

module _ (accepts : PeerId → List Message → Bool) where
  pub send_lem :
      (p : PeerId) (msg : Message) (sent : List Message) (m : CableManager)
      → lookup p m.peers ≡ some sent
      → accepts p sent ≡ true
      → send accepts p msg m ≡ (ok tt, record m { peers = insert p (push msg sent) m.peers })
  unfolding send
  send_lem p msg sent m e t = rw (e, t, send) refl

module _ (v : Desert) (c : Crypto) (accepts : PeerId → List Message → Bool) where
  pub answers_lem :
      (p : PeerId) (h : MessageHeader) (ttl : ℕ) (hs : List Hash) (sent : List Message)
      (m : CableManager)
      → is_dropped p h.req_id m ≡ false
      → lookup p m.peers ≡ some sent
      → accepts p sent ≡ true
      → let x =
          handle v c accepts p
            (record { header = h; body = Message.request ttl (Message.post hs) })
            m in
        (x.0 ≡ ok tt)
        × (lookup p x.1.peers
            ≡ some (push (post_response h.circuit_id h.req_id (get_post_payloads hs m.store)) sent))
  unfolding handle_body handle_request mark_handled
  answers_lem p h ttl hs sent m f e t =
      let msg : Message = record { header = h; body = Message.request ttl (Message.post hs) } in
      let (m', forwarded, peers, store) = forward_request_lem ttl h (Message.post hs) m in
      let answer : MemoryStore → Message =
        λ s. post_response h.circuit_id h.req_id (get_post_payloads hs s) in
      let answered = send_lem accepts p (answer m'.store) sent m' (ap (lookup p) peers ∙ e) t in
      rw (handle_lem v c accepts p msg m f, forwarded, answered)
        (
          refl,
          lookup-insert p (push (answer m'.store) sent) m'.peers
              ∙ ap (λ s. some (push (answer s) sent)) store,
        )

  -- A post request that is not dropped is answered, over a channel that takes a message, with one
  -- post response under its IDs, behind what the peer was sent before. Each payload of it is stored
  -- under one of the requested hashes, and for each of these what is stored under it, if anything, is
  -- in it.
  pub handle-post_request :
      (p : PeerId) (h : MessageHeader) (ttl : ℕ) (hs : List Hash) (sent : List Message)
      (m : CableManager)
      → is_dropped p h.req_id m ≡ false
      → lookup p m.peers ≡ some sent
      → accepts p sent ≡ true
      → let x =
          handle v c accepts p
            (record { header = h; body = Message.request ttl (Message.post hs) })
            m in
        (ps : List Payload) × (x.0 ≡ ok tt)
        × (lookup p x.1.peers ≡ some (push (post_response h.circuit_id h.req_id ps) sent))
        × All (Found hs m.store) ps
        × All (λ g. IsGiven ps (get_post_payload g m.store)) hs
  handle-post_request p h ttl hs sent m f e t =
      let (done, answered) = answers_lem p h ttl hs sent m f e t in
      (
        get_post_payloads hs m.store,
        done,
        answered,
        get_post_payloads-Found hs m.store,
        get_post_payloads-IsGiven hs hs m.store (λ g e. e),
      )

  request_posts_lem :
      (p : PeerId) (h : MessageHeader) (ws : List Hash) (g : Hash) (sent : List Message)
      (m : CableManager)
      → lookup p m.peers ≡ some sent
      → accepts p sent ≡ true
      → (m' : CableManager) × (request_posts v c accepts p h.circuit_id h.req_id ws m ≡ (ok tt, m'))
        × (contains g m'.requested_posts ≡ (contains g ws || contains g m.requested_posts))
  unfolding request_posts new_req_id
  request_posts_lem p h [] g sent m e t = (m, refl, refl)
  request_posts_lem p h (w ∷ ws) g sent m e t =
      let m1 = (new_req_id v m).1 in
      let req =
        post_request h.circuit_id (v.u32_bytes (next_req_id m.last_req_id)) request_ttl (w ∷ ws) in
      let m2 : CableManager = record m1 { peers = insert p (push req sent) m1.peers } in
      (
        record m2 { requested_posts = set_extend (w ∷ ws) m2.requested_posts },
        rw (send_lem accepts p req sent m1 e t) refl,
        contains-set_extend g (w ∷ ws) m.requested_posts,
      )

  -- A hash response that is not dropped succeeds over a channel that takes a message. Afterwards a
  -- hash is requested exactly when it was before, or when it stands in the response and the store
  -- has no post for it.
  pub handle-hash_response :
      (p : PeerId) (h : MessageHeader) (hs : List Hash) (g : Hash) (sent : List Message)
      (m : CableManager)
      → is_dropped p h.req_id m ≡ false
      → lookup p m.peers ≡ some sent
      → accepts p sent ≡ true
      → let x =
          handle v c accepts p
            (record { header = h; body = Message.response (Message.hash hs) })
            m in
        (x.0 ≡ ok tt)
        × (contains g x.1.requested_posts
            ≡ ((contains g hs && not (contains_key g m.store)) || contains g m.requested_posts))
  unfolding handle_body handle_response mark_handled
  handle-hash_response p h hs g sent m f e t =
      let msg : Message = record { header = h; body = Message.response (Message.hash hs) } in
      let r = request_posts_lem p h (want hs m.store) g sent m e t in
      rw (handle_lem v c accepts p msg m f) (
        rw r.1 refl,
        rw r.1 (r.2 ∙ ap (λ b. b || contains g m.requested_posts) (want_lem m.store hs g)),
      )
