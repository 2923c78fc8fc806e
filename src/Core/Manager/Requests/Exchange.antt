-- ===== src/Core/Manager/Requests/Exchange.antt =====
-- A post on its way from one manager to another: a hash response, the post request that it leads to,
-- and the post response.
use cable_rs.Base.{ℕ, ◌≡◌, ◌∙◌, refl, ap, Bool, true, false, List, [], ◌∷◌, some, none, length}
use cable_rs.Base.Equality.{◌==◌, ==_refl, bytes_eq, nat_eq}
use cable_rs.Cable.Crypto.{Crypto}
use cable_rs.Cable.Desert.{Desert}
use cable_rs.Cable.Error.{ok}
use cable_rs.Cable.Message.{Message}
use cable_rs.Cable.Message.New.{hash_response, post_request, post_response}
use cable_rs.Cable.Post.{Post}
use cable_rs.Cable.Post.Decode.{from_bytes}
use cable_rs.Cable.Post.Encode.{to_bytes}
use cable_rs.Cable.Post.Sign.{hash, verify}
use cable_rs.Cable.Types.{CircuitId, Hash, Payload, ReqId}
use cable_rs.Core.Manager.{CableManager, PeerId, request_ttl, new_req_id, next_req_id, set_extend}
use cable_rs.Core.Manager.Handle.{
  handle, handle_body, handle_response, is_awaited, is_dropped, mark_handled, receive_decoded,
  receive_payload, receive_payloads, receive_post, request_posts,
}
use cable_rs.Core.Manager.Requests.Posts.{answers_lem, send_lem}
use cable_rs.Core.Manager.Requests.Repeats.{handle_lem}
use cable_rs.Core.Manager.Sets.{contains-set_add, contains-set_add_any}
use cable_rs.Core.Map.{lookup, insert}
use cable_rs.Core.Map.Lookup.{lookup-insert}
use cable_rs.Core.Store.{contains, push}
use cable_rs.Core.Store.Insert.{insert_post}
use cable_rs.Core.Store.Inserted.{IsRecognized, insert_post-stored}
use cable_rs.Core.Store.Posts.{contains_key, get_post_payload, get_post_payloads, want}

new_not_dropped :
    (p : PeerId) (r s : ReqId) (m : CableManager)
    → (s == r) ≡ false
    → contains s m.handled_requests ≡ false
    → is_dropped p s (mark_handled r m) ≡ false
unfolding is_dropped mark_handled
new_not_dropped p r s m n f = rw (contains-set_add_any s r m.handled_requests, n, f) refl

-- The request ID that the manager gives out next.
abbrev pub next_id : Desert → CableManager → ReqId
next_id v m = v.u32_bytes (next_req_id m.last_req_id)

-- The state of a manager that has asked a peer for a post.
abbrev asked : Desert → PeerId → CircuitId → Hash → List Message → CableManager → CableManager
asked v p circuit g sent m = record m {
  last_req_id = next_req_id m.last_req_id;
  peers = insert p (push (post_request circuit (next_id v m) request_ttl (g ∷ [])) sent) m.peers;
  requested_posts = set_extend (g ∷ []) m.requested_posts;
}

module _ (v : Desert) (c : Crypto) (accepts : PeerId → List Message → Bool) where
  asks_lem :
      (p : PeerId) (circuit : CircuitId) (r : ReqId) (g : Hash) (sent : List Message)
      (m : CableManager)
      → is_dropped p r m ≡ false
      → lookup p m.peers ≡ some sent
      → accepts p sent ≡ true
      → get_post_payload g m.store ≡ none
      → handle v c accepts p (hash_response circuit r (g ∷ [])) m
        ≡ (ok tt, mark_handled r (asked v p circuit g sent m))
  unfolding handle_body handle_response request_posts new_req_id hash_response want
  asks_lem p circuit r g sent m f e t absent =
      let req = post_request circuit (next_id v m) request_ttl (g ∷ []) in
      let m1 = (new_req_id v m).1 in
      let missing : want (g ∷ []) m.store ≡ g ∷ [] = rw (absent, contains_key, want) refl in
      handle_lem v c accepts p (hash_response circuit r (g ∷ [])) m f
      ∙ rw (missing, send_lem accepts p req sent m1 e t) refl

  receives_lem :
      (p : PeerId) (circuit : CircuitId) (r : ReqId) (g : Hash) (bs : Payload) (post : Post)
      (m : CableManager)
      → is_dropped p r m ≡ false
      → is_awaited g m ≡ true
      → verify c bs ≡ true
      → from_bytes v bs ≡ ok (length bs, post)
      → hash v c post ≡ ok g
      → (insert_post v c post m.store).0 ≡ ok g
      → let x = handle v c accepts p (post_response circuit r (bs ∷ [])) m in
        (x.0 ≡ ok tt) × (x.1.store ≡ (insert_post v c post m.store).1)
  unfolding handle_body handle_response receive_payloads receive_payload receive_decoded
      receive_post mark_handled post_response
  receives_lem p circuit r g bs post m f w good d h i =
      let inserted : insert_post v c post m.store ≡ (ok g, (insert_post v c post m.store).1) =
        ap (λ o. (o, (insert_post v c post m.store).1)) i in
      rw
        (
          handle_lem v c accepts p (post_response circuit r (bs ∷ [])) m f,
          good,
          d,
          ==_refl (length bs),
          h,
          w,
          inserted,
        )
        (refl, refl)

  -- A manager gets a hash response that it does not drop, with the hash of one post, which its
  -- store lacks and which it has not deleted; its next request ID is neither that of the response
  -- nor a handled one. It asks the peer for the post. A manager that does not drop this request,
  -- and has bytes under the hash, answers with them. When they are a signed post of a known type
  -- with this hash, which the store of the first manager inserts, it handles the answer without an
  -- error and then has the post in its store. The channels take both messages.
  pub exchange-stores :
      (at to : PeerId) (circuit : CircuitId) (r : ReqId) (g : Hash) (bs : Payload) (post : Post)
      (a b : CableManager) (to_b to_a : List Message)
      → lookup to a.peers ≡ some to_b
      → lookup at b.peers ≡ some to_a
      → accepts to to_b ≡ true
      → accepts at to_a ≡ true
      → is_dropped to (next_id v b) a ≡ false
      → is_dropped at r b ≡ false
      → (next_id v b == r) ≡ false
      → contains (next_id v b) b.handled_requests ≡ false
      → get_post_payload g a.store ≡ some bs
      → get_post_payload g b.store ≡ none
      → contains g b.deleted_posts ≡ false
      → verify c bs ≡ true
      → from_bytes v bs ≡ ok (length bs, post)
      → hash v c post ≡ ok g
      → IsRecognized post.body
      → (insert_post v c post b.store).0 ≡ ok g
      → let req = post_request circuit (next_id v b) request_ttl (g ∷ []) in
        let answer = post_response circuit (next_id v b) (bs ∷ []) in
        let asking = (handle v c accepts at (hash_response circuit r (g ∷ [])) b).1 in
        let answering = (handle v c accepts to req a).1 in
        let x = handle v c accepts at answer asking in
        (lookup at asking.peers ≡ some (push req to_a))
        × (lookup to answering.peers ≡ some (push answer to_b))
        × (x.0 ≡ ok tt)
        × (stored : List ℕ) × (to_bytes v post ≡ ok stored)
        × (get_post_payload g x.1.store ≡ some stored)
  unfolding post_request get_post_payloads mark_handled
  exchange-stores at to circuit r g bs post a b to_b to_a ea eb ta tb fa fb other fresh has lacks
        kept good d h known i =
      let asking = mark_handled r (asked v at circuit g to_a b) in
      let req = post_request circuit (next_id v b) request_ttl (g ∷ []) in
      let asks = asks_lem at circuit r g to_a b fb eb tb lacks in
      let awaited : is_awaited g asking ≡ true =
        rw (kept, contains-set_add g b.requested_posts) refl in
      let received =
        receives_lem at circuit (next_id v b) g bs post asking
          (new_not_dropped at r (next_id v b) (asked v at circuit g to_a b) other fresh) awaited
          good d h i in
      let payloads : get_post_payloads (g ∷ []) a.store ≡ bs ∷ [] =
        rw (has, get_post_payloads) refl in
      let answered = answers_lem v c accepts to req.header request_ttl (g ∷ []) to_b a fa ea ta in
      let (stored, w, _, found, _) = insert_post-stored v c post g b.store known i in
      rw asks (
        lookup-insert at (push req to_a) b.peers,
        answered.1 ∙ ap (λ ps. some (push (post_response circuit (next_id v b) ps) to_b)) payloads,
        received.0,
        stored,
        w,
        ap (get_post_payload g) received.1 ∙ found,
      )
