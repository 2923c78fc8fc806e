-- ===== src/Tests/Exchanges.antt =====
-- Examples for a post that comes from a peer.
mod Deleted
use cable_rs.Base.{
  ℕ, ◌≡◌, ◌≢◌, ◌++◌, arith, ◌∙◌, refl, sym, ap, inl, true, false, Bool, List, [], ◌∷◌, length, none,
  some, nat_beq,
}
use cable_rs.Base.Equality.{◌==◌, ==_refl, bytes_eq, list_beq, nat_eq}
use cable_rs.Cable.Crypto.Toy.{toy}
use cable_rs.Cable.Desert.Leb128.{leb128, leb128_laws}
use cable_rs.Cable.Error.{Outcome, ok}
use cable_rs.Cable.Message.{Message}
use cable_rs.Cable.Post.{Post}
use cable_rs.Cable.Post.Decode.{from_bytes}
use cable_rs.Cable.Post.Decode.RoundTrip.{from_bytes-post_bytes}
use cable_rs.Cable.Post.Decode.Valid.{IsPost}
use cable_rs.Cable.Post.Encode.{count_bytes, to_bytes}
use cable_rs.Cable.Post.Encode.Bytes.{length-post_bytes, post_bytes}
use cable_rs.Cable.Post.Encode.Written.{to_bytes_lem}
use cable_rs.Cable.Post.Sign.{verify}
use cable_rs.Core.Manager.{CableManager, new, is_live_request, request_ttl, next_req_id}
use cable_rs.Cable.Crypto.Toy.{ToyPair, pad, toy_laws}
use cable_rs.Cable.Post.New as New
use cable_rs.Cable.Post.Encode.Bytes.{IsWritable}
use cable_rs.Cable.Post.Sign.{is_signed}
use cable_rs.Cable.Post.Sign.Verified.{sign_lem}
use cable_rs.Core.Manager.Frame.Published.{post-absent}
use cable_rs.Core.Manager.Publish.{sign_if_required}
use cable_rs.Core.Store.Fresh.{insert_post-own_hash}
use cable_rs.Core.Manager.Deleted.{post_delete-stays_deleted}
use cable_rs.Core.Manager.Frame.Handled.{handle_all}
use cable_rs.Core.Manager.Publish.{post_delete}
use cable_rs.Core.Manager.Handle.{
  handle, handle_body, handle_response, is_awaited, is_dropped, mark_handled, receive_decoded,
  receive_payload, receive_payloads, receive_post,
}
use cable_rs.Core.Manager.Received.{carries, handle-stores_requested}
use cable_rs.Core.Map.{lookup}
use cable_rs.Core.Store.{MemoryStore, contains, push}
use cable_rs.Core.Store.Insert.{insert_post}
use cable_rs.Core.Store.Inserted.{insert_post-stored}
use cable_rs.Core.Store.Membership.{insert_post-join}
use cable_rs.Cable.Message.New.{hash_response, post_request, post_response}
use cable_rs.Core.Manager.Requests.Exchange.{exchange-stores, next_id}
use mathlib.Core.List.{append-nil, flat_map}
use cable_rs.Core.Store.Posts.{get_post_payload}
use cable_rs.Tests.{digest, hash_of, join_home, join_home-IsPost, key32, key64, name, no_posts}

abbrev accepts_each : ℕ → List Message → Bool
accepts_each p sent = true

abbrev first_manager : CableManager
first_manager = new 7 no_posts

-- A signed post: in the stand-in the signature repeats the key.
abbrev signed_join : Post
signed_join = record join_home { header = record join_home.header { signature = key64 } }

signed_join-IsPost : IsPost signed_join
signed_join-IsPost = record {
  writable = record {
    public_key = refl;
    signature = refl;
    links = join_home-IsPost.writable.links;
    timestamp = join_home-IsPost.writable.timestamp;
    body = join_home-IsPost.writable.body;
  };
  post_type = refl;
  valid = join_home-IsPost.valid;
}

signed-verify : verify toy (post_bytes leb128 signed_join) ≡ true
unfolding verify list_beq leb128 flat_map
signed-verify = refl

abbrev signed_bytes : List ℕ
signed_bytes = post_bytes leb128 signed_join

signed-decodes : from_bytes leb128 signed_bytes ≡ ok (count_bytes leb128 signed_join, signed_join)
signed-decodes =
    ap (from_bytes leb128) (sym (append-nil signed_bytes))
    ∙ from_bytes-post_bytes leb128 leb128_laws signed_join [] signed_join-IsPost

-- The post is asked for, and comes in a post response.
abbrev asking : CableManager
asking = record first_manager { requested_posts = digest signed_join ∷ [] }

abbrev answer : Message
answer = post_response (0 ∷ 0 ∷ 0 ∷ 0 ∷ []) (1 ∷ 2 ∷ 3 ∷ 4 ∷ []) (signed_bytes ∷ [])

signed-whole : nat_beq (count_bytes leb128 signed_join) (length signed_bytes) ≡ true
signed-whole =
    ap (λ k. nat_beq (count_bytes leb128 signed_join) k)
      (length-post_bytes leb128 leb128_laws signed_join signed_join-IsPost.writable)
    ∙ ==_refl (count_bytes leb128 signed_join)

signed-read : from_bytes leb128 signed_bytes ≡ ok (length signed_bytes, signed_join)
signed-read =
    signed-decodes
    ∙ ap (λ k. ok (k, signed_join))
        (sym (length-post_bytes leb128 leb128_laws signed_join signed_join-IsPost.writable))

abbrev stored_join : Outcome (List ℕ) × MemoryStore
stored_join = insert_post leb128 toy signed_join no_posts

-- Its insertion succeeds.
signed-inserted : stored_join ≡ (ok (digest signed_join), stored_join.1)
signed-inserted =
    ap (λ o. (o, stored_join.1))
      (insert_post-join leb128 toy signed_join.header name [] key32 (digest signed_join) no_posts
        (hash_of signed_join signed_join-IsPost) (inl (λ e. cc))).0

signed-stored : get_post_payload (digest signed_join) stored_join.1 ≡ some signed_bytes
signed-stored =
    let (bs, w, _, stored, _) =
      insert_post-stored leb128 toy signed_join (digest signed_join) no_posts tt
        (ap (λ x. x.0) signed-inserted) in
    let same : ok bs ≡ ok signed_bytes =
      sym w ∙ (to_bytes_lem leb128 leb128_laws signed_join signed_join-IsPost.writable).0 in
    let equal : bs ≡ signed_bytes = cc same in stored ∙ ap some equal

asked : is_awaited (digest signed_join) asking ≡ true
asked = rw (==_refl (digest signed_join)) refl

received :
    get_post_payload (digest signed_join) (handle leb128 toy accepts_each 3 answer asking).1.store
    ≡ some signed_bytes
unfolding handle is_dropped is_live_request handle_body handle_response receive_payloads
    receive_payload receive_decoded receive_post mark_handled post_response list_beq
received =
    rw
      (
        signed-verify,
        signed-decodes,
        signed-whole,
        hash_of signed_join signed_join-IsPost,
        asked,
        signed-inserted,
      )
      signed-stored

handle-stores_requested_example :
    (carries leb128 toy (digest signed_join) answer.body ≡ true)
    × (contains (digest signed_join) asking.requested_posts ≡ true)
    × (contains (digest signed_join) asking.deleted_posts ≡ false)
handle-stores_requested_example =
    handle-stores_requested leb128 toy accepts_each (digest signed_join) 3 answer asking
      signed_bytes refl received

-- The peer 3 is asked by the one that it knows as 5.
abbrev having : CableManager
having =
    record (new 9 (record no_posts { post_payloads = (digest signed_join, signed_bytes) ∷ [] })) {
      peers = (5, []) ∷ [];
      last_peer_id = 5;
    }

abbrev lacking : CableManager
lacking = record first_manager { peers = (3, []) ∷ []; last_peer_id = 3 }

abbrev some_circuit : List ℕ
some_circuit = 0 ∷ 0 ∷ 0 ∷ 0 ∷ []

abbrev some_id : List ℕ
some_id = 9 ∷ 9 ∷ 9 ∷ 9 ∷ []

nothing_handled :
    (is_dropped 5 (next_id leb128 lacking) having ≡ false)
    × (is_dropped 3 some_id lacking ≡ false)
    × ((next_id leb128 lacking == some_id) ≡ false)
unfolding is_dropped next_req_id list_beq leb128
nothing_handled = (refl, refl, refl)

has_bytes : get_post_payload (digest signed_join) having.store ≡ some signed_bytes
has_bytes = rw (==_refl (digest signed_join)) refl

exchange-stores_example :
    let req =
      post_request some_circuit (next_id leb128 lacking) request_ttl (digest signed_join ∷ []) in
    let reply = post_response some_circuit (next_id leb128 lacking) (signed_bytes ∷ []) in
    let wanting =
      (handle leb128 toy accepts_each 3
        (hash_response some_circuit some_id (digest signed_join ∷ []))
        lacking).1 in
    let answering = (handle leb128 toy accepts_each 5 req having).1 in
    let x = handle leb128 toy accepts_each 3 reply wanting in
    (lookup 3 wanting.peers ≡ some (push req []))
    × (lookup 5 answering.peers ≡ some (push reply []))
    × (x.0 ≡ ok tt)
    × (stored : List ℕ) × (to_bytes leb128 signed_join ≡ ok stored)
    × (get_post_payload (digest signed_join) x.1.store ≡ some stored)
exchange-stores_example =
    exchange-stores leb128 toy accepts_each 3 5 some_circuit some_id (digest signed_join)
      signed_bytes signed_join having lacking [] [] refl refl refl refl nothing_handled.0
      nothing_handled.1 nothing_handled.2 refl has_bytes refl refl signed-verify signed-read
      (hash_of signed_join signed_join-IsPost) tt (ap (λ x. x.0) signed-inserted)
