-- ===== src/Tests/Requests.antt =====
-- Examples for the messages that the manager handles.
use cable_rs.Base.{
  ℕ, ◌≡◌, refl, true, false, Bool, not, ◌&&◌, ◌||◌, List, [], ◌∷◌, ◌++◌, none, some, All, nat_beq,
  arith, inl, replicate, take, min, if◌then◌else◌,
}
use cable_rs.Base.Equality.{bytes_eq, list_beq, nat_eq}
use cable_rs.Cable.Crypto.Toy.{toy}
use cable_rs.Cable.Desert.Leb128.{leb128, leb128_laws}
use cable_rs.Cable.Error.{ok}
use cable_rs.Cable.Message.{Message, MessageBody, MessageHeader, RequestBody, ResponseBody}
use cable_rs.Cable.Message as Message
use cable_rs.Cable.Message.Encode.Bytes.{message_bytes}
use cable_rs.Cable.Message.Encode.Written.{message_to_bytes_lem}
use cable_rs.Cable.Message.New.{post_response}
use cable_rs.Cable.Types.{ChannelOptions, Payload}
use cable_rs.Core.Manager.{CableManager, PeerId, is_live_request, new, remote}
use cable_rs.Core.Manager.Frame.Handled.{handle_all}
use cable_rs.Core.Manager.Handle.{handle, handle_body, handle_response, is_dropped, mark_handled}
use cable_rs.Core.Manager.Hashes.{range_hashes}
use cable_rs.Core.Manager.Answers.{range_hashes-take}
use cable_rs.Core.Manager.Outbound.{process_and_send_outbound_requests, goes_on}
use cable_rs.Core.Manager.Outbound.Sent.{encodings, process_and_send-all}
use cable_rs.Core.Manager.Lock.{counted}
use cable_rs.Core.Manager.Requests.Cancel.{handle-cancel}
use cable_rs.Core.Manager.Requests.Posts.{handle-hash_response, handle-post_request}
use cable_rs.Core.Manager.Requests.Payloads.{Found, IsGiven}
use cable_rs.Core.Manager.Requests.Repeats.{handle-drops_repeats}
use cable_rs.Core.Map.{lookup}
use cable_rs.Core.Store.{contains, push}
use cable_rs.Core.Store.Posts.{contains_key, get_post_hashes, get_post_payload}
use cable_rs.Tests.Messages.{post_request-IsWritable}
use cable_rs.Tests.{channel_list_response, hash32, key32, name, no_posts, post_request}

abbrev accepts_any : PeerId → List Message → Bool
accepts_any p sent = true

-- A manager with one post and one peer.
abbrev with_peer : CableManager
with_peer = record (new 7 (record no_posts { post_payloads = (hash32, name) ∷ [] })) {
  peers = (3, []) ∷ [];
  last_peer_id = 3;
}

abbrev some_header : MessageHeader
some_header = record { msg_type = 2; circuit_id = replicate 4 0; req_id = 4 ∷ 3 ∷ 2 ∷ 1 ∷ [] }

fresh : is_dropped 3 some_header.req_id with_peer ≡ false
unfolding is_dropped is_live_request
fresh = refl

in_hashes : contains hash32 (hash32 ∷ []) ≡ true
unfolding list_beq
in_hashes = refl

stored_name : get_post_payload hash32 with_peer.store ≡ some name
unfolding list_beq
stored_name = refl

handle-post_request_example :
    let x =
      handle leb128 toy accepts_any 3
        (record { header = some_header; body = Message.request 1 (Message.post (hash32 ∷ [])) })
        with_peer in
    (ps : List Payload) × (x.0 ≡ ok tt)
    × (lookup 3 x.1.peers
        ≡ some (push (post_response some_header.circuit_id some_header.req_id ps) []))
    × All (Found (hash32 ∷ []) with_peer.store) ps
    × All (λ g. IsGiven ps (get_post_payload g with_peer.store)) (hash32 ∷ [])
handle-post_request_example =
    handle-post_request leb128 toy accepts_any 3 some_header 1 (hash32 ∷ []) [] with_peer fresh refl
      refl

handle-hash_response_example :
    let x =
      handle leb128 toy accepts_any 3
        (record {
          header = some_header;
          body = Message.response (Message.hash (key32 ∷ hash32 ∷ []));
        })
        with_peer in
    (x.0 ≡ ok tt)
    × (contains key32 x.1.requested_posts ≡ (
        (contains key32 (key32 ∷ hash32 ∷ []) && not (contains_key key32 with_peer.store))
        || contains key32 with_peer.requested_posts))
handle-hash_response_example =
    handle-hash_response leb128 toy accepts_any 3 some_header (key32 ∷ hash32 ∷ []) key32 []
      with_peer fresh refl refl

handle-cancel_example :
    let x =
      handle leb128 toy accepts_any 3
        (record { header = some_header; body = Message.request 1 (Message.cancel key32) })
        with_peer in
    (x.0 ≡ ok tt)
    × (is_live_request 3 key32 x.1 ≡ false)
    × (lookup key32 x.1.outbound_requests ≡ none)
    × (is_live_request 5 key32 x.1 ≡ is_live_request 5 key32 with_peer)
    × (lookup hash32 x.1.outbound_requests ≡ lookup hash32 with_peer.outbound_requests)
handle-cancel_example =
    handle-cancel leb128 toy accepts_any 3 5 some_header 0 key32 key32 hash32 with_peer fresh
      (inl (λ e. absurd (omega (arith, e)))) (λ e. cc) (λ e. cc)

-- Another request, before the repeated one.
abbrev between : List (PeerId × Message)
between =
    (3, record { header = some_header; body = Message.request 0 (Message.post (hash32 ∷ [])) }) ∷ []

abbrev later_requests : CableManager
later_requests =
    handle_all leb128 toy accepts_any between
      (handle leb128 toy accepts_any 3 channel_list_response with_peer).1

handle-drops_repeats_example :
    handle leb128 toy accepts_any 5 post_request later_requests ≡ (ok tt, later_requests)
unfolding handle is_dropped is_live_request handle_body handle_response mark_handled handle_all
    list_beq
handle-drops_repeats_example =
    handle-drops_repeats leb128 toy accepts_any 3 5 channel_list_response post_request between
      with_peer refl refl refl refl

abbrev some_options : ChannelOptions
some_options = record { channel = name; time_start = 0; time_end = 0; limit = 2 }

no_hashes : get_post_hashes some_options no_posts ≡ ok []
unfolding get_post_hashes
no_hashes = refl

range_hashes-take_example :
    range_hashes some_options no_posts ≡ ok (if nat_beq 2 0 then [] else take (min 2 4096) [])
range_hashes-take_example = range_hashes-take some_options no_posts [] no_hashes

abbrev with_request : ℕ → CableManager
with_request ttl = record with_peer {
  outbound_requests =
      (
        some_header.req_id,
        (
          remote,
          record { header = some_header; body = Message.request ttl (Message.post (hash32 ∷ [])) },
        ),
      )
      ∷ [];
}

abbrev waiting : CableManager
waiting = record with_peer {
  outbound_requests = (post_request.header.req_id, (remote, post_request)) ∷ [];
}

waiting-encodings :
    encodings leb128 waiting.outbound_requests ≡ ok (message_bytes leb128 post_request ++ [])
waiting-encodings =
    rw (message_to_bytes_lem leb128 leb128_laws post_request post_request-IsWritable).0 refl

process_and_send-all_example :
    ((process_and_send_outbound_requests counted leb128 5 (waiting, name)).0 ≡ ok goes_on)
    × ((process_and_send_outbound_requests counted leb128 5 (waiting, name)).1.1
        ≡ name ++ (message_bytes leb128 post_request ++ []))
process_and_send-all_example =
    process_and_send-all counted leb128 5 waiting name (message_bytes leb128 post_request ++ [])
      (tt, tt) waiting-encodings
