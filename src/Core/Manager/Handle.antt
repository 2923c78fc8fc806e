-- ===== src/Core/Manager/Handle.antt =====
-- cable_core/src/manager.rs: `handle`, one function for each message type.
use cable_rs.Base.{
  ℕ, Bool, true, false, not, ◌&&◌, ◌||◌, List, [], ◌∷◌, nat_beq, ltb, length, take, drop, ◌-◌,
  if◌then◌else◌,
}
use cable_rs.Cable.Crypto.{Crypto}
use cable_rs.Cable.Desert.{Desert}
use cable_rs.Cable.Error.{Outcome, ok, panic}
use cable_rs.Cable.Message.{Message, MessageBody, RequestBody, ResponseBody}
use cable_rs.Cable.Message as Message
use cable_rs.Cable.Message.New.{channel_list_response, hash_response, post_request, post_response}
use cable_rs.Cable.Post.{Post}
use cable_rs.Cable.Post.Decode.{from_bytes}
use cable_rs.Cable.Post.Sign.{hash, verify}
use cable_rs.Cable.Types.{Channel, ChannelOptions, CircuitId, Hash, Payload, ReqId}
use cable_rs.Core.Manager.{
  CableManager, PeerId, request_ttl, channel_state, channel_time_range,
  decrement_ttl_and_write_to_outbound, has_key, is_live_request, keep_live, new_req_id, on_store,
  remove_live_request, send, set_add, set_extend, set_remove,
}
use cable_rs.Core.Manager.Channels.{remove_outbound}
use cable_rs.Core.Manager.Hashes.{or_empty, range_hashes, state_hashes}
use cable_rs.Core.Manager.Publish.{send_some}
use cable_rs.Core.Step.{Step, ◌>>=◌, ◌>>◌, lift, modify, get}
use cable_rs.Core.Store.{contains, get_channels, insert_channel}
use cable_rs.Core.Store.Insert.{insert_post}
use cable_rs.Core.Store.Posts.{get_post_payloads, want}

-- The names that `drain(skip..limit)` gives, which panics where `skip` is past the end.
unfoldable pub channel_page : ℕ → ℕ → List Channel → Outcome (List Channel)
channel_page skip limit [] = ok []
channel_page skip limit (ch ∷ chs) =
    let all = ch ∷ chs in
    let end = if nat_beq limit 0 || ltb (length all) limit then length all else limit in
    if ltb end skip then panic else ok (take (end - skip) (drop skip all))

-- Forwarded where the TTL is above 0.
unfoldable pub forward_request : ℕ → ReqId → Message → Step CableManager Unit
forward_request ttl req_id msg =
    if ltb 0 ttl then decrement_ttl_and_write_to_outbound req_id msg else lift (ok tt)

-- The guard of `handle`: the request ID was handled, and is not active.
unfoldable pub is_dropped : PeerId → ReqId → CableManager → Bool
is_dropped p req_id m =
    contains req_id m.handled_requests
    && not (is_live_request p req_id m)
    && not (has_key req_id m.outbound_requests)

unfoldable pub mark_handled : ReqId → CableManager → CableManager
mark_handled req_id m = record m { handled_requests = set_add req_id m.handled_requests }

-- A hash that is asked for and that no deletion names.
abbrev pub is_awaited : Hash → CableManager → Bool
is_awaited h m = not (contains h m.deleted_posts) && contains h m.requested_posts

abbrev pub end_request : Hash → CableManager → CableManager
end_request h m = record m { requested_posts = set_remove h m.requested_posts }

-- The channels of a channel list response.
abbrev pub insert_channels : List Channel → CableManager → CableManager
insert_channels [] m = m
insert_channels (ch ∷ chs) m = insert_channels chs (record m { store = insert_channel ch m.store })

module _ (v : Desert) (c : Crypto) (accepts : PeerId → List Message → Bool) where
  -- One post of a post response.
  unfoldable pub receive_post : Post → Hash → Step CableManager Unit
  receive_post p h m =
      if is_awaited h m
      then (on_store (insert_post v c p) >> lift (ok tt)) (end_request h m)
      else (ok tt, m)

  -- All bytes of the payload are part of the post.
  unfoldable pub receive_decoded : Bool → Post → Step CableManager Unit
  receive_decoded true p = do h ← lift (hash v c p); receive_post p h
  receive_decoded false p = lift (ok tt)

  unfoldable pub receive_payload : Payload → Step CableManager Unit
  receive_payload bytes =
      if verify c bytes
      then (do (s, p) ← lift (from_bytes v bytes); receive_decoded (nat_beq s (length bytes)) p)
      else lift (ok tt)

  unfoldable pub receive_payloads : List Payload → Step CableManager Unit
  receive_payloads [] = lift (ok tt)
  receive_payloads (bytes ∷ posts) = receive_payload bytes >> receive_payloads posts

  module _ (p : PeerId) (circuit_id : CircuitId) (req_id : ReqId) where
    unfoldable pub handle_time_range : ChannelOptions → Step CableManager Unit
    handle_time_range opts = do
      m ← get
      hashes ← lift (range_hashes opts m.store)
      (if nat_beq opts.time_end 0
          then (do
            modify (keep_live p (channel_time_range req_id opts))
            send_some v c accepts p hashes (hash_response circuit_id req_id hashes))
          else send accepts p (hash_response circuit_id req_id hashes))

    -- Without `future`, the known hashes and then an empty response, which ends the request.
    unfoldable pub send_and_close : List Hash → Step CableManager Unit
    send_and_close hashes = do
      send_some v c accepts p hashes (hash_response circuit_id req_id hashes)
      send accepts p (hash_response circuit_id req_id [])

    unfoldable pub handle_channel_state : Channel → ℕ → Step CableManager Unit
    handle_channel_state channel future = do
      m ← get
      let hashes = state_hashes channel m.store
      (if nat_beq future 0
          then send_and_close hashes
          else if nat_beq future 1
          then (do
            modify (keep_live p (channel_state req_id channel))
            send_some v c accepts p hashes (hash_response circuit_id req_id hashes))
          else lift (ok tt))

    unfoldable pub handle_request : ℕ → RequestBody → Message → Step CableManager Unit
    handle_request ttl (Message.post hashes) msg = do
      forward_request ttl req_id msg
      m ← get
      send accepts p (post_response circuit_id req_id (get_post_payloads hashes m.store))
    handle_request ttl (Message.cancel cancel_id) msg = do
      decrement_ttl_and_write_to_outbound req_id msg
      modify (remove_live_request p cancel_id)
      modify (remove_outbound cancel_id)
    handle_request ttl (Message.channel_time_range channel time_start time_end limit) msg = do
      forward_request ttl req_id msg
      handle_time_range (record {
        channel = channel;
        time_start = time_start;
        time_end = time_end;
        limit = limit;
      })
    handle_request ttl (Message.channel_state channel future) msg = do
      forward_request ttl req_id msg
      handle_channel_state channel future
    handle_request ttl (Message.channel_list skip limit) msg = do
      forward_request ttl req_id msg
      m ← get
      channels ← lift (channel_page skip limit (or_empty (get_channels m.store)))
      send accepts p (channel_list_response circuit_id req_id channels)

    -- The hashes of a hash response that the store has no post for are asked for.
    unfoldable pub request_posts : List Hash → Step CableManager Unit
    request_posts [] = lift (ok tt)
    request_posts (h ∷ hs) = do
      (_, new_req) ← new_req_id v
      send accepts p (post_request circuit_id new_req request_ttl (h ∷ hs))
      modify (λ m. record m { requested_posts = set_extend (h ∷ hs) m.requested_posts })

    unfoldable pub handle_response : ResponseBody → Step CableManager Unit
    handle_response (Message.hash hashes) = do m ← get; request_posts (want hashes m.store)
    handle_response (Message.posts posts) = receive_payloads posts
    handle_response (Message.channels channels) = modify (insert_channels channels)

    unfoldable pub handle_body : MessageBody → Message → Step CableManager Unit
    handle_body (Message.request ttl body) msg = handle_request ttl body msg
    handle_body (Message.response body) msg = handle_response body
    handle_body (Message.unrecognized _) msg = lift (ok tt)

  unfoldable pub handle : PeerId → Message → Step CableManager Unit
  handle p msg m =
      let h = msg.header in
      if is_dropped p h.req_id m
      then (ok tt, m)
      else (do handle_body p h.circuit_id h.req_id msg.body msg; modify (mark_handled h.req_id)) m
