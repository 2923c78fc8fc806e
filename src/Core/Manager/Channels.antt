-- ===== src/Core/Manager/Channels.antt =====
-- cable_core/src/manager.rs: `open_channel` and `close_channel`.
use cable_rs.Base.{Bool, false, ◌&&◌, List, [], ◌∷◌, if◌then◌else◌}
use cable_rs.Base.Equality.{◌==◌, bytes_eq}
use cable_rs.Cable.Constants
use cable_rs.Cable.Desert.{Desert}
use cable_rs.Cable.Error.{ok}
use cable_rs.Cable.Message.{Message, MessageBody, RequestBody, request}
use cable_rs.Cable.Message as Message
use cable_rs.Cable.Message.New.{cancel_request, channel_state_request, channel_time_range_request}
use cable_rs.Cable.Post.{Post}
use cable_rs.Cable.Types.{Channel, ChannelOptions, ReqId}
use cable_rs.Core.Manager.{
  CableManager, PeerId, RequestOrigin, request_ttl, broadcast, is_local, local, map_remove,
  new_req_id, write_outbound,
}
use cable_rs.Core.Map.{Map}
use cable_rs.Core.Step.{Step, ◌>>=◌, ◌>>◌, lift, modify}
use cable_rs.Core.Store.Posts.{get_posts_live}
use cable_rs.Core.Stream.{LiveStream}

-- A local channel time range request for the channel.
abbrev pub is_open : Channel → RequestOrigin × Message → Bool
is_open channel (o, msg) = elim msg.body [
  | request _ body ↦ elim body [
    | Message.channel_time_range ch _ _ _ ↦ is_local o && ch == channel
    | _ ↦ false
  ]
  | _ ↦ false
]

abbrev pub open_req_ids : Channel → Map ReqId (RequestOrigin × Message) → List ReqId
open_req_ids channel [] = []
open_req_ids channel ((r, e) ∷ rest) =
    let ids = open_req_ids channel rest in if is_open channel e then r ∷ ids else ids

unfoldable pub remove_outbound : ReqId → CableManager → CableManager
remove_outbound r m = record m { outbound_requests = map_remove r m.outbound_requests }

module _ (v : Desert) (accepts : PeerId → List Message → Bool) where
  -- A local request is kept as an outbound one, and sent to all peers.
  unfoldable pub send_request : ReqId → Message → Step CableManager Unit
  send_request r msg = do modify (write_outbound r local msg); broadcast accepts msg

  unfoldable pub open_channel : ChannelOptions → Step CableManager (List Post × LiveStream)
  open_channel opts = do
    (_, r1) ← new_req_id v
    send_request r1 (channel_time_range_request Constants.no_circuit r1 request_ttl opts)
    (_, r2) ← new_req_id v
    send_request r2 (channel_state_request Constants.no_circuit r2 request_ttl opts.channel 1)
    λ m.
        let (posts, live, s) = get_posts_live opts m.store in
        (lift posts >>= λ ps. lift (ok (ps, live))) (record m { store = s })

  unfoldable pub cancel_requests : List ReqId → Step CableManager Unit
  cancel_requests [] = lift (ok tt)
  cancel_requests (r ∷ rs) = do
    (_, req_id) ← new_req_id v
    broadcast accepts (cancel_request Constants.no_circuit req_id request_ttl r)
    modify (remove_outbound r)
    cancel_requests rs

  unfoldable pub close_channel : Channel → Step CableManager Unit
  close_channel channel m = cancel_requests (open_req_ids channel m.outbound_requests) m
