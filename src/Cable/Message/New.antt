-- ===== src/Cable/Message/New.antt =====
-- The constructors of messages (`Message::post_request` to `Message::channel_list_response`).
use cable_rs.Base.{ℕ, List}
use cable_rs.Cable.Constants
use cable_rs.Cable.Message.{MessageBody, Message, RequestBody, ResponseBody, request, response}
use cable_rs.Cable.Types.{Channel, ChannelOptions, CircuitId, Hash, Payload, ReqId}

module _ (circuit_id : CircuitId) (req_id : ReqId) where
  -- `Message::new` with `MessageHeader::new`
  abbrev new : ℕ → MessageBody → Message
  new msg_type body = record {
    header = record { msg_type = msg_type; circuit_id = circuit_id; req_id = req_id };
    body = body;
  }

  unfoldable pub post_request : ℕ → List Hash → Message
  post_request ttl hashes = new Constants.post_request (request ttl (RequestBody.post hashes))

  unfoldable pub cancel_request : ℕ → ReqId → Message
  cancel_request ttl cancel_id =
      new Constants.cancel_request (request ttl (RequestBody.cancel cancel_id))

  unfoldable pub channel_time_range_request : ℕ → ChannelOptions → Message
  channel_time_range_request ttl opts = new Constants.channel_time_range_request (
      request ttl
        (RequestBody.channel_time_range opts.channel opts.time_start opts.time_end opts.limit))

  unfoldable pub channel_state_request : ℕ → Channel → ℕ → Message
  channel_state_request ttl channel future =
      new Constants.channel_state_request (request ttl (RequestBody.channel_state channel future))

  unfoldable pub channel_list_request : ℕ → ℕ → ℕ → Message
  channel_list_request ttl skip limit =
      new Constants.channel_list_request (request ttl (RequestBody.channel_list skip limit))

  unfoldable pub hash_response : List Hash → Message
  hash_response hashes = new Constants.hash_response (response (ResponseBody.hash hashes))

  unfoldable pub post_response : List Payload → Message
  post_response ps = new Constants.post_response (response (ResponseBody.posts ps))

  unfoldable pub channel_list_response : List Channel → Message
  channel_list_response cs =
      new Constants.channel_list_response (response (ResponseBody.channels cs))
