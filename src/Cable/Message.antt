-- ===== src/Cable/Message.antt =====
-- cable/src/message.rs: the types of messages. The encoding is in the modules below.
pub mod New
pub mod Encode
pub mod Decode
use cable_rs.Base.{ℕ, zero, suc, ◌-◌, List, Option}
use cable_rs.Cable.Constants
use cable_rs.Cable.Error.{Outcome, ok, panic}
use cable_rs.Cable.Types.{Channel, CircuitId, Hash, Payload, ReqId, Timestamp}

pub record MessageHeader : Type 0 where
  pub msg_type : ℕ
  pub circuit_id : CircuitId
  pub req_id : ReqId

pub data RequestBody : Type 0 where
  post : List Hash → RequestBody
  cancel : ReqId → RequestBody
  channel_time_range : Channel → Timestamp → Timestamp → ℕ → RequestBody
  channel_state : Channel → ℕ → RequestBody
  channel_list : ℕ → ℕ → RequestBody

pub data ResponseBody : Type 0 where
  hash : List Hash → ResponseBody
  posts : List Payload → ResponseBody
  channels : List Channel → ResponseBody

pub data MessageBody : Type 0 where
  request : ℕ → RequestBody → MessageBody
  response : ResponseBody → MessageBody
  unrecognized : ℕ → MessageBody

pub record Message : Type 0 where
  pub header : MessageHeader
  pub body : MessageBody

-- `*ttl -= 1` on a `u8`, which panics at 0 where overflow is checked, as in a debug build.
unfoldable pub decrement_ttl : Message → Outcome Message
decrement_ttl m = elim m.body [
  | request ttl b ↦ elim ttl [ zero ↦ panic | suc n ↦ ok (record m { body = request n b }) ]
  | response b ↦ ok m
  | unrecognized t ↦ ok m
]

-- `Message::message_type`, from the body and not from the header's field.
abbrev pub body_type : MessageBody → ℕ
body_type (request _ (post _)) = Constants.post_request
body_type (request _ (cancel _)) = Constants.cancel_request
body_type (request _ (channel_time_range _ _ _ _)) = Constants.channel_time_range_request
body_type (request _ (channel_state _ _)) = Constants.channel_state_request
body_type (request _ (channel_list _ _)) = Constants.channel_list_request
body_type (response (hash _)) = Constants.hash_response
body_type (response (posts _)) = Constants.post_response
body_type (response (channels _)) = Constants.channel_list_response
body_type (unrecognized msg_type) = msg_type
