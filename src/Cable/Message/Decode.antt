-- ===== src/Cable/Message/Decode.antt =====
-- `FromBytes` for `Message`.
pub mod RoundTrip
pub mod Frame
pub mod Sound
pub mod AnyInput
use cable_rs.Base.{
  ℕ, zero, suc, ◌+◌, ◌%◌, none, some, List, [], ◌∷◌, length, nat_beq, if◌then◌else◌,
}
use cable_rs.Cable.Constants
use cable_rs.Cable.Error
use cable_rs.Cable.Error.{Outcome, ok, err, stuck, raise, message_empty, varint_src_insufficient}
use cable_rs.Cable.Fields.{get_sized, get_counted_hashes}
use cable_rs.Cable.Message.{
  MessageBody, Message, post, cancel, channel_time_range, channel_state, channel_list, hash, posts,
  channels, request, response, unrecognized,
}
use cable_rs.Cable.Reader.{Reader, Cursor, pure, get_varint, get_slice, get_string, ◌>>=◌}
use cable_rs.Cable.Desert.{Desert}

module _ (v : Desert) where
  -- `ttl as u8` keeps the low eight bits.
  unfoldable pub get_ttl : Reader ℕ
  get_ttl = do ttl ← get_varint v; pure (ttl % 256)

  unfoldable pub read_hash_response : Reader MessageBody
  read_hash_response = do hashes ← get_counted_hashes v; pure (response (hash hashes))

  -- The loop over counted elements, which ends at a length of 0; `get` reads an element.
  unfoldable pub read_elements : (ℕ → Reader (List ℕ)) → ℕ → Reader (List (List ℕ))
  read_elements get zero = λ _. stuck
  read_elements get (suc fuel) = do
    len ← get_varint v
    if nat_beq len 0
        then pure []
        else do s ← get len; rest ← read_elements get fuel; pure (s ∷ rest)

  -- Each round of the loop reads a byte at least.
  unfoldable pub read_all : (ℕ → Reader (List ℕ)) → Reader (List (List ℕ))
  read_all get c = read_elements get (suc (length c.rest)) c

  unfoldable pub read_post_response : Reader MessageBody
  read_post_response = do ps ← read_all get_slice; pure (response (posts ps))

  unfoldable pub read_post_request : Reader MessageBody
  read_post_request = do
    ttl ← get_ttl
    hashes ← get_counted_hashes v
    pure (request ttl (post hashes))

  unfoldable pub read_cancel_request : Reader MessageBody
  read_cancel_request = do
    ttl ← get_ttl
    cancel_id ← get_slice 4
    pure (request ttl (cancel cancel_id))

  unfoldable pub read_channel_time_range_request : Reader MessageBody
  read_channel_time_range_request = do
    ttl ← get_ttl
    channel ← get_sized v
    time_start ← get_varint v
    time_end ← get_varint v
    limit ← get_varint v
    pure (request ttl (channel_time_range channel time_start time_end limit))

  unfoldable pub read_channel_state_request : Reader MessageBody
  read_channel_state_request = do
    ttl ← get_ttl
    channel ← get_sized v
    future ← get_varint v
    pure (request ttl (channel_state channel future))

  unfoldable pub read_channel_list_request : Reader MessageBody
  read_channel_list_request = do
    ttl ← get_ttl
    skip ← get_varint v
    limit ← get_varint v
    pure (request ttl (channel_list skip limit))

  unfoldable pub read_channel_list_response : Reader MessageBody
  read_channel_list_response = do cs ← read_all get_string; pure (response (channels cs))

  unfoldable pub read_body : ℕ → Reader MessageBody
  read_body msg_type =
      if nat_beq msg_type Constants.hash_response
      then read_hash_response
      else if nat_beq msg_type Constants.post_response
      then read_post_response
      else if nat_beq msg_type Constants.post_request
      then read_post_request
      else if nat_beq msg_type Constants.cancel_request
      then read_cancel_request
      else if nat_beq msg_type Constants.channel_time_range_request
      then read_channel_time_range_request
      else if nat_beq msg_type Constants.channel_state_request
      then read_channel_state_request
      else if nat_beq msg_type Constants.channel_list_request
      then read_channel_list_request
      else if nat_beq msg_type Constants.channel_list_response
      then read_channel_list_response
      else pure (unrecognized msg_type)

  -- The length field is read and not used.
  unfoldable pub read_message : Reader Message
  read_message = do
    num_bytes ← get_varint v
    msg_type ← get_varint v
    circuit_id ← get_slice 4
    req_id ← get_slice 4
    body ← read_body msg_type
    pure (record {
      header = record { msg_type = msg_type; circuit_id = circuit_id; req_id = req_id };
      body = body;
    })

  -- The number of bytes read, and the message.
  unfoldable pub from_bytes : List ℕ → Outcome (ℕ × Message)
  from_bytes [] = raise message_empty
  from_bytes (b ∷ bs) =
      Error.◌>>=◌ (read_message (record { offset = 0; rest = b ∷ bs })) (λ r. ok (r.1.offset, r.0))

  unfoldable pub count_from_bytes : List ℕ → Outcome ℕ
  count_from_bytes [] = raise message_empty
  count_from_bytes (b ∷ bs) = elim (v.decode (b ∷ bs)) [
    | none ↦ err varint_src_insufficient
    | some (sum, len) ↦ ok (sum + len)
  ]
