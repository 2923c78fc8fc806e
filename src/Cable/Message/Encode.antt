-- ===== src/Cable/Message/Encode.antt =====
-- `ToBytes` and `CountBytes` for `Message`.
pub mod Bytes
pub mod Written
use cable_rs.Base.{ℕ, ◌+◌, ◌-◌, ◌*◌, List, [], ◌++◌, length, replicate, ltb, if◌then◌else◌}
use cable_rs.Cable.Error.{Outcome, ok, raise, dst_too_small, message_write_unrecognized_type, ◌>>=◌}
use cable_rs.Cable.Fields.{put_sized, put_hashes}
use cable_rs.Cable.Message.{
  MessageBody, Message, RequestBody, ResponseBody, post, cancel, channel_time_range, channel_state,
  channel_list, hash, posts, channels, request, response, unrecognized, body_type,
}
use cable_rs.Cable.Desert.{Desert}
use cable_rs.Cable.Writer.{Writer, Buffer, ◌>>◌, put_varint, put_array, put_each}
use mathlib.Core.List.{foldl}

module _ (v : Desert) where
  -- An element of a list of posts or channels, behind the guard
  -- `if offset + post.len() > buf.len()`.
  unfoldable pub put_element : List ℕ → Writer
  put_element s b =
      let provided = length b.written + length b.rest in
      let required = length b.written + length s in
      if ltb provided required then raise (dst_too_small provided required) else put_sized v s b

  unfoldable pub write_request : ℕ → RequestBody → Writer
  write_request ttl (post hashes) = put_varint v ttl >> put_hashes v hashes
  write_request ttl (cancel cancel_id) = put_varint v ttl >> put_array v cancel_id
  write_request ttl (channel_time_range channel time_start time_end limit) =
      put_varint v ttl
      >> put_sized v channel
      >> put_varint v time_start
      >> put_varint v time_end
      >> put_varint v limit
  write_request ttl (channel_state channel future) =
      put_varint v ttl >> put_sized v channel >> put_varint v future
  write_request ttl (channel_list skip limit) =
      put_varint v ttl >> put_varint v skip >> put_varint v limit

  unfoldable pub write_response : ResponseBody → Writer
  write_response (hash hashes) = put_hashes v hashes
  write_response (posts ps) = put_each put_element ps >> put_varint v 0
  write_response (channels cs) = put_each put_element cs >> put_varint v 0

  unfoldable pub write_body : MessageBody → Writer
  write_body (request ttl b) = write_request ttl b
  write_body (response b) = write_response b
  write_body (unrecognized msg_type) = λ _. raise (message_write_unrecognized_type msg_type)

  unfoldable pub request_size : ℕ → RequestBody → ℕ
  request_size ttl (post hashes) = v.size ttl + v.size (length hashes) + length hashes * 32
  request_size ttl (cancel _) = v.size ttl + 4
  request_size ttl (channel_time_range channel time_start time_end limit) =
      v.size ttl
      + v.size (length channel)
      + length channel
      + v.size time_start
      + v.size time_end
      + v.size limit
  request_size ttl (channel_state channel future) =
      v.size ttl + v.size (length channel) + length channel + v.size future
  request_size ttl (channel_list skip limit) = v.size ttl + v.size skip + v.size limit

  -- The sum over the elements, and the 0 that ends them.
  unfoldable pub elements_size : List (List ℕ) → ℕ
  elements_size ss = foldl (λ sum s. sum + v.size (length s) + length s) 0 ss + v.size 0

  unfoldable pub response_size : ResponseBody → ℕ
  response_size (hash hashes) = v.size (length hashes) + length hashes * 32
  response_size (posts ps) = elements_size ps
  response_size (channels cs) = elements_size cs

  unfoldable pub body_size : MessageBody → ℕ
  body_size (request ttl b) = request_size ttl b
  body_size (response b) = response_size b
  body_size (unrecognized _) = 0

  -- The size of what follows the length field.
  unfoldable pub message_size : Message → ℕ
  message_size m = v.size (body_type m.body) + 4 + 4 + body_size m.body

  unfoldable pub count_bytes : Message → ℕ
  count_bytes m = v.size (message_size m) + message_size m

  -- The length field: the count of all bytes, less the size of that count as a varint.
  unfoldable pub msg_len : Message → ℕ
  msg_len m = count_bytes m - v.size (count_bytes m)

  unfoldable pub write_message : Message → Writer
  write_message m =
      put_varint v (msg_len m)
      >> put_varint v (body_type m.body)
      >> put_array v m.header.circuit_id
      >> put_array v m.header.req_id
      >> write_body m.body

  -- The result is the final offset; the buffer is written in place.
  unfoldable pub write_bytes : Message → List ℕ → Outcome (ℕ × List ℕ)
  write_bytes m buf = do
    b ← write_message m (record { written = []; rest = buf })
    ok (length b.written, b.written ++ b.rest)

  unfoldable pub to_bytes : Message → Outcome (List ℕ)
  to_bytes m = do r ← write_bytes m (replicate (count_bytes m) 0); ok r.1
