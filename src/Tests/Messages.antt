-- ===== src/Tests/Messages.antt =====
-- Examples for messages.
use cable_rs.Base.{
  ℕ, ◌+◌, ◌-◌, ◌^◌, ◌<◌, ◌≤◌, ◌≡◌, ◌↔◌, refl, List, [], ◌∷◌, ◌++◌, length, replicate, drop, arith,
}
use cable_rs.Cable.Desert.Leb128.{leb128, leb128_laws}
use cable_rs.Cable.Error.{ok}
use cable_rs.Cable.Message.Decode.{from_bytes, count_from_bytes}
use cable_rs.Cable.Message.Decode.AnyInput.{Decoded, message_from_bytes-Decoded, message_reencode}
use cable_rs.Cable.Message.Decode.Frame.{frame-exact_iff}
use cable_rs.Cable.Message.Decode.RoundTrip.{IsMessage, message_from_bytes-to_bytes}
use cable_rs.Cable.Message.Encode.{
  to_bytes, write_bytes, count_bytes, message_size, body_size, request_size, response_size,
  elements_size,
}
use cable_rs.Cable.Message.Encode.Bytes.{IsWritable, message_bytes}
use cable_rs.Cable.Message.Encode.Written.{message_write_bytes_lem}
use cable_rs.Tests.{name_valid, one_hash-HashesFit, post_request, channel_list_response}

channel_list_response-size : message_size leb128 channel_list_response < 2 ^ 55
unfolding message_size body_size response_size elements_size leb128
channel_list_response-size = omega arith

channel_list_response-IsMessage : IsMessage leb128 channel_list_response
channel_list_response-IsMessage = record {
  writable = record {
    fitting = record { circuit_id = refl; req_id = refl; body = (omega arith, (omega arith, tt)) };
    size = channel_list_response-size;
  };
  msg_type = refl;
  valid = ((omega arith, name_valid), ((omega arith, name_valid), tt));
}

post_request-size : message_size leb128 post_request < 2 ^ 55
unfolding message_size body_size request_size leb128
post_request-size = omega arith

pub post_request-IsWritable : IsWritable leb128 post_request
post_request-IsWritable = record {
  fitting = record { circuit_id = refl; req_id = refl; body = (omega arith, one_hash-HashesFit) };
  size = post_request-size;
}

message_from_bytes-to_bytes_example :
    (bs : List ℕ) × (to_bytes leb128 channel_list_response ≡ ok bs)
    × (length bs ≡ count_bytes leb128 channel_list_response)
    × (from_bytes leb128 (bs ++ (9 ∷ []))
        ≡ ok (count_bytes leb128 channel_list_response, channel_list_response))
message_from_bytes-to_bytes_example =
    message_from_bytes-to_bytes leb128 leb128_laws channel_list_response (9 ∷ [])
      channel_list_response-IsMessage

frame-exact_iff_example :
    (bs : List ℕ) × (to_bytes leb128 post_request ≡ ok bs)
    × (count_from_bytes leb128 bs
        ≡ ok (
            length bs
            + leb128.size (message_size leb128 post_request)
            - leb128.size (count_bytes leb128 post_request)))
    × ((count_from_bytes leb128 bs ≡ ok (length bs)) ↔ (
        leb128.size (count_bytes leb128 post_request)
        ≡ leb128.size (message_size leb128 post_request)))
frame-exact_iff_example = frame-exact_iff leb128 leb128_laws post_request post_request-IsWritable

-- The bytes of the response, behind which the stream goes on.
abbrev on_stream : List ℕ
on_stream =
    (message_from_bytes-to_bytes leb128 leb128_laws channel_list_response (9 ∷ [])
      channel_list_response-IsMessage).0
    ++ (9 ∷ [])

-- These bytes decode.
message_from_bytes-Decoded_example : Decoded on_stream (from_bytes leb128 on_stream)
message_from_bytes-Decoded_example = message_from_bytes-Decoded leb128 leb128_laws on_stream

message_reencode_example :
    (bs : List ℕ) × (to_bytes leb128 channel_list_response ≡ ok bs)
    × (from_bytes leb128 (bs ++ []) ≡ ok (length bs, channel_list_response))
message_reencode_example =
    message_reencode leb128 leb128_laws on_stream [] (count_bytes leb128 channel_list_response)
      channel_list_response
      (message_from_bytes-to_bytes leb128 leb128_laws channel_list_response (9 ∷ [])
        channel_list_response-IsMessage).3
      (omega arith) channel_list_response-size

room : count_bytes leb128 post_request ≤ length {A = ℕ} (replicate 200 5)
unfolding count_bytes message_size body_size request_size leb128
room = omega arith

message_write_bytes_example :
    write_bytes leb128 post_request (replicate 200 5)
    ≡ ok (
      count_bytes leb128 post_request,
      message_bytes leb128 post_request ++ drop (count_bytes leb128 post_request) (replicate 200 5),
    )
message_write_bytes_example =
    message_write_bytes_lem leb128 leb128_laws post_request (replicate 200 5)
      post_request-IsWritable room
