-- ===== src/Handshake/Messages.antt =====
-- handshake/src/post_handshake.rs: messages over the encrypted transport, in segments, and their
-- frames on a stream. The functions for asynchronous streams differ in `await` only.
pub mod RoundTrip
pub mod Sequence
pub mod AnyInput
use cable_rs.Base.{
  ℕ, zero, suc, ◌+◌, ◌-◌, ◌*◌, ◌/◌, ◌%◌, List, [], ◌∷◌, ◌++◌, length, drop, take, ltb, min, nat_beq,
  Option, if◌then◌else◌,
}
use cable_rs.Handshake.Error.{Outcome, ok, err, panic, stuck, ◌>>=◌, unexpected_eof}
use cable_rs.Handshake.Noise.{Noise}
use cable_rs.Handshake.States.{Handshake, HandshakeComplete, or_noise}

-- The first four bytes of `to_le_bytes` of a `usize`.
abbrev pub le_bytes : ℕ → List ℕ
le_bytes n = n % 256 ∷ n / 256 % 256 ∷ n / 65536 % 256 ∷ n / 16777216 % 256 ∷ []

-- `u32::from_le_bytes`
abbrev pub from_le_bytes : List ℕ → ℕ
from_le_bytes (a ∷ b ∷ c ∷ d ∷ []) = a + 256 * b + 65536 * c + 16777216 * d
from_le_bytes _ = 0

-- `read_exact` of n bytes: they, and what is left.
abbrev pub read_exact : ℕ → List ℕ → Outcome (List ℕ × List ℕ)
read_exact n stream =
    if ltb (length stream) n then err unexpected_eof else ok (take n stream, drop n stream)

module _ (n : Noise) where
  -- A handshake's state behind an operation; after a failure it is not kept.
  unfoldable pub read_noise_message :
      List ℕ → n.TransportState → Outcome (List ℕ × n.TransportState)
  read_noise_message recv_buf t = or_noise (n.read_transport 65535 recv_buf t)

  unfoldable pub write_noise_message :
      List ℕ → n.TransportState → Outcome (List ℕ × n.TransportState)
  write_noise_message msg t = or_noise (n.write_transport 65535 msg t)

  -- The loop of `read_message`: the bytes behind `bytes_read`, and `bytes_remaining`. A slice past the
  -- end panics, of the bytes or of the buffer for a segment.
  unfoldable pub read_segments :
      ℕ → List ℕ → ℕ → n.TransportState → Outcome (List ℕ × n.TransportState)
  read_segments fuel bytes zero t = ok ([], t)
  read_segments zero bytes (suc r) t = stuck
  read_segments (suc fuel) bytes (suc r) t =
      let segment_len = min 65535 (suc r) in
      if ltb (length bytes) segment_len then panic else (do
        (segment, t') ← read_noise_message (take segment_len bytes) t
        (if ltb 65535 (length segment) then panic else (do
          (rest, t'') ← read_segments fuel (drop segment_len bytes) (suc r - segment_len) t'
          ok (segment ++ rest, t''))))

  -- Each round takes a byte at least.
  unfoldable pub read_message : List ℕ → ℕ → n.TransportState → Outcome (List ℕ × n.TransportState)
  read_message recv_buf msg_len t = read_segments msg_len recv_buf msg_len t

  -- The loop of `write_message`, on the bytes behind `bytes_written`: the number of the encrypted
  -- bytes, and they.
  unfoldable pub write_segments :
      ℕ → List ℕ → n.TransportState → Outcome (ℕ × List ℕ × n.TransportState)
  write_segments fuel [] t = ok (0, [], t)
  write_segments zero (b ∷ bs) t = stuck
  write_segments (suc fuel) (b ∷ bs) t =
      let segment_len = min 65519 (length (b ∷ bs)) in
      do
        (segment, t') ← write_noise_message (take segment_len (b ∷ bs)) t
        (count, rest, t'') ← write_segments fuel (drop segment_len (b ∷ bs)) t'
        ok (length segment + count, segment ++ rest, t'')

  unfoldable pub write_message : List ℕ → n.TransportState → Outcome (ℕ × List ℕ × n.TransportState)
  write_message msg t = write_segments (length msg) msg t

  -- The stream's bytes come back with the rest of the result.
  unfoldable pub write_message_to_stream :
      List ℕ → n.TransportState → List ℕ → Outcome (ℕ × n.TransportState × List ℕ)
  write_message_to_stream msg t stream = do
    (bytes_written, encrypted_msg, t') ← write_message msg t
    ok (bytes_written, t', stream ++ le_bytes bytes_written ++ encrypted_msg)

  unfoldable pub read_message_from_stream :
      n.TransportState → List ℕ → Outcome (List ℕ × n.TransportState × List ℕ)
  read_message_from_stream t stream = do
    (len_buf, behind) ← read_exact 4 stream
    let msg_len = from_le_bytes len_buf
    (if nat_beq msg_len 0 then ok ([], t, behind) else (do
      (recv_buf, left) ← read_exact msg_len behind
      (msg, t') ← read_message recv_buf msg_len t
      ok (msg, t', left)))

-- A message of the length 0.
abbrev pub write_eos_marker_to_stream : List ℕ → List ℕ
write_eos_marker_to_stream stream = stream ++ (0 ∷ 0 ∷ 0 ∷ 0 ∷ [])

abbrev pub get_remote_public_key : {n : Noise} → Handshake (HandshakeComplete n) → Option (List ℕ)
get_remote_public_key h = h.base.remote_public_key
