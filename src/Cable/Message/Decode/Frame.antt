-- ===== src/Cable/Message/Decode/Frame.antt =====
-- The frame of a message on a stream: what `count_from_bytes`, as the stream decoder does, takes for
-- the extent of an encoded message.
use cable_rs.Base.{ℕ, ◌+◌, ◌-◌, ◌<◌, ◌≡◌, ◌↔◌, ap, ◌∙◌, List, [], ◌∷◌, length, arith, some}
use cable_rs.Cable.Error.{ok}
use cable_rs.Cable.Message.{Message}
use cable_rs.Cable.Message.Encode.{to_bytes, message_size, count_bytes, msg_len}
use cable_rs.Cable.Message.Encode.Bytes.{
  IsWritable, message_bytes, payload_bytes, msg_len_facts, count_bytes_lem, count_bytes_pos,
}
use cable_rs.Cable.Message.Encode.Written.{message_to_bytes_lem}
use cable_rs.Cable.Message.Decode.{count_from_bytes}
use cable_rs.Cable.Desert.{Desert, DesertLaws}

module _ (v : Desert) (laws : DesertLaws v) where
  count_from_bytes-decode :
      (bs : List ℕ) (s n : ℕ)
      → 0 < length bs
      → v.decode bs ≡ some (s, n)
      → count_from_bytes v bs ≡ ok (s + n)
  unfolding count_from_bytes
  count_from_bytes-decode [] s n h e = absurd (omega arith)
  count_from_bytes-decode (b ∷ bs) s n h e = rw (e, count_from_bytes)

  -- What the length field of an encoded message announces.
  count_from_bytes-message :
      (m : Message)
      → IsWritable v m
      → count_from_bytes v (message_bytes v m) ≡ ok (v.size (message_size v m) + msg_len v m)
  count_from_bytes-message m h =
      let (same, split, fits, _) = msg_len_facts v laws m h in
      let (_, size) = message_to_bytes_lem v laws m h in
      count_from_bytes-decode (message_bytes v m) (v.size (msg_len v m)) (msg_len v m)
        (omega (arith, size, count_bytes_pos v laws m h))
        (laws.decode-encode (msg_len v m) (payload_bytes v m) fits)
      ∙ ap (λ (n : ℕ). ok (n + msg_len v m)) same

  -- A writable message can be encoded, and the frame that count_from_bytes announces for its
  -- bytes is exact where the count of all the bytes needs as many bytes for a varint as the count
  -- without the length field, and only there; in general it is less by the difference.
  pub frame-exact_iff :
      (m : Message)
      → IsWritable v m
      → (bs : List ℕ) × (to_bytes v m ≡ ok bs)
        × (count_from_bytes v bs
            ≡ ok (length bs + v.size (message_size v m) - v.size (count_bytes v m)))
        × ((count_from_bytes v bs ≡ ok (length bs))
            ↔ (v.size (count_bytes v m) ≡ v.size (message_size v m)))
  frame-exact_iff m h =
      let (e, size) = message_to_bytes_lem v laws m h in
      let (_, split, _, _) = msg_len_facts v laws m h in
      let read = count_from_bytes-message m h in
      let sum = count_bytes_lem v laws m in
      (
        message_bytes v m,
        e,
        read ∙ ap ok (omega (arith, size, split)),
        (
          λ exact. ground (arith, exact, read, size, split),
          λ same. read ∙ ap ok (omega (arith, size, split)),
        ),
      )
