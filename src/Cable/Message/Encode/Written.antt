-- ===== src/Cable/Message/Encode/Written.antt =====
-- What `Message::to_bytes` and `write_bytes` write.
use cable_rs.Base.{
  ℕ, ◌+◌, ◌≤◌, ◌<◌, ◌≡◌, sym, ap, ◌∙◌, List, [], ◌++◌, length, drop, replicate, length-append,
  length-replicate, drop_all, le→not_ltb, All, arith,
}
use cable_rs.Cable.Error.{Outcome, ok, ◌>>=◌}
use cable_rs.Cable.Fields.{sized_bytes, Writes-put_sized, Writes-put_hashes}
use cable_rs.Cable.Message.{
  MessageBody, Message, RequestBody, post, cancel, channel_time_range, channel_state, channel_list,
  hash, posts, channels, request, response, unrecognized,
}
use cable_rs.Cable.Message.Encode.{
  put_element, write_request, write_response, write_body, write_message, write_bytes, count_bytes,
  to_bytes,
}
use cable_rs.Cable.Message.Encode.Bytes.{
  ElementFits, RequestFits, BodyFits, BodyFits-type, IsWritable, elements_bytes, request_bytes,
  body_bytes, message_bytes, msg_len_facts, length-message_bytes,
}
use cable_rs.Cable.Desert.{Desert, DesertLaws}
use cable_rs.Cable.Writer.{
  Buffer, Writes, Writes-seq, Writes-put_array, Writes-put_varint, Writes-put_each, ◌>>◌, put_each,
  put_varint,
}
use mathlib.Core.List.{append-nil}

module _ (v : Desert) (laws : DesertLaws v) where
  Writes-put_element : (s : List ℕ) → ElementFits s → Writes (put_element v s) (sized_bytes v s)
  unfolding put_element
  Writes-put_element s h = record {
    run = λ b room.
        rw
          (le→not_ltb (length b.written + length b.rest) (length b.written + length s)
            (omega (arith, length-append (v.encode (length s)) s)))
          ((Writes-put_sized v laws s h).run b room);
  }

  Writes-elements :
      (ss : List (List ℕ))
      → All ElementFits ss
      → Writes (put_each (put_element v) ss >> put_varint v 0) (elements_bytes v ss)
  Writes-elements ss h =
      Writes-seq _ _ _ _ (Writes-put_each _ _ ElementFits Writes-put_element ss h)
        (Writes-put_varint v laws 0 (omega arith))

  Writes-request :
      (ttl : ℕ) (b : RequestBody)
      → ttl < 256
      → RequestFits b
      → Writes (write_request v ttl b) (request_bytes v ttl b)
  unfolding write_request
  Writes-request ttl (post hashes) t h =
      Writes-seq _ _ _ _ (Writes-put_varint v laws ttl (omega arith))
        (Writes-put_hashes v laws hashes h)
  Writes-request ttl (cancel cancel_id) t h =
      Writes-seq _ _ _ _ (Writes-put_varint v laws ttl (omega arith))
        (Writes-put_array v laws cancel_id h)
  Writes-request ttl (channel_time_range c s e l) t (hc, hs, he, hl) =
      Writes-seq _ _ _ _ (Writes-put_varint v laws ttl (omega arith)) (
        Writes-seq _ _ _ _ (Writes-put_sized v laws c hc) (
          Writes-seq _ _ _ _ (Writes-put_varint v laws s hs)
            (Writes-seq _ _ _ _ (Writes-put_varint v laws e he) (Writes-put_varint v laws l hl))))
  Writes-request ttl (channel_state c f) t (hc, hf) =
      Writes-seq _ _ _ _ (Writes-put_varint v laws ttl (omega arith))
        (Writes-seq _ _ _ _ (Writes-put_sized v laws c hc) (Writes-put_varint v laws f hf))
  Writes-request ttl (channel_list s l) t (hs, hl) =
      Writes-seq _ _ _ _ (Writes-put_varint v laws ttl (omega arith))
        (Writes-seq _ _ _ _ (Writes-put_varint v laws s hs) (Writes-put_varint v laws l hl))

  Writes-body : (b : MessageBody) → BodyFits b → Writes (write_body v b) (body_bytes v b)
  unfolding write_body write_response
  Writes-body (request ttl b) h = Writes-request ttl b h.0 h.1
  Writes-body (response (hash hashes)) h = Writes-put_hashes v laws hashes h
  Writes-body (response (posts ps)) h = Writes-elements ps h
  Writes-body (response (channels cs)) h = Writes-elements cs h
  Writes-body (unrecognized _) h = absurd h

  Writes-message : (m : Message) → IsWritable v m → Writes (write_message v m) (message_bytes v m)
  unfolding write_message
  Writes-message m h =
      Writes-seq _ _ _ _ (Writes-put_varint v laws _ (msg_len_facts v laws m h).2) (
        Writes-seq _ _ _ _ (Writes-put_varint v laws _ (BodyFits-type m.body h.body)) (
          Writes-seq _ _ _ _ (Writes-put_array v laws m.header.circuit_id h.circuit_id) (
            Writes-seq _ _ _ _ (Writes-put_array v laws m.header.req_id h.req_id)
              (Writes-body m.body h.body))))

  -- Into a buffer with room for a writable message, write_bytes writes exactly its bytes and
  -- leaves what follows them.
  pub message_write_bytes_lem :
      (m : Message) (buf : List ℕ)
      → IsWritable v m
      → count_bytes v m ≤ length buf
      → write_bytes v m buf ≡ ok (count_bytes v m, message_bytes v m ++ drop (count_bytes v m) buf)
  unfolding write_bytes
  message_write_bytes_lem m buf h room =
      let size : length (message_bytes v m) ≡ count_bytes v m = length-message_bytes v laws m h in
      ap (λ (r : Outcome Buffer). r >>= λ b. ok (length b.written, b.written ++ b.rest))
        ((Writes-message m h).run (record { written = []; rest = buf }) (omega (arith, size)))
      ∙ rw size

  -- `to_bytes` of a writable message is `message_bytes`, of `count_bytes` bytes.
  pub message_to_bytes_lem :
      (m : Message)
      → IsWritable v m
      → (to_bytes v m ≡ ok (message_bytes v m)) × (length (message_bytes v m) ≡ count_bytes v m)
  unfolding to_bytes
  message_to_bytes_lem m h =
      let buf = replicate (count_bytes v m) 0 in
      let room : length buf ≡ count_bytes v m = length-replicate (count_bytes v m) 0 in
      (
        ap (λ (r : Outcome (ℕ × List ℕ)). r >>= λ r. ok r.1)
              (message_write_bytes_lem m buf h (omega (arith, room)))
            ∙ ap (λ (t : List ℕ). ok (message_bytes v m ++ t))
                (ap (λ (n : ℕ). drop n buf) (sym room) ∙ drop_all buf)
            ∙ ap ok (append-nil (message_bytes v m)),
        length-message_bytes v laws m h,
      )
