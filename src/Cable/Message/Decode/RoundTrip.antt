-- ===== src/Cable/Message/Decode/RoundTrip.antt =====
-- Decoding an encoded message gives the message back.
use cable_rs.Base.{
  ℕ, zero, suc, ◌+◌, ◌≤◌, ◌<◌, ◌≡◌, sym, true, List, [], ◌∷◌, ◌++◌, length, length-append, All,
  arith, nat_beq,
}
use cable_rs.Cable.Error.{ok}
use cable_rs.Cable.Fields.{sized_bytes, Reads-get_sized, Reads-get_counted_hashes}
use cable_rs.Cable.Message.{
  MessageBody, Message, RequestBody, post, cancel, channel_time_range, channel_state, channel_list,
  hash, posts, channels, request, response, unrecognized, body_type,
}
use cable_rs.Cable.Message.Encode.{to_bytes, count_bytes}
use cable_rs.Cable.Message.Encode.Bytes.{
  ElementFits, RequestFits, BodyFits, BodyFits-type, IsWritable, elements_bytes, request_bytes,
  body_bytes, message_bytes, msg_len_facts, count_bytes_pos,
}
use cable_rs.Cable.Message.Encode.Written.{message_to_bytes_lem}
use cable_rs.Cable.Message.Decode.{
  get_ttl, read_hash_response, read_elements, read_all, read_post_response, read_post_request,
  read_cancel_request, read_channel_time_range_request, read_channel_state_request,
  read_channel_list_request, read_channel_list_response, read_body, read_message, from_bytes,
}
use cable_rs.Cable.Reader.{
  Reader, Reads, Reads-bind, Reads-bind_last, Reads-pure, Reads-else, Reads-eq, Reads-get_varint,
  Reads-get_slice, Reads-get_string, get_slice, get_string, pure,
}
use cable_rs.Cable.Utf8.{valid_utf8}
use cable_rs.Cable.Desert.{Desert, DesertLaws}
use mathlib.Core.Path.{subst}
use mathlib.Core.List.{flat_map, append_assoc}
use native.Mathlib.Nat.{mod-eq_of_lt}

-- A string that a list of channels can hold: an empty one would end the list.
abbrev pub IsName : List ℕ → Type 0
IsName s = (0 < length s) × (valid_utf8 s ≡ true)

abbrev pub BodyValid : MessageBody → Type 0
BodyValid (request ttl (channel_time_range channel _ _ _)) = valid_utf8 channel ≡ true
BodyValid (request ttl (channel_state channel _)) = valid_utf8 channel ≡ true
BodyValid (request ttl _) = Unit
BodyValid (response (hash _)) = Unit
BodyValid (response (posts ps)) = All (λ s. 0 < length s) ps
BodyValid (response (channels cs)) = All IsName cs
BodyValid (unrecognized _) = ⊥

-- A message as the code writes and reads it: it fits its encoding, its header names the type of its body, its
-- strings are UTF-8, and no post or channel name in a list is empty.
pub record IsMessage (v : Desert) (m : Message) : Type 0 where
  pub writable : IsWritable v m
  pub msg_type : m.header.msg_type ≡ body_type m.body
  pub valid : BodyValid m.body

module _ (v : Desert) (laws : DesertLaws v) where
  Reads-get_ttl : (ttl : ℕ) → ttl < 256 → Reads (get_ttl v) (v.encode ttl) ttl
  unfolding get_ttl
  Reads-get_ttl ttl h =
      Reads-bind_last _ _ _ _ _ (Reads-get_varint v laws ttl (omega arith))
        (subst (λ n. Reads (pure n) [] ttl) (sym (mod-eq_of_lt h)) (Reads-pure ttl))

  -- The elements and the 0 behind them, with fuel for each element and one more round.
  Reads-elements :
      (get : ℕ → Reader (List ℕ)) (P : List ℕ → Type 0)
      → ((s : List ℕ) → P s → (0 < length s) × Reads (get (length s)) s s)
      → (fuel : ℕ) (ss : List (List ℕ)) → length ss < fuel
      → All ElementFits ss
      → All P ss
      → Reads (read_elements v get fuel) (elements_bytes v ss) ss
  unfolding read_elements flat_map
  Reads-elements get P each zero ss lt fits h = absurd (omega arith)
  Reads-elements get P each (suc fuel) [] lt fits h =
      Reads-bind_last _ _ _ 0 _ (Reads-get_varint v laws 0 (omega arith)) (Reads-pure [])
  Reads-elements get P each (suc fuel) (s ∷ ss) lt fits h =
      Reads-eq _ _ _ _ (brackets (v.encode (length s)) s (flat_map (sized_bytes v) ss) (v.encode 0))
        (Reads-bind _ _ _ _ _ _ (Reads-get_varint v laws (length s) fits.0) (
          Reads-else (nat_beq (length s) 0) _ _ _ _ (ground (arith, (each s h.0).0)) (
            Reads-bind _ _ _ _ _ _ (each s h.0).1 (
              Reads-bind_last _ _ _ _ _ (Reads-elements get P each fuel ss (omega arith) fits.1 h.1)
                (Reads-pure (s ∷ ss))))))
    where
      brackets : (a b c d : List ℕ) → a ++ (b ++ (c ++ d)) ≡ ((a ++ b) ++ c) ++ d
      brackets a b c d = simp append_assoc

  length-le-elements :
      (ss : List (List ℕ)) → All ElementFits ss → length ss ≤ length (flat_map (sized_bytes v) ss)
  unfolding flat_map
  length-le-elements [] h = omega arith
  length-le-elements (s ∷ ss) h = ground (
    arith,
    length-le-elements ss h.1,
    length-append (sized_bytes v s) (flat_map (sized_bytes v) ss),
    length-append (v.encode (length s)) s,
    laws.length-encode (length s) h.0,
    laws.size_groups (length s) h.0,
  )

  Reads-read_all :
      (get : ℕ → Reader (List ℕ)) (P : List ℕ → Type 0)
      → ((s : List ℕ) → P s → (0 < length s) × Reads (get (length s)) s s)
      → (ss : List (List ℕ)) → All ElementFits ss
      → All P ss
      → Reads (read_all v get) (elements_bytes v ss) ss
  unfolding read_all
  Reads-read_all get P each ss fits h = record {
    run = λ o rest.
        (Reads-elements get P each (suc (length (elements_bytes v ss ++ rest))) ss
            (omega (
              arith,
              length-append (elements_bytes v ss) rest,
              length-append (flat_map (sized_bytes v) ss) (v.encode 0),
              length-le-elements ss fits,
            ))
            fits h).run
          o rest;
  }

  Reads-request :
      (ttl : ℕ) (b : RequestBody)
      → ttl < 256
      → RequestFits b
      → BodyValid (request ttl b)
      → Reads (read_body v (body_type (request ttl b))) (request_bytes v ttl b) (request ttl b)
  unfolding read_body read_post_request read_cancel_request read_channel_time_range_request
      read_channel_state_request read_channel_list_request
  Reads-request ttl (post hashes) t fits h =
      Reads-bind _ _ _ _ _ _ (Reads-get_ttl ttl t)
        (Reads-bind_last _ _ _ _ _ (Reads-get_counted_hashes v laws hashes fits) (Reads-pure _))
  Reads-request ttl (cancel cancel_id) t fits h =
      let four : Reads (get_slice 4) cancel_id cancel_id =
        rw (← fits) (Reads-get_slice cancel_id) in
      Reads-bind _ _ _ _ _ _ (Reads-get_ttl ttl t) (Reads-bind_last _ _ _ _ _ four (Reads-pure _))
  Reads-request ttl (channel_time_range c s e l) t (hc, hs, he, hl) h =
      Reads-bind _ _ _ _ _ _ (Reads-get_ttl ttl t) (
        Reads-bind _ _ _ _ _ _ (Reads-get_sized v laws c hc h) (
          Reads-bind _ _ _ _ _ _ (Reads-get_varint v laws s hs) (
            Reads-bind _ _ _ _ _ _ (Reads-get_varint v laws e he)
              (Reads-bind_last _ _ _ _ _ (Reads-get_varint v laws l hl) (Reads-pure _)))))
  Reads-request ttl (channel_state c f) t (hc, hf) h =
      Reads-bind _ _ _ _ _ _ (Reads-get_ttl ttl t) (
        Reads-bind _ _ _ _ _ _ (Reads-get_sized v laws c hc h)
          (Reads-bind_last _ _ _ _ _ (Reads-get_varint v laws f hf) (Reads-pure _)))
  Reads-request ttl (channel_list s l) t (hs, hl) h = Reads-bind _ _ _ _ _ _ (Reads-get_ttl ttl t) (
      Reads-bind _ _ _ _ _ _ (Reads-get_varint v laws s hs)
        (Reads-bind_last _ _ _ _ _ (Reads-get_varint v laws l hl) (Reads-pure _)))

  Reads-body :
      (b : MessageBody)
      → BodyFits b
      → BodyValid b
      → Reads (read_body v (body_type b)) (body_bytes v b) b
  unfolding read_body read_hash_response read_post_response read_channel_list_response
  Reads-body (request ttl b) fits h = Reads-request ttl b fits.0 fits.1 h
  Reads-body (response (hash hashes)) fits h =
      Reads-bind_last _ _ _ _ _ (Reads-get_counted_hashes v laws hashes fits) (Reads-pure _)
  Reads-body (response (posts ps)) fits h =
      Reads-bind_last _ _ _ _ _
        (Reads-read_all get_slice (λ s. 0 < length s) (λ s p. (p, Reads-get_slice s)) ps fits h)
        (Reads-pure _)
  Reads-body (response (channels cs)) fits h =
      Reads-bind_last _ _ _ _ _
        (Reads-read_all get_string IsName (λ s p. (p.0, Reads-get_string s p.1)) cs fits h)
        (Reads-pure _)
  Reads-body (unrecognized _) fits h = absurd h

  Reads-message : (m : Message) → IsMessage v m → Reads (read_message v) (message_bytes v m) m
  unfolding read_message
  Reads-message m h =
      let w = h.writable in
      let hd = m.header in
      let circuit : Reads (get_slice 4) hd.circuit_id hd.circuit_id =
        rw (← w.circuit_id) (Reads-get_slice hd.circuit_id) in
      let req : Reads (get_slice 4) hd.req_id hd.req_id =
        rw (← w.req_id) (Reads-get_slice hd.req_id) in
      let same : record { header = record hd { msg_type = body_type m.body }; body = m.body } ≡ m =
        λ i. record { header = record hd { msg_type = sym h.msg_type i }; body = m.body } in
      Reads-bind _ _ _ _ _ _ (Reads-get_varint v laws _ (msg_len_facts v laws m w).2) (
        Reads-bind _ _ _ _ _ _ (Reads-get_varint v laws _ (BodyFits-type m.body w.body)) (
          Reads-bind _ _ _ _ _ _ circuit (
            Reads-bind _ _ _ _ _ _ req (
              Reads-bind_last _ _ _ _ _ (Reads-body m.body w.body h.valid)
                (subst (Reads _ []) same (Reads-pure _))))))

  from_bytes-nonempty :
      (bs rest : List ℕ) (n : ℕ) (m : Message)
      → 0 < length bs
      → read_message v (record { offset = 0; rest = bs })
        ≡ ok (m, record { offset = n; rest = rest })
      → from_bytes v bs ≡ ok (n, m)
  unfolding from_bytes
  from_bytes-nonempty [] rest n m h e = absurd (omega arith)
  from_bytes-nonempty (b ∷ bs) rest n m h e = rw e

  -- A message of the protocol encodes to bytes that decode, whatever follows them, to the same
  -- message, and the decoder reports that it read exactly those bytes.
  pub message_from_bytes-to_bytes :
      (m : Message) (rest : List ℕ)
      → IsMessage v m
      → (bs : List ℕ) × (to_bytes v m ≡ ok bs)
        × (length bs ≡ count_bytes v m)
        × (from_bytes v (bs ++ rest) ≡ ok (count_bytes v m, m))
  message_from_bytes-to_bytes m rest h =
      let bs = message_bytes v m in
      let (e, size) = message_to_bytes_lem v laws m h.writable in
      let counted : 0 + length bs ≡ count_bytes v m = omega (arith, size) in
      let nonempty : 0 < length (bs ++ rest) =
        omega (arith, length-append bs rest, size, count_bytes_pos v laws m h.writable) in
      (
        bs,
        e,
        size,
        from_bytes-nonempty (bs ++ rest) rest (count_bytes v m) m nonempty
            (rw (Reads-message m h).run (λ i. ok (m, record { offset = counted i; rest = rest }))),
      )
