-- ===== src/Cable/Message/Encode/Bytes.antt =====
-- The bytes of a message in plain list terms, their number, and the value of the length field.
use cable_rs.Base.{
  ℕ, ◌+◌, ◌-◌, ◌^◌, ◌≤◌, ◌<◌, ◌≡◌, refl, ◌∙◌, List, [], ◌∷◌, ◌++◌, length, length-append, All,
  arith,
}
use cable_rs.Cable.Fields.{
  sized_bytes, hashes_bytes, HashesFit, length-sized_bytes, length-hashes_bytes,
}
use cable_rs.Cable.Message.{
  MessageBody, Message, RequestBody, post, cancel, channel_time_range, channel_state, channel_list,
  hash, posts, channels, request, response, unrecognized, body_type,
}
use cable_rs.Cable.Message.Encode.{
  request_size, elements_size, response_size, body_size, message_size, count_bytes, msg_len,
}
use cable_rs.Cable.Desert.{Desert, DesertLaws, Fits, groups}
use mathlib.Core.List.{flat_map, foldl}

abbrev pub ElementFits : List ℕ → Type 0
ElementFits s = Fits (length s)

abbrev pub RequestFits : RequestBody → Type 0
RequestFits (post hashes) = HashesFit hashes
RequestFits (cancel cancel_id) = length cancel_id ≡ 4
RequestFits (channel_time_range channel time_start time_end limit) =
    Fits (length channel) × Fits time_start × Fits time_end × Fits limit
RequestFits (channel_state channel future) = Fits (length channel) × Fits future
RequestFits (channel_list skip limit) = Fits skip × Fits limit

abbrev pub BodyFits : MessageBody → Type 0
BodyFits (request ttl b) = (ttl < 256) × RequestFits b
BodyFits (response (hash hashes)) = HashesFit hashes
BodyFits (response (posts ps)) = All ElementFits ps
BodyFits (response (channels cs)) = All ElementFits cs
BodyFits (unrecognized _) = ⊥

-- A recognized message whose arrays have their Rust lengths and whose varints fit.
pub record IsFitting (m : Message) : Type 0 where
  pub circuit_id : length m.header.circuit_id ≡ 4
  pub req_id : length m.header.req_id ≡ 4
  pub body : BodyFits m.body

-- Also, its own size leaves room for the length field.
pub record IsWritable (v : Desert) (m : Message) : Type 0 where
  pub fitting : IsFitting m
  pub open fitting use *
  pub size : message_size v m < 2 ^ 55

-- The length field counts the message without itself, but for the sizes at which the size of the
-- count as a varint goes up when the length field is added: there it is one less.
pub msg_len_lem :
    (n : ℕ)
    → n < 2 ^ 55
    → (groups (groups n + n - groups (groups n + n)) ≡ groups n)
      × (groups n + n - groups (groups n + n) + groups (groups n + n) ≡ groups n + n)
      × Fits (groups n + n)
msg_len_lem n h = ground arith

module _ (v : Desert) where
  -- Counted byte strings, and the 0 that ends them.
  abbrev pub elements_bytes : List (List ℕ) → List ℕ
  elements_bytes ss = flat_map (sized_bytes v) ss ++ v.encode 0

  abbrev pub request_bytes : ℕ → RequestBody → List ℕ
  request_bytes ttl (post hashes) = v.encode ttl ++ hashes_bytes v hashes
  request_bytes ttl (cancel cancel_id) = v.encode ttl ++ cancel_id
  request_bytes ttl (channel_time_range channel time_start time_end limit) =
      v.encode ttl
      ++ (sized_bytes v channel ++ (v.encode time_start ++ (v.encode time_end ++ v.encode limit)))
  request_bytes ttl (channel_state channel future) =
      v.encode ttl ++ (sized_bytes v channel ++ v.encode future)
  request_bytes ttl (channel_list skip limit) = v.encode ttl ++ (v.encode skip ++ v.encode limit)

  abbrev pub body_bytes : MessageBody → List ℕ
  body_bytes (request ttl b) = request_bytes ttl b
  body_bytes (response (hash hashes)) = hashes_bytes v hashes
  body_bytes (response (posts ps)) = elements_bytes ps
  body_bytes (response (channels cs)) = elements_bytes cs
  body_bytes (unrecognized _) = []

  -- What follows the length field.
  abbrev pub payload_bytes : Message → List ℕ
  payload_bytes m =
      v.encode (body_type m.body) ++ (m.header.circuit_id ++ (m.header.req_id ++ body_bytes m.body))

  abbrev pub message_bytes : Message → List ℕ
  message_bytes m = v.encode (msg_len v m) ++ payload_bytes m

pub BodyFits-type : (b : MessageBody) → BodyFits b → Fits (body_type b)
BodyFits-type (request ttl (post _)) h = omega arith
BodyFits-type (request ttl (cancel _)) h = omega arith
BodyFits-type (request ttl (channel_time_range _ _ _ _)) h = omega arith
BodyFits-type (request ttl (channel_state _ _)) h = omega arith
BodyFits-type (request ttl (channel_list _ _)) h = omega arith
BodyFits-type (response (hash _)) h = omega arith
BodyFits-type (response (posts _)) h = omega arith
BodyFits-type (response (channels _)) h = omega arith
BodyFits-type (unrecognized _) h = absurd h

module _ (v : Desert) (laws : DesertLaws v) where
  length-elements :
      (ss : List (List ℕ)) (sum : ℕ)
      → All ElementFits ss
      → foldl (λ sum s. sum + v.size (length s) + length s) sum ss
        ≡ sum + length (flat_map (sized_bytes v) ss)
  unfolding flat_map
  length-elements [] sum h = omega arith
  length-elements (s ∷ ss) sum h = omega (
    arith,
    length-elements ss _ h.1,
    length-append (sized_bytes v s) (flat_map (sized_bytes v) ss),
    length-sized_bytes v laws s h.0,
  )

  length-elements_bytes :
      (ss : List (List ℕ)) → All ElementFits ss → length (elements_bytes v ss) ≡ elements_size v ss
  unfolding elements_size
  length-elements_bytes ss h = omega (
    arith,
    length-append (flat_map (sized_bytes v) ss) (v.encode 0),
    length-elements ss 0 h,
    laws.length-encode 0 (omega arith),
  )

  length-request_bytes :
      (ttl : ℕ) (b : RequestBody)
      → ttl < 256
      → RequestFits b
      → length (request_bytes v ttl b) ≡ request_size v ttl b
  unfolding request_size
  length-request_bytes ttl (post hashes) t h = omega (
    arith,
    length-append (v.encode ttl) (hashes_bytes v hashes),
    laws.length-encode ttl (omega arith),
    length-hashes_bytes v laws hashes h,
  )
  length-request_bytes ttl (cancel cancel_id) t h =
      omega (arith, length-append (v.encode ttl) cancel_id, laws.length-encode ttl (omega arith), h)
  length-request_bytes ttl (channel_time_range c s e l) t (hc, hs, he, hl) = omega (
    arith,
    length-append (v.encode ttl) (sized_bytes v c ++ (v.encode s ++ (v.encode e ++ v.encode l))),
    length-append (sized_bytes v c) (v.encode s ++ (v.encode e ++ v.encode l)),
    length-append (v.encode s) (v.encode e ++ v.encode l),
    length-append (v.encode e) (v.encode l),
    laws.length-encode ttl (omega arith),
    length-sized_bytes v laws c hc,
    laws.length-encode s hs,
    laws.length-encode e he,
    laws.length-encode l hl,
  )
  length-request_bytes ttl (channel_state c f) t (hc, hf) = omega (
    arith,
    length-append (v.encode ttl) (sized_bytes v c ++ v.encode f),
    length-append (sized_bytes v c) (v.encode f),
    laws.length-encode ttl (omega arith),
    length-sized_bytes v laws c hc,
    laws.length-encode f hf,
  )
  length-request_bytes ttl (channel_list s l) t (hs, hl) = omega (
    arith,
    length-append (v.encode ttl) (v.encode s ++ v.encode l),
    length-append (v.encode s) (v.encode l),
    laws.length-encode ttl (omega arith),
    laws.length-encode s hs,
    laws.length-encode l hl,
  )

  length-body_bytes : (b : MessageBody) → BodyFits b → length (body_bytes v b) ≡ body_size v b
  unfolding body_size response_size
  length-body_bytes (request ttl b) h = length-request_bytes ttl b h.0 h.1
  length-body_bytes (response (hash hashes)) h = length-hashes_bytes v laws hashes h
  length-body_bytes (response (posts ps)) h = length-elements_bytes ps h
  length-body_bytes (response (channels cs)) h = length-elements_bytes cs h
  length-body_bytes (unrecognized _) h = absurd h

  pub length-payload_bytes :
      (m : Message) → IsWritable v m → length (payload_bytes v m) ≡ message_size v m
  unfolding message_size
  length-payload_bytes m h =
      let hd = m.header in
      let body = body_bytes v m.body in
      omega (
        arith,
        h.circuit_id,
        h.req_id,
        length-append (v.encode (body_type m.body)) (hd.circuit_id ++ (hd.req_id ++ body)),
        length-append hd.circuit_id (hd.req_id ++ body),
        length-append hd.req_id body,
        laws.length-encode (body_type m.body) (BodyFits-type m.body h.body),
        length-body_bytes m.body h.body,
      )

  -- The length field is as wide as `count_bytes` took it to be, and together with its excess it
  -- makes up the count.
  pub msg_len_facts :
      (m : Message)
      → IsWritable v m
      → (v.size (msg_len v m) ≡ v.size (message_size v m))
        × (msg_len v m + v.size (count_bytes v m) ≡ count_bytes v m)
        × Fits (msg_len v m)
        × Fits (count_bytes v m)
  unfolding msg_len count_bytes
  msg_len_facts m h =
      let n = message_size v m in
      let (a, b, c) = msg_len_lem n h.size in
      let s : v.size n ≡ groups n = laws.size_groups n (omega (arith, h.size)) in
      let t : v.size (groups n + n) ≡ groups (groups n + n) = laws.size_groups (groups n + n) c in
      rw (s, t) (laws.size_groups _ (omega arith) ∙ a, b, omega arith, c)

  pub count_bytes_lem :
      (m : Message) → count_bytes v m ≡ v.size (message_size v m) + message_size v m
  unfolding count_bytes
  count_bytes_lem m = refl

  pub length-message_bytes :
      (m : Message) → IsWritable v m → length (message_bytes v m) ≡ count_bytes v m
  length-message_bytes m h =
      let (a, b, c, d) = msg_len_facts m h in
      omega (
        arith,
        length-append (v.encode (msg_len v m)) (payload_bytes v m),
        laws.length-encode (msg_len v m) c,
        length-payload_bytes m h,
        count_bytes_lem m,
      )

  pub count_bytes_pos : (m : Message) → IsWritable v m → 1 ≤ count_bytes v m
  count_bytes_pos m h =
      ground (arith, count_bytes_lem m, laws.size_groups (message_size v m) (omega (arith, h.size)))
