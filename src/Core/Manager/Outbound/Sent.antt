-- ===== src/Core/Manager/Outbound/Sent.antt =====
-- What a peer that connects is sent.
use cable_rs.Base.{
  ℕ, zero, suc, ◌≡◌, ◌∙◌, refl, sym, ap, arith, nat_beq, false, List, [], ◌∷◌, ◌++◌,
}
use cable_rs.Base.Equality.{bytes_eq}
use cable_rs.Cable.Desert.{Desert}
use cable_rs.Cable.Error.{Outcome, ok, err, panic, stuck}
use cable_rs.Cable.Error as Error
use cable_rs.Cable.Message.{Message, MessageBody, RequestBody}
use cable_rs.Cable.Message as Message
use cable_rs.Cable.Message.Encode.{to_bytes}
use cable_rs.Cable.Types.{ReqId}
use cable_rs.Core.Manager.{CableManager, PeerId, RequestOrigin, local, remote}
use cable_rs.Core.Manager.Outbound.{
  Forwarding, start_forwarding, goes_on, forward, process_request, process_requests,
  process_and_send_outbound_requests, note_forwarded,
}
use cable_rs.Core.Manager.Lock.{RwLock}
use cable_rs.Core.Map.{Map}
use mathlib.Core.List.{append_assoc, append-nil}

-- No cancel request.
abbrev pub IsQuery : RequestBody → Type 0
IsQuery (Message.cancel _) = ⊥
IsQuery _ = Unit

-- A request that is not exhausted, and no cancel request of another peer.
abbrev pub IsSendable : RequestOrigin → MessageBody → Type 0
IsSendable o (Message.request zero _) = ⊥
IsSendable local (Message.request (suc _) _) = Unit
IsSendable remote (Message.request (suc _) b) = IsQuery b
IsSendable o _ = ⊥

abbrev pub AllSendable : Map ReqId (RequestOrigin × Message) → Type 0
AllSendable [] = Unit
AllSendable ((r, (o, msg)) ∷ reqs) = IsSendable o msg.body × AllSendable reqs

-- The encodings of the requests, one behind the other.
abbrev pub encodings : Desert → Map ReqId (RequestOrigin × Message) → Outcome (List ℕ)
encodings v [] = ok []
encodings v ((r, (o, msg)) ∷ reqs) =
    Error.◌>>=◌ (to_bytes v msg) (λ bs. Error.◌>>=◌ (encodings v reqs) (λ rest. ok (bs ++ rest)))

module _ (lk : RwLock) (v : Desert) (p : PeerId) where
  pub process_request-query :
      (r : ReqId) (o : RequestOrigin) (msg : Message) (ttl : ℕ) (b : RequestBody)
      (f : Forwarding lk)
      → IsQuery b
      → process_request lk v p r o msg (Message.request ttl b) f ≡ forward lk v p r o ttl msg f
  unfolding process_request
  process_request-query r local msg ttl (Message.post _) f q = refl
  process_request-query r local msg ttl (Message.cancel _) f q = absurd q
  process_request-query r local msg ttl (Message.channel_time_range _ _ _ _) f q = refl
  process_request-query r local msg ttl (Message.channel_state _ _) f q = refl
  process_request-query r local msg ttl (Message.channel_list _ _) f q = refl
  process_request-query r remote msg ttl (Message.post _) f q = refl
  process_request-query r remote msg ttl (Message.cancel _) f q = absurd q
  process_request-query r remote msg ttl (Message.channel_time_range _ _ _ _) f q = refl
  process_request-query r remote msg ttl (Message.channel_state _ _) f q = refl
  process_request-query r remote msg ttl (Message.channel_list _ _) f q = refl

  forward-sent :
      (r : ReqId) (o : RequestOrigin) (n : ℕ) (msg : Message) (f : Forwarding lk) (bs : List ℕ)
      → to_bytes v msg ≡ ok bs
      → (f' : Forwarding lk) × (forward lk v p r o (suc n) msg f ≡ (ok goes_on, f'))
        × (f'.stream ≡ f.stream ++ bs)
  unfolding forward
  forward-sent r o n msg f bs e =
      let above : nat_beq (suc n) 0 ≡ false = ground arith in
      let sent : Forwarding lk = record f { stream = f.stream ++ bs } in
      (note_forwarded lk v p r o sent, rw (above, forward, e) refl, stream_same o)
    where
      stream_same :
          (o : RequestOrigin)
          → (note_forwarded lk v p r o (record f { stream = f.stream ++ bs })).stream
            ≡ f.stream ++ bs
      stream_same local = refl
      stream_same remote = refl

  -- A request of either origin that is no exhausted one, with its encoding.
  entry-sent :
      (r : ReqId) (o : RequestOrigin) (msg : Message) (body : MessageBody) (f : Forwarding lk)
      (bs : List ℕ)
      → IsSendable o body
      → to_bytes v msg ≡ ok bs
      → (f' : Forwarding lk) × (process_request lk v p r o msg body f ≡ (ok goes_on, f'))
        × (f'.stream ≡ f.stream ++ bs)
  unfolding process_request
  entry-sent r o msg (Message.request zero b) f bs s e = absurd s
  entry-sent r local msg (Message.request (suc n) b) f bs s e = forward-sent r local n msg f bs e
  entry-sent r remote msg (Message.request (suc n) b) f bs s e =
      let (f', done, stream) = forward-sent r remote n msg f bs e in
      (f', process_request-query r remote msg (suc n) b f s ∙ done, stream)
  entry-sent r local msg (Message.response _) f bs s e = absurd s
  entry-sent r remote msg (Message.response _) f bs s e = absurd s
  entry-sent r local msg (Message.unrecognized _) f bs s e = absurd s
  entry-sent r remote msg (Message.unrecognized _) f bs s e = absurd s

  process_requests-sent :
      (reqs : Map ReqId (RequestOrigin × Message)) (f : Forwarding lk) (bs : List ℕ)
      → AllSendable reqs
      → encodings v reqs ≡ ok bs
      → ((process_requests lk v p reqs f).0 ≡ ok goes_on)
        × ((process_requests lk v p reqs f).1.stream ≡ f.stream ++ bs)
  unfolding process_requests
  process_requests-sent [] f bs s e =
      (refl, sym (append-nil f.stream) ∙ ap (λ x. f.stream ++ x) (nothing e))
    where
      nothing : ok [] ≡ ok bs → [] ≡ bs
      nothing z = cc
  process_requests-sent ((r, (o, msg)) ∷ reqs) f bs s e =
      let (first, w, e1) = Error.>>=-eq-ok (to_bytes v msg) _ e in
      let (rest, w', e2) = Error.>>=-eq-ok (encodings v reqs) _ e1 in
      let (f', done, stream) = entry-sent r o msg msg.body f first s.0 w in
      let later = process_requests-sent reqs f' rest s.1 w' in
      let whole : first ++ rest ≡ bs = cc e2 in
      rw done (
        later.0,
        later.1
            ∙ ap (λ x. x ++ rest) stream
            ∙ append_assoc f.stream first rest
            ∙ ap (λ x. f.stream ++ x) whole,
      )

-- A peer that connects while all outbound requests have a TTL above 0, and none is a cancel request
-- of another peer, is sent exactly their encodings, in the order of the map.
pub process_and_send-all :
    (lk : RwLock) (v : Desert) (p : PeerId) (m : CableManager) (stream bs : List ℕ)
    → AllSendable m.outbound_requests
    → encodings v m.outbound_requests ≡ ok bs
    → ((process_and_send_outbound_requests lk v p (m, stream)).0 ≡ ok goes_on)
      × ((process_and_send_outbound_requests lk v p (m, stream)).1.1 ≡ stream ++ bs)
unfolding process_and_send_outbound_requests
process_and_send-all lk v p m stream bs s e =
    process_requests-sent lk v p m.outbound_requests (start_forwarding lk m stream) bs s e
