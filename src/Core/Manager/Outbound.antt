-- ===== src/Core/Manager/Outbound.antt =====
-- cable_core/src/manager.rs: `process_and_send_outbound_requests`.
pub mod Sent
pub mod Blocked
use cable_rs.Base.{
  ℕ, suc, ltb, ◌-◌, Option, Bool, true, false, not, ◌||◌, List, [], ◌∷◌, ◌++◌, none, some, nat_beq,
  if◌then◌else◌,
}
use cable_rs.Base.Equality.{bytes_eq}
use cable_rs.Cable.Desert.{Desert}
use cable_rs.Cable.Error.{ok}
use cable_rs.Cable.Message.{
  Message, MessageBody, RequestBody, cancel, request, response, unrecognized,
}
use cable_rs.Cable.Message.Encode.{to_bytes}
use cable_rs.Cable.Types.{ReqId}
use cable_rs.Core.Map.{Map, lookup, insert, retain}
use cable_rs.Core.Step.{Step, ◌>>=◌, ◌>>◌, lift, modify}
use cable_rs.Core.Manager.Lock.{RwLock}
use cable_rs.Core.Manager.{CableManager, PeerId, RequestOrigin, local, remote, map_remove}

-- `blocks`: the code waits for what it keeps from coming itself, a lock that it holds or the end of a
-- channel whose sender it keeps.
pub data Progress : Type 0 where
  goes_on : Progress
  blocks : Progress

-- What the loop changes: the requests that were forwarded, the bytes written to the stream, and the
-- outbound requests with their lock. The loop goes over the requests as its head found them.
pub record Forwarding (lk : RwLock) : Type 0 where
  pub forwarded_requests : Map ReqId (List PeerId)
  pub stream : List ℕ
  pub outbound_requests : Map ReqId (RequestOrigin × Message)
  pub lock : lk.State

abbrev pub contains_peer : PeerId → List PeerId → Bool
contains_peer p [] = false
contains_peer p (q ∷ qs) = nat_beq p q || contains_peer p qs

abbrev pub remove_peer : PeerId → List PeerId → List PeerId
remove_peer p qs = retain (λ q. not (nat_beq q p)) qs

abbrev pub is_empty : List PeerId → Bool
is_empty [] = true
is_empty (_ ∷ _) = false

-- The peer is no longer one that the request was forwarded to, and a request without peers goes.
unfoldable pub forget_peer :
    PeerId → ReqId → List PeerId → Map ReqId (List PeerId) → Map ReqId (List PeerId)
forget_peer p r peers fwd =
    let rest = remove_peer p peers in if is_empty rest then map_remove r fwd else insert r rest fwd

unfoldable pub add_forwarded : PeerId → ReqId → Map ReqId (List PeerId) → Map ReqId (List PeerId)
add_forwarded p r fwd = elim (lookup r fwd) [
  | some peers ↦ insert r (if contains_peer p peers then peers else p ∷ peers) fwd
  | none ↦ insert r (p ∷ []) fwd
]

module _ (lk : RwLock) (v : Desert) (p : PeerId) where
  -- `stream.write_all(&msg.to_bytes()?)`
  abbrev pub write_msg : Message → Step (Forwarding lk) Unit
  write_msg msg = do
    bytes ← lift (to_bytes v msg)
    modify (λ f. record f { stream = f.stream ++ bytes })

  -- The part for cancel requests of remote origin: whether the iteration goes on behind it.
  unfoldable pub forward_cancel : ReqId → Message → Step (Forwarding lk) Bool
  forward_cancel cancel_id msg f = elim (lookup cancel_id f.forwarded_requests) [
    | some peers ↦
        if contains_peer p peers
        then (do
          write_msg msg
          modify (λ g. record g {
            forwarded_requests = forget_peer p cancel_id peers g.forwarded_requests;
          })
          lift (ok true))
            f
        else (ok false, f)
    | none ↦ (ok true, f)
  ]

  abbrev pub check_cancel : RequestOrigin → RequestBody → Message → Step (Forwarding lk) Bool
  check_cancel remote (cancel cancel_id) msg = forward_cancel cancel_id msg
  check_cancel _ _ msg = lift (ok true)

  abbrev pub note_forwarded : ReqId → RequestOrigin → Forwarding lk → Forwarding lk
  note_forwarded r local f = f
  note_forwarded r remote f = record f {
    forwarded_requests = add_forwarded p r f.forwarded_requests;
  }

  -- `self.outbound_requests.write().await.remove(req_id)`
  unfoldable pub remove_exhausted : ReqId → Step (Forwarding lk) Progress
  remove_exhausted r f = elim (lk.write f.lock) [
    | none ↦ (ok blocks, f)
    | some held ↦ (
      ok goes_on,
      record f { outbound_requests = map_remove r f.outbound_requests; lock = lk.drop_write held },
    )
  ]

  -- The part behind it.
  unfoldable pub forward : ReqId → RequestOrigin → ℕ → Message → Step (Forwarding lk) Progress
  forward r o ttl msg =
      if nat_beq ttl 0
      then remove_exhausted r
      else (do write_msg msg; modify (note_forwarded r o); lift (ok goes_on))

  unfoldable pub process_request :
      ReqId → RequestOrigin → Message → MessageBody → Step (Forwarding lk) Progress
  process_request r o msg (request ttl body) = do
    goes ← check_cancel o body msg
    if goes then forward r o ttl msg else lift (ok goes_on)
  process_request r o msg (response _) = lift (ok goes_on)
  process_request r o msg (unrecognized _) = lift (ok goes_on)

  unfoldable pub process_requests :
      Map ReqId (RequestOrigin × Message) → Step (Forwarding lk) Progress
  process_requests [] = lift (ok goes_on)
  process_requests ((r, (o, msg)) ∷ rest) = do
    progress ← process_request r o msg msg.body
    elim progress [ goes_on ↦ process_requests rest | blocks ↦ lift (ok blocks) ]

-- The head of the loop has taken the lock of the outbound requests, which was free, for reading, and
-- holds it to the end of the loop.
abbrev pub start_forwarding : (lk : RwLock) → CableManager → List ℕ → Forwarding lk
start_forwarding lk m stream = record {
  forwarded_requests = m.forwarded_requests;
  stream = stream;
  outbound_requests = m.outbound_requests;
  lock = lk.reading;
}

-- The result, the bytes that were written to the peer's stream, and the manager.
unfoldable pub process_and_send_outbound_requests :
    RwLock → Desert → PeerId → Step (CableManager × List ℕ) Progress
process_and_send_outbound_requests lk v p (m, stream) =
    let r = process_requests lk v p m.outbound_requests (start_forwarding lk m stream) in
    let done = record m {
      forwarded_requests = r.1.forwarded_requests;
      outbound_requests = r.1.outbound_requests;
    } in
    (r.0, (done, r.1.stream))
