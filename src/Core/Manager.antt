-- ===== src/Core/Manager.antt =====
-- cable_core/src/manager.rs: the state of `CableManager` and its small operations. Locks are left
-- out, as in the store: an operation runs to its end before the next one starts. Where the code
-- waits for a lock that it holds itself, the model says so (Manager/Outbound).
pub mod Lock
pub mod Outbound
pub mod Publish
pub mod Channels
pub mod Hashes
pub mod Listen
pub mod Frame
pub mod Received
pub mod Payloads
pub mod Deleted
pub mod Reached
pub mod Ids
pub mod Answers
pub mod Sets
pub mod Requests
pub mod Handle
use cable_rs.Base.{
  ℕ, suc, Bool, true, false, not, List, [], ◌∷◌, Option, none, some, nat_beq, if◌then◌else◌,
}
use cable_rs.Base.Equality.{◌==◌, bytes_eq, nat_eq}
use cable_rs.Cable.Desert.{Desert}
use cable_rs.Cable.Error.{Outcome, ok, err, send_error}
use cable_rs.Cable.Message.{Message, decrement_ttl}
use cable_rs.Cable.Types.{Channel, ChannelOptions, Hash, PublicKey, ReqId}
use cable_rs.Core.Map.{Map, lookup, insert, upsert, adjust, map, retain}
use cable_rs.Core.Step.{Step, ◌>>=◌, ◌>>◌, lift, modify}
use cable_rs.Core.Store.{MemoryStore, contains, push, Keypair}
use cable_rs.Core.Store.Posts.{get_latest_hashes}

-- The TTL of the manager's own requests.
abbrev pub request_ttl : ℕ
request_ttl = 1

abbrev pub PeerId : Type 0
PeerId = ℕ

pub data LiveRequest : Type 0 where
  channel_state : ReqId → Channel → LiveRequest
  channel_time_range : ReqId → ChannelOptions → LiveRequest

abbrev pub live_req_id : LiveRequest → ReqId
live_req_id (channel_state r _) = r
live_req_id (channel_time_range r _) = r

abbrev pub PeerRequestMap : Type 0
PeerRequestMap = Map PeerId (List LiveRequest)

pub data RequestOrigin : Type 0 where
  local : RequestOrigin
  remote : RequestOrigin

abbrev pub is_local : RequestOrigin → Bool
is_local local = true
is_local remote = false

-- Of the channel to a peer, which is async_std's, the model keeps the messages that were handed to
-- it, in their order.
pub record CableManager : Type 0 where
  pub deleted_posts : List Hash
  pub forwarded_requests : Map ReqId (List PeerId)
  pub handled_requests : List ReqId
  pub last_peer_id : PeerId
  pub last_req_id : ℕ
  pub live_requests : PeerRequestMap
  pub outbound_requests : Map ReqId (RequestOrigin × Message)
  pub peers : Map PeerId (List Message)
  pub requested_posts : List Hash
  pub store : MemoryStore

-- `CableManager::new`, with the random first request ID.
abbrev pub new : ℕ → MemoryStore → CableManager
new start s = record {
  deleted_posts = [];
  forwarded_requests = [];
  handled_requests = [];
  last_peer_id = 0;
  last_req_id = start;
  live_requests = [];
  outbound_requests = [];
  peers = [];
  requested_posts = [];
  store = s;
}

-- `HashSet::insert`
abbrev pub set_add : List ℕ → List (List ℕ) → List (List ℕ)
set_add x xs = if contains x xs then xs else push x xs

abbrev pub set_extend : List (List ℕ) → List (List ℕ) → List (List ℕ)
set_extend [] xs = xs
set_extend (y ∷ ys) xs = set_extend ys (set_add y xs)

-- `HashSet::remove`
abbrev pub set_remove : List ℕ → List (List ℕ) → List (List ℕ)
set_remove x xs = retain (λ y. not (y == x)) xs

-- `HashMap::remove`
abbrev pub map_remove {ℓ} : {V : Type ℓ} → ReqId → Map ReqId V → Map ReqId V
map_remove k m = retain (λ e. not (e.0 == k)) m

-- `HashMap::contains_key`
abbrev pub has_key {ℓ} : {V : Type ℓ} → ReqId → Map ReqId V → Bool
has_key k m = elim (lookup k m) [ some _ ↦ true | none ↦ false ]

-- An operation on the store, within the manager.
abbrev pub on_store : {A : Type 0} → Step MemoryStore A → Step CableManager A
on_store f m = let r = f m.store in (r.0, record m { store = r.1 })

-- `get_or_create_keypair` creates none: a `MemoryStore` has a key pair.
abbrev pub get_public_key : CableManager → PublicKey
get_public_key m = m.store.keypair.0

abbrev pub get_secret_key : CableManager → List ℕ
get_secret_key m = m.store.keypair.1

-- After 2^32 - 1, the largest `u32`, comes 0.
unfoldable pub next_req_id : ℕ → ℕ
next_req_id n = if nat_beq n 4294967295 then 0 else suc n

unfoldable pub new_req_id : Desert → Step CableManager (ℕ × ReqId)
new_req_id v m =
    let id = next_req_id m.last_req_id in (ok (id, v.u32_bytes id), record m { last_req_id = id })

unfoldable pub new_peer_id : Step CableManager PeerId
new_peer_id m = let id = suc m.last_peer_id in (ok id, record m { last_peer_id = id })

abbrev pub get_peer_ids : CableManager → List PeerId
get_peer_ids m = map (λ e. e.0) m.peers

abbrev pub get_links : Channel → CableManager → Option (List Hash)
get_links c m = get_latest_hashes c m.store

abbrev pub any_req_id : ReqId → List LiveRequest → Bool
any_req_id r [] = false
any_req_id r (l ∷ ls) = let rest = any_req_id r ls in if live_req_id l == r then true else rest

abbrev pub any_live : PeerId → ReqId → PeerRequestMap → Bool
any_live p r live = elim (lookup p live) [ some ls ↦ any_req_id r ls | none ↦ false ]

unfoldable pub is_live_request : PeerId → ReqId → CableManager → Bool
is_live_request p r m = any_live p r m.live_requests

unfoldable pub remove_live_request : PeerId → ReqId → CableManager → CableManager
remove_live_request p r m = record m {
  live_requests = adjust p (retain (λ l. not (live_req_id l == r))) m.live_requests;
}

-- `get_mut` and `push`, or else `insert`.
unfoldable pub keep_live : PeerId → LiveRequest → CableManager → CableManager
keep_live p l m = record m { live_requests = upsert p (push l) (l ∷ []) m.live_requests }

-- `outbound_requests.insert`
unfoldable pub write_outbound : ReqId → RequestOrigin → Message → CableManager → CableManager
write_outbound r o msg m = record m { outbound_requests = insert r (o, msg) m.outbound_requests }

unfoldable pub decrement_ttl_and_write_to_outbound : ReqId → Message → Step CableManager Unit
decrement_ttl_and_write_to_outbound r msg = do
  request ← lift (decrement_ttl msg)
  modify (write_outbound r remote request)

-- `accepts p sent`: after the messages `sent`, the channel to the peer `p` takes one more, and the
-- receiver is not gone. A channel that is full makes the code wait; here it does not.
module _ (accepts : PeerId → List Message → Bool) where
  unfoldable pub send : PeerId → Message → Step CableManager Unit
  send p msg m = elim (lookup p m.peers) [
    | some sent ↦
        if accepts p sent
        then (ok tt, record m { peers = insert p (push msg sent) m.peers })
        else (err send_error, m)
    | none ↦ (ok tt, m)
  ]

  -- The loop of `broadcast`, over the peers' channels.
  unfoldable pub send_all : Message → Step (Map PeerId (List Message)) Unit
  send_all msg [] = (ok tt, [])
  send_all msg ((p, sent) ∷ ps) =
      let rest = send_all msg ps in
      if accepts p sent
      then (rest.0, (p, push msg sent) ∷ rest.1)
      else (err send_error, (p, sent) ∷ ps)

  unfoldable pub broadcast : Message → Step CableManager Unit
  broadcast msg m = let r = send_all msg m.peers in (r.0, record m { peers = r.1 })
