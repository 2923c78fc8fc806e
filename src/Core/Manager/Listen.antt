-- ===== src/Core/Manager/Listen.antt =====
-- cable_core/src/manager.rs: `listen`, for the frames that the decoder of the stream (the crate
-- length_prefixed_stream) gives. Each message is handled to its end before the next one.
pub mod Unending
use cable_rs.Base.{ℕ, Bool, not, none, some, List, [], ◌∷◌, ◌++◌}
use cable_rs.Base.Equality.{◌==◌, nat_eq}
use cable_rs.Cable.Crypto.{Crypto}
use cable_rs.Cable.Desert.{Desert}
use cable_rs.Cable.Error.{Outcome, ok, err, panic, stuck}
use cable_rs.Cable.Message.{Message}
use cable_rs.Cable.Message.Decode.{from_bytes}
use cable_rs.Cable.Message.Encode.{to_bytes}
use cable_rs.Core.Manager.{CableManager, PeerId, new_peer_id}
use cable_rs.Core.Manager.Handle.{handle}
use cable_rs.Core.Manager.Lock.{RwLock}
use cable_rs.Core.Manager.Outbound.{Progress, goes_on, blocks, process_and_send_outbound_requests}
use cable_rs.Core.Map.{insert, lookup, retain}
use cable_rs.Core.Step.{Step, ◌>>=◌, ◌>>◌, lift, modify}

-- A new peer with an empty channel.
unfoldable pub add_peer : PeerId → CableManager → CableManager
add_peer p m = record m { peers = insert p [] m.peers }

unfoldable pub remove_peer : PeerId → CableManager → CableManager
remove_peer p m = record m { peers = retain (λ e. not (e.0 == p)) m.peers }

-- An error of the handler is printed, and does not end the loop.
abbrev pub report : Outcome (Unit {0}) × CableManager → Outcome (Unit {0}) × CableManager
report (ok _, m) = (ok tt, m)
report (err _, m) = (ok tt, m)
report (panic, m) = (panic, m)
report (stuck, m) = (stuck, m)

-- The task that writes the messages of a peer's channel to its stream: the bytes, up to an error.
unfoldable pub write_to_stream : Desert → List Message → Step (List ℕ) Unit
write_to_stream v [] = lift (ok tt)
write_to_stream v (msg ∷ msgs) = do
  bytes ← lift (to_bytes v msg)
  modify (λ stream. stream ++ bytes)
  write_to_stream v msgs

module _ (v : Desert) (c : Crypto) (accepts : PeerId → List Message → Bool) where
  unfoldable pub receive : PeerId → List ℕ → Step CableManager Unit
  receive p buf = do (_, msg) ← lift (from_bytes v buf); λ m. report (handle v c accepts p msg m)

  unfoldable pub receive_all : PeerId → List (List ℕ) → Step CableManager Unit
  receive_all p [] = lift (ok tt)
  receive_all p (buf ∷ bufs) = receive p buf >> receive_all p bufs

  module _ (lk : RwLock) where
    -- The peer's ID, its channel and the outbound requests, as bytes on the stream.
    unfoldable pub connect : Step (CableManager × List ℕ) (PeerId × Progress)
    connect (m, stream) =
        let id = new_peer_id m in
        (do
          p ← (λ s. (id.0, (id.1, s.1)))
          modify (λ s. (add_peer p s.0, s.1))
          progress ← process_and_send_outbound_requests lk v p
          lift (ok (p, progress)))
          (m, stream)

    -- What comes behind the loop: the task that writes the peer's messages is awaited. It ends with an
    -- error only, since the sender of its channel is kept among the peers: while that is there, it waits
    -- for more messages, and `listen` with it.
    unfoldable pub await_writer : PeerId → Step (CableManager × List ℕ) Progress
    await_writer p s = elim (lookup p s.0.peers) [
      | some sent ↦
          let r = write_to_stream v sent s.1 in ((lift r.0 >> lift (ok blocks)) (s.0, r.1))
      | none ↦ (ok goes_on, (remove_peer p s.0, s.1))
    ]

    -- The loop over the frames and what follows it.
    unfoldable pub listen_on :
        List (List ℕ) → PeerId × Progress → Step (CableManager × List ℕ) Progress
    listen_on bufs (p, blocks) = lift (ok blocks)
    listen_on bufs (p, goes_on) =
        λ s. let r = receive_all p bufs s.0 in ((lift r.0 >> await_writer p) (r.1, s.1))

    -- The frames, up to the end of the stream.
    unfoldable pub listen : List (List ℕ) → Step (CableManager × List ℕ) Progress
    listen bufs = connect >>= listen_on bufs
