-- ===== src/Core/Manager/Outbound/Blocked.antt =====
-- When a peer that connects makes the manager wait for itself.
use cable_rs.Base.{◌≡◌}
use cable_rs.Base.Equality.{bytes_eq}
use cable_rs.Cable.Desert.{Desert}
use cable_rs.Cable.Error.{ok}
use cable_rs.Cable.Message.{Message}
use cable_rs.Cable.Message as Message
use cable_rs.Cable.Types.{ReqId}
use cable_rs.Core.Manager.{PeerId, RequestOrigin}
use cable_rs.Core.Manager.Outbound.{Forwarding, Progress, goes_on, blocks, process_requests}
use cable_rs.Core.Map.{Map}
use cable_rs.Core.Step.{Step, lift}
use cable_rs.Core.Manager.Lock.{RwLock, RwLockLaws}

module _ (lk : RwLock) (laws : RwLockLaws lk) (v : Desert) (p : PeerId) where
  -- The lock of the outbound requests is held for reading.
  abbrev IsHeld : Forwarding lk → Type 0
  IsHeld f = f.lock ≡ lk.reading

  -- What follows an entry.
  abbrev go_on : Map ReqId (RequestOrigin × Message) → Progress → Step (Forwarding lk) Progress
  go_on reqs progress = elim progress [
    | goes_on ↦ process_requests lk v p reqs
    | blocks ↦ lift (ok blocks)
  ]
