-- ===== src/Core/Manager/Reached.antt =====
-- What the manager does, as a relation between its states, and what holds of every state that it
-- comes to.
use cable_rs.Base.{ℕ, ◌≤◌, ◌<◌, Bool, List, All}
use cable_rs.Base.Equality.{nat_eq}
use cable_rs.Cable.Crypto.{Crypto}
use cable_rs.Cable.Desert.{Desert}
use cable_rs.Cable.Error.{Outcome}
use cable_rs.Cable.Message.{Message}
use cable_rs.Cable.Post.{Post}
use cable_rs.Cable.Types.{Channel, ChannelOptions, Hash, Text, Topic}
use cable_rs.Cable.Post.New as New
use cable_rs.Core.Manager.{CableManager, PeerId, get_peer_ids}
use cable_rs.Core.Manager.Channels.{close_channel, open_channel}
use cable_rs.Core.Manager.Handle.{handle}
use cable_rs.Core.Manager.Listen.{connect, remove_peer}
use cable_rs.Core.Manager.Lock.{RwLock}
use cable_rs.Core.Manager.Publish.{
  post, post_delete, post_info_name, post_join, post_leave, post_text, post_topic,
}
use cable_rs.Core.Step.{◌>>=◌, ◌>>◌}
use cable_rs.Core.Store.Ordered.{IsOrdered}

-- The peers have IDs that were given out, the last request ID is a `u32`, and the trees of the store
-- are in order.
pub record WellFormed (m : CableManager) : Type 0 where
  pub peers : All (λ i. i ≤ m.last_peer_id) (get_peer_ids m)
  pub req_id : m.last_req_id < 4294967296
  pub store : IsOrdered m.store

module _ (lk : RwLock) (v : Desert) (c : Crypto) (accepts : PeerId → List Message → Bool) where
  -- One step of the manager: a message of a peer, a post, a channel that is opened or closed, a peer
  -- that comes or goes. An operation that fails is a step to the state that it leaves.
  pub data Moves (m : CableManager) : CableManager → Type 0 where
    handles : (p : PeerId) (msg : Message) → Moves m (handle v c accepts p msg m).1
    posts : (p : Post) → Moves m (post v c accepts p m).1
    texts :
        (now : Outcome ℕ) (ch : Channel) (t : Text) → Moves m (post_text v c accepts now ch t m).1
    names : (now : Outcome ℕ) (name : List ℕ) → Moves m (post_info_name v c accepts now name m).1
    topics :
        (now : Outcome ℕ) (ch : Channel) (t : Topic) → Moves m (post_topic v c accepts now ch t m).1
    joins : (now : Outcome ℕ) (ch : Channel) → Moves m (post_join v c accepts now ch m).1
    leaves : (now : Outcome ℕ) (ch : Channel) → Moves m (post_leave v c accepts now ch m).1
    deletes : (now : Outcome ℕ) (hs : List Hash) → Moves m (post_delete v c accepts now hs m).1
    opens : (o : ChannelOptions) → Moves m (open_channel v accepts o m).1
    closes : (ch : Channel) → Moves m (close_channel v accepts ch m).1
    connects : (stream : List ℕ) → Moves m (connect v c accepts lk (m, stream)).1.0
    disconnects : (p : PeerId) → Moves m (remove_peer p m)

  pub data Reaches (m : CableManager) : CableManager → Type 0 where
    here : Reaches m m
    after : {a b : CableManager} → Reaches m a → Moves a b → Reaches m b
