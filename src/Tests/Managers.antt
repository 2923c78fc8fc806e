-- ===== src/Tests/Managers.antt =====
-- Examples for the manager.
use cable_rs.Base.{ℕ, ◌≡◌, ◌≢◌, refl, true, Bool, List, [], ◌∷◌, arith}
use cable_rs.Base.Equality.{bytes_eq, nat_eq}
use cable_rs.Cable.Crypto.Toy.{toy}
use cable_rs.Cable.Desert.Leb128.{leb128, leb128_laws}
use cable_rs.Cable.Message.{Message}
use cable_rs.Core.Manager.{CableManager, new, new_req_id, next_req_id}
use cable_rs.Core.Manager.Ids.{new_req_id-distinct}
use cable_rs.Core.Manager.Listen.{connect}
use cable_rs.Core.Manager.Lock.{counted}
use cable_rs.Core.Store.Replay.{insert_all, insert_all-replay, members, replay}
use cable_rs.Tests.{
  digest, hash_of, join_home, join_home-IsPost, leave_home, leave_home-IsPost, no_posts,
}

abbrev accepts_all : ℕ → List Message → Bool
accepts_all p sent = true

abbrev first_manager : CableManager
first_manager = new 7 no_posts

insert_all-replay_example :
    members (insert_all leb128 toy (join_home ∷ leave_home ∷ []) no_posts)
    ≡ replay (join_home ∷ leave_home ∷ []) (members no_posts)
insert_all-replay_example = insert_all-replay leb128 toy (join_home ∷ leave_home ∷ []) no_posts (
  (digest join_home, hash_of join_home join_home-IsPost),
  ((digest leave_home, hash_of leave_home leave_home-IsPost), tt),
)

abbrev connected : CableManager
connected = (connect leb128 toy accepts_all counted (first_manager, [])).1.0

new_req_id-distinct_example : (leb128.u32_bytes 8) ≢ (leb128.u32_bytes 10)
unfolding new_req_id next_req_id
new_req_id-distinct_example =
    new_req_id-distinct leb128 leb128_laws 0 2 first_manager (8, leb128.u32_bytes 8)
      (10, leb128.u32_bytes 10) (omega arith) (omega arith) (omega arith) refl refl
