-- ===== src/Core/Store.antt =====
-- cable_core/src/store.rs: `MemoryStore`, its maps and the operations on single maps. Locks are left
-- out: each operation takes the ones that it needs and gives them up at its end.
pub mod Posts
pub mod Insert
pub mod Removed
pub mod Inserted
pub mod Membership
pub mod Authors
pub mod Deletion
pub mod Ordered
pub mod Latest
pub mod Ranges
pub mod Fresh
pub mod Replay
pub mod Unjoined
use cable_rs.Base.{
  ℕ, Bool, true, false, not, List, [], ◌∷◌, ◌++◌, Option, none, some, if◌then◌else◌,
}
use cable_rs.Base.Equality.{◌==◌, bytes_eq, option_eq}
use cable_rs.Cable.Post.{Post}
use cable_rs.Cable.Types.{Channel, Hash, Nickname, Payload, PublicKey, Timestamp, Topic}
use cable_rs.Core.Map.{
  Map, Tree, lookup, insert, upsert, adjust, map_values, map, retain, tree_insert, last, set_insert,
}
use cable_rs.Core.Stream.{LiveStream}
use mathlib.Core.Option as Option

abbrev pub Keypair : Type 0
Keypair = PublicKey × List ℕ

-- Without `empty_post_bt`, a tree that is always empty.
pub record MemoryStore : Type 0 where
  pub keypair : Keypair
  pub channels : List Channel
  pub channel_members : Map Channel (List PublicKey)
  pub ex_channel_members : Map Channel (List PublicKey)
  pub channel_membership : Map Channel (Map PublicKey Hash)
  pub channel_topics : Map Channel (Tree (Topic × Hash))
  pub delete_hashes : Map PublicKey (List Hash)
  pub info_hashes : Map PublicKey (List Hash)
  pub peer_names : Map PublicKey (Tree (Nickname × Hash))
  pub posts : Map (Option Channel) (Tree (List (Post × Hash)))
  pub post_payloads : Map Hash Payload
  pub live_streams : Map Channel (List LiveStream)
  pub live_stream_id : ℕ

-- `Default`, with the key pair that was generated.
abbrev pub empty_store : Keypair → MemoryStore
empty_store kp = record {
  keypair = kp;
  channels = [];
  channel_members = [];
  ex_channel_members = [];
  channel_membership = [];
  channel_topics = [];
  delete_hashes = [];
  info_hashes = [];
  peer_names = [];
  posts = [];
  post_payloads = [];
  live_streams = [];
  live_stream_id = 0;
}

abbrev pub get_keypair : MemoryStore → Option Keypair
get_keypair s = some s.keypair

abbrev pub set_keypair : Keypair → MemoryStore → MemoryStore
set_keypair kp s = record s { keypair = kp }

-- With the key pair that is generated where the store has none.
unfoldable pub get_or_create_keypair : Keypair → MemoryStore → Keypair × MemoryStore
get_or_create_keypair generated s = elim (get_keypair s) [
  | some kp ↦ (kp, s)
  | none ↦ (generated, set_keypair generated s)
]

abbrev pub get_channels : MemoryStore → Option (List Channel)
get_channels s = elim s.channels [ [] ↦ none | c ∷ cs ↦ some (c ∷ cs) ]

abbrev pub insert_channel : Channel → MemoryStore → MemoryStore
insert_channel c s = record s { channels = set_insert c s.channels }

abbrev pub push {ℓ} : {A : Type ℓ} → A → List A → List A
push x xs = xs ++ (x ∷ [])

abbrev pub contains : List ℕ → List (List ℕ) → Bool
contains x [] = false
contains x (y ∷ ys) = let rest = contains x ys in if x == y then true else rest

abbrev pub get_channel_members : Channel → MemoryStore → Option (List PublicKey)
get_channel_members c s = lookup c s.channel_members

unfoldable pub insert_channel_member : Channel → PublicKey → MemoryStore → MemoryStore
insert_channel_member c pk s = record s {
  channel_members = upsert c (push pk) (pk ∷ []) s.channel_members;
}

unfoldable pub is_channel_member : Channel → PublicKey → MemoryStore → Bool
is_channel_member c pk s = elim (get_channel_members c s) [
  | some members ↦ contains pk members
  | none ↦ false
]

unfoldable pub remove_channel_member : Channel → PublicKey → MemoryStore → MemoryStore
remove_channel_member c pk s = record s {
  channel_members = adjust c (retain (λ m. not (m == pk))) s.channel_members;
}

abbrev pub get_channel_membership_hashes : Channel → MemoryStore → Option (List Hash)
get_channel_membership_hashes c s = Option.map (map (λ e. e.1)) (lookup c s.channel_membership)

unfoldable pub remove_channel_membership_hash : Hash → MemoryStore → MemoryStore
remove_channel_membership_hash h s = record s {
  channel_membership = map_values (retain (λ e. not (e.1 == h))) s.channel_membership;
}

unfoldable pub update_channel_membership_hashes :
    Channel → PublicKey → Hash → MemoryStore → MemoryStore
update_channel_membership_hashes c pk h s = record s {
  channel_membership = upsert c (insert pk h) (insert pk h []) s.channel_membership;
}

abbrev pub get_ex_channel_members : Channel → MemoryStore → Option (List PublicKey)
get_ex_channel_members c s = lookup c s.ex_channel_members

unfoldable pub insert_ex_channel_member : Channel → PublicKey → MemoryStore → MemoryStore
insert_ex_channel_member c pk s = record s {
  ex_channel_members = upsert c (push pk) (pk ∷ []) s.ex_channel_members;
}

unfoldable pub remove_ex_channel_member : Channel → PublicKey → MemoryStore → MemoryStore
remove_ex_channel_member c pk s = record s {
  ex_channel_members = adjust c (retain (λ m. not (m == pk))) s.ex_channel_members;
}

-- The value under the largest timestamp.
abbrev pub last_value {ℓ} : {V : Type ℓ} → Tree V → Option V
last_value t = Option.map (λ e. e.1) (last t)

unfoldable pub get_channel_topic_and_hash : Channel → MemoryStore → Option (Topic × Hash)
get_channel_topic_and_hash c s = elim (lookup c s.channel_topics) [
  | some topics ↦ last_value topics
  | none ↦ none
]

unfoldable pub insert_channel_topic : Channel → Topic → Timestamp → Hash → MemoryStore → MemoryStore
insert_channel_topic c t ts h s = record s {
  channel_topics = upsert c (tree_insert ts (t, h)) (tree_insert ts (t, h) []) s.channel_topics;
}

unfoldable pub remove_channel_topic : Hash → MemoryStore → MemoryStore
remove_channel_topic h s = record s {
  channel_topics = map_values (retain (λ e. not (e.1.1 == h))) s.channel_topics;
}

abbrev pub get_delete_hashes : PublicKey → MemoryStore → Option (List Hash)
get_delete_hashes pk s = lookup pk s.delete_hashes

unfoldable pub insert_delete_hash : PublicKey → Hash → MemoryStore → MemoryStore
insert_delete_hash pk h s = record s { delete_hashes = upsert pk (push h) (h ∷ []) s.delete_hashes }

abbrev pub get_info_hashes : PublicKey → MemoryStore → Option (List Hash)
get_info_hashes pk s = lookup pk s.info_hashes

unfoldable pub insert_info_hash : PublicKey → Hash → MemoryStore → MemoryStore
insert_info_hash pk h s = record s { info_hashes = upsert pk (push h) (h ∷ []) s.info_hashes }

unfoldable pub remove_info_hash : Hash → MemoryStore → MemoryStore
remove_info_hash h s = record s {
  info_hashes = map_values (retain (λ i. not (i == h))) s.info_hashes;
}

unfoldable pub get_peer_name_and_hash : PublicKey → MemoryStore → Option (Nickname × Hash)
get_peer_name_and_hash pk s = elim (lookup pk s.peer_names) [
  | some names ↦ last_value names
  | none ↦ none
]

unfoldable pub insert_peer_name :
    PublicKey → Nickname → Timestamp → Hash → MemoryStore → MemoryStore
insert_peer_name pk n ts h s = record s {
  peer_names = upsert pk (tree_insert ts (n, h)) (tree_insert ts (n, h) []) s.peer_names;
}

unfoldable pub remove_peer_name : Hash → MemoryStore → MemoryStore
remove_peer_name h s = record s {
  peer_names = map_values (retain (λ e. not (e.1.1 == h))) s.peer_names;
}
