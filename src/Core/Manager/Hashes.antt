-- ===== src/Core/Manager/Hashes.antt =====
-- cable_core/src/manager.rs: the hashes that a peer's request is answered with.
use cable_rs.Base.{
  ℕ, not, ◌&&◌, List, [], ◌∷◌, ◌++◌, Option, none, some, nat_beq, leb, length, min, if◌then◌else◌,
}
use cable_rs.Cable.Error.{Outcome, ok, ◌>>=◌}
use cable_rs.Cable.Types.{Channel, ChannelOptions, Hash, PublicKey}
use cable_rs.Core.Store.{
  MemoryStore, push, get_channel_membership_hashes, get_channel_topic_and_hash, get_channel_members,
  get_ex_channel_members, get_delete_hashes, get_peer_name_and_hash,
}
use cable_rs.Core.Store.Posts.{get_post_hashes}
use mathlib.Core.List.{flat_map}

-- The loop over the stream of hashes: it ends behind the hash that meets the limit, and a limit of
-- 0 is none.
unfoldable pub collect : ℕ → List Hash → List Hash → List Hash
collect limit hashes [] = hashes
collect limit hashes (h ∷ stream) =
    let more = push h hashes in
    let rest = collect limit more stream in
    if not (nat_beq limit 0) && leb limit (length more) then more else rest

-- The hashes of the posts that the options ask for, 4096 at most.
unfoldable pub range_hashes : ChannelOptions → MemoryStore → Outcome (List Hash)
range_hashes o s = do stream ← get_post_hashes o s; ok (collect (min o.limit 4096) [] stream)

abbrev pub or_empty : Option (List Hash) → List Hash
or_empty (some hs) = hs
or_empty none = []

-- The hash at the side of a topic or of a name.
abbrev pub hash_of : Option (List ℕ × Hash) → List Hash
hash_of (some (_, h)) = h ∷ []
hash_of none = []

-- The latest joins and leaves of the channel, and its topic.
unfoldable pub state_hashes : Channel → MemoryStore → List Hash
state_hashes c s =
    or_empty (get_channel_membership_hashes c s) ++ hash_of (get_channel_topic_and_hash c s)

-- Of a member, the deletions and the latest name; of an ex-member, the latest name.
abbrev pub member_hashes : MemoryStore → PublicKey → List Hash
member_hashes s pk = or_empty (get_delete_hashes pk s) ++ hash_of (get_peer_name_and_hash pk s)

abbrev pub ex_member_hashes : MemoryStore → PublicKey → List Hash
ex_member_hashes s pk = hash_of (get_peer_name_and_hash pk s)

-- All that a live channel state request is answered with.
unfoldable pub live_state_hashes : Channel → MemoryStore → List Hash
live_state_hashes c s =
    state_hashes c s
    ++ flat_map (member_hashes s) (or_empty (get_channel_members c s))
    ++ flat_map (ex_member_hashes s) (or_empty (get_ex_channel_members c s))
