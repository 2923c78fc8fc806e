-- ===== src/Core/Store/Posts.antt =====
-- cable_core/src/store.rs: the posts of a store, their payloads, and the live streams.
use cable_rs.Base.{
  ℕ, suc, Bool, true, false, not, ◌&&◌, List, [], ◌∷◌, ◌++◌, Option, none, some, nat_beq, ltb, leb,
  if◌then◌else◌,
}
use cable_rs.Base.Equality.{◌==◌, bytes_eq, option_eq, nat_eq}
use cable_rs.Cable.Error.{Outcome, ok, panic, ◌>>=◌}
use cable_rs.Cable.Post.{Post}
use cable_rs.Cable.Types.{Channel, ChannelOptions, Hash, Payload, Timestamp}
use cable_rs.Core.Map.{Tree, lookup, insert, upsert, adjust, map_values, map, retain, tree_insert}
use cable_rs.Core.Store.{
  MemoryStore, push, last_value, remove_channel_topic, remove_channel_membership_hash,
  remove_peer_name, remove_info_hash,
}
use cable_rs.Core.Stream as Stream
use cable_rs.Core.Stream.{LiveStream, matches}
use mathlib.Core.List.{flat_map}
use mathlib.Core.Option as Option

abbrev pub Entry : Type 0
Entry = Post × Hash

unfoldable pub get_latest_hashes : Channel → MemoryStore → Option (List Hash)
get_latest_hashes c s = elim (lookup (some c) s.posts) [
  | some tree ↦ Option.map (map (λ e. e.1)) (last_value tree)
  | none ↦ none
]

-- The part of a tree that `range` gives: an end point of 0 is no bound, the end is left out, and a
-- start behind the end panics: the tree of a channel has had an entry and keeps its root, even when
-- it is empty.
abbrev pub range {ℓ} : {V : Type ℓ} → ℕ → ℕ → Tree V → Outcome (Tree V)
range start end t =
    if nat_beq start 0 && nat_beq end 0
    then ok t
    else if nat_beq start 0
    then ok (retain (λ e. ltb e.0 end) t)
    else if nat_beq end 0
    then ok (retain (λ e. leb start e.0) t)
    else if ltb end start
    then panic
    else ok (retain (λ e. leb start e.0 && ltb e.0 end) t)

-- The entries of a channel in the range that the options give.
abbrev pub channel_entries : ChannelOptions → MemoryStore → Outcome (List Entry)
channel_entries o s = elim (lookup (some o.channel) s.posts) [
  | some tree ↦ range o.time_start o.time_end tree >>= λ t. ok (flat_map (λ e. e.1) t)
  | none ↦ ok []
]

abbrev pub non_channel_entries : MemoryStore → List Entry
non_channel_entries s = elim (lookup none s.posts) [
  | some tree ↦ flat_map (λ e. e.1) tree
  | none ↦ []
]

-- The stream's items: the posts of the channel, then those without a channel.
unfoldable pub get_posts : ChannelOptions → MemoryStore → Outcome (List Post)
get_posts o s = do
  entries ← channel_entries o s
  ok (map (λ e. e.0) entries ++ map (λ e. e.0) (non_channel_entries s))

unfoldable pub get_post_hashes : ChannelOptions → MemoryStore → Outcome (List Hash)
get_post_hashes o s = do entries ← channel_entries o s; ok (map (λ e. e.1) entries)

-- A new live stream with the next id, and the stored posts that it starts with.
unfoldable pub get_posts_live :
    ChannelOptions → MemoryStore → Outcome (List Post) × LiveStream × MemoryStore
get_posts_live o s =
    let id = suc s.live_stream_id in
    let live = Stream.new id o in
    let s' = record s {
      live_streams = upsert o.channel (push live) (live ∷ []) s.live_streams;
      live_stream_id = id;
    } in
    (get_posts o s', live, s')

unfoldable pub remove_post : Hash → MemoryStore → MemoryStore
remove_post h s = record s {
  posts = map_values (map_values (retain (λ (e : Entry). not (e.1 == h)))) s.posts;
}

unfoldable pub remove_post_payload : Hash → MemoryStore → MemoryStore
remove_post_payload h s = record s { post_payloads = retain (λ e. not (e.0 == h)) s.post_payloads }

unfoldable pub delete_post : Hash → MemoryStore → MemoryStore
delete_post h s =
    let s1 = remove_channel_topic h s in
    let s2 = remove_channel_membership_hash h s1 in
    let s3 = remove_peer_name h s2 in
    let s4 = remove_info_hash h s3 in let s5 = remove_post h s4 in remove_post_payload h s5

-- The tree of a channel with one more post.
abbrev pub add_entry : Timestamp → Entry → Tree (List Entry) → Tree (List Entry)
add_entry ts e tree = elim (lookup ts tree) [
  | some entries ↦ tree_insert ts (push e entries) tree
  | none ↦ tree_insert ts (e ∷ []) tree
]

unfoldable pub update_posts : Post → Option Channel → Timestamp → Hash → MemoryStore → MemoryStore
update_posts p c ts h s = record s {
  posts = upsert c (add_entry ts (p, h)) (tree_insert ts ((p, h) ∷ []) []) s.posts;
}

abbrev pub get_post_payload : Hash → MemoryStore → Option Payload
get_post_payload h s = lookup h s.post_payloads

unfoldable pub get_post_payloads : List Hash → MemoryStore → List Payload
get_post_payloads [] s = []
get_post_payloads (h ∷ hs) s =
    let rest = get_post_payloads hs s in
    elim (get_post_payload h s) [ some p ↦ p ∷ rest | none ↦ rest ]

unfoldable pub insert_post_payload : Hash → Payload → MemoryStore → MemoryStore
insert_post_payload h payload s = record s { post_payloads = insert h payload s.post_payloads }

unfoldable pub send_post_to_live_streams : Post → Channel → MemoryStore → MemoryStore
send_post_to_live_streams p c s = record s {
  live_streams = adjust c (map (λ l. if matches l p then Stream.send p l else l)) s.live_streams;
}

abbrev pub contains_key : Hash → MemoryStore → Bool
contains_key h s = elim (get_post_payload h s) [ some _ ↦ true | none ↦ false ]

unfoldable pub want : List Hash → MemoryStore → List Hash
want hs s = retain (λ h. not (contains_key h s)) hs
