-- ===== src/Tests/Orders.antt =====
-- Examples for the order of stores and for time ranges.
use cable_rs.Base.{ℕ, ◌≡◌, ◌↔◌, refl, true, false, List, [], ◌∷◌, some}
use cable_rs.Base.Equality.{option_beq, list_beq, option_eq}
use cable_rs.Cable.Error.{ok, panic}
use cable_rs.Cable.Types.{ChannelOptions}
use cable_rs.Core.Map.{Tree, lookup}
use cable_rs.Core.Store.{MemoryStore}
use cable_rs.Core.Store.Posts.{Entry, get_post_hashes}
use cable_rs.Core.Store.Ranges.{is_reversed, get_post_hashes-range}
use cable_rs.Tests.{name, hash32, text_home, key32, no_posts}

-- A store whose channel has a topic and no posts yet.
abbrev with_topic : MemoryStore
with_topic = record no_posts {
  channel_topics = (name, (100, (name, key32)) ∷ []) ∷ [];
  posts = (some name, []) ∷ [];
}

abbrev reversed : ChannelOptions
reversed = record { channel = name; time_start = 100; time_end = 50; limit = 0 }

abbrev with_entry : MemoryStore
with_entry = record with_topic {
  posts = (some name, (20, (text_home key32, hash32) ∷ []) ∷ []) ∷ [];
}

has_posts : lookup (some name) with_entry.posts ≡ some ((20, (text_home key32, hash32) ∷ []) ∷ [])
unfolding option_beq list_beq
has_posts = refl

get_post_hashes-range_example :
    ((get_post_hashes reversed with_entry ≡ panic) ↔ (is_reversed reversed ≡ true))
    × ((is_reversed reversed ≡ false)
        ↔ ((hs : List (List ℕ)) × (get_post_hashes reversed with_entry ≡ ok hs)))
get_post_hashes-range_example =
    get_post_hashes-range reversed with_entry ((20, (text_home key32, hash32) ∷ []) ∷ []) has_posts

abbrev day : ChannelOptions
day = record { channel = name; time_start = 10; time_end = 90; limit = 0 }

abbrev day_tree : Tree (List Entry)
day_tree = (20, []) ∷ (90, []) ∷ []
