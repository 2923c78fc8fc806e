-- ===== src/Core/Store/Latest.antt =====
-- The topic of a channel is the one with the largest timestamp.
use cable_rs.Base.{ℕ, none, some}
use cable_rs.Base.Equality.{bytes_eq}
use cable_rs.Cable.Crypto.{Crypto}
use cable_rs.Cable.Desert.{Desert}
use cable_rs.Cable.Post.{Post}
use cable_rs.Cable.Types.{Channel}
use cable_rs.Core.Map.{lookup}
use cable_rs.Core.Map.Sorted.{Sorted, last_key}
use cable_rs.Core.Store.{MemoryStore}

-- The timestamp of the topic that a channel has; 0 where it has none.
abbrev pub topic_time : Channel → MemoryStore → ℕ
topic_time c s = elim (lookup c s.channel_topics) [ some tree ↦ last_key tree | none ↦ 0 ]
