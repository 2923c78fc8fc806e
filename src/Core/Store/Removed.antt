-- ===== src/Core/Store/Removed.antt =====
-- What `delete_post` removes, and what it leaves.
use cable_rs.Base.{
  ℕ, ◌≡◌, ◌≢◌, refl, not, List, [], ◌∷◌, none, some, All, Option, Option-cases, inl, inr, ◌&&◌, ltb,
  nat_beq, Bool-cases,
}
use cable_rs.Base.Equality.{◌==◌, bytes_eq, option_eq, nat_eq}
use cable_rs.Cable.Error.{ok}
use cable_rs.Cable.Reader.Sound.{Checks, Checks-bind}
use cable_rs.Cable.Types.{Channel, ChannelOptions, Hash, PublicKey}
use cable_rs.Core.Map.{Map, Tree, lookup, map_values, map, retain, last}
use cable_rs.Core.Map.Lookup.{Values, Values-lookup}
use cable_rs.Core.Map.Retain.{
  InSome, InSome-last, InSome-then, InSome-retained, InSome-lookup, InSome-map, All-retain,
  All-retain_keep, All-map, All-flat_map, other-than, lookup-retain, lookup-retain_other,
}
use cable_rs.Core.Store.{
  MemoryStore, get_channel_topic_and_hash, remove_channel_topic, remove_channel_membership_hash,
  remove_peer_name, remove_info_hash, get_channel_membership_hashes, get_info_hashes,
  get_peer_name_and_hash, last_value, is_channel_member,
}
use cable_rs.Core.Store.Posts.{
  Entry, range, channel_entries, get_post_hashes, get_latest_hashes, get_post_payload, remove_post,
  remove_post_payload, delete_post,
}
use mathlib.Core.List.{flat_map}

module _ (h : Hash) where
  abbrev EntriesOther : List Entry → Type 0
  EntriesOther es = All (λ (e : Entry). e.1 ≢ h) es

  abbrev TreeOther : Tree (List Entry) → Type 0
  TreeOther t = All (λ x. EntriesOther x.1) t

  remove_post-Other : (s : MemoryStore) → Values TreeOther (remove_post h s).posts
  unfolding remove_post
  remove_post-Other s = all-trees s.posts
    where
      all-trees :
          (m : Map (Option Channel) (Tree (List Entry)))
          → Values TreeOther (map_values (map_values (retain (λ (e : Entry). not (e.1 == h)))) m)
      all-trees [] = tt
      all-trees ((c, t) ∷ m) = (all-entries t, all-trees m)
        where
          all-entries :
              (t : Tree (List Entry))
              → TreeOther (map_values (retain (λ (e : Entry). not (e.1 == h))) t)
          all-entries [] = tt
          all-entries ((ts, es) ∷ t) =
              (All-retain _ _ es (λ e k. other-than e.1 h k), all-entries t)

  range-Other :
      (start end : ℕ) (t : Tree (List Entry)) → TreeOther t → Checks TreeOther (range start end t)
  range-Other start end t o = elim (Bool-cases (nat_beq start 0 && nat_beq end 0)) [
    | inl a ↦ rw a o
    | inr a ↦ elim (Bool-cases (nat_beq start 0)) [
      | inl b ↦ rw (a, b) (All-retain_keep _ _ t o)
      | inr b ↦ elim (Bool-cases (nat_beq end 0)) [
        | inl c ↦ rw (a, b, c) (All-retain_keep _ _ t o)
        | inr c ↦ elim (Bool-cases (ltb end start)) [
          | inl d ↦ rw (a, b, c, d) tt
          | inr d ↦ rw (a, b, c, d) (All-retain_keep _ _ t o)
        ]
      ]
    ]
  ]

  entries-Other :
      (o : ChannelOptions) (s : MemoryStore)
      → Values TreeOther s.posts
      → Checks EntriesOther (channel_entries o s)
  entries-Other o s k = elim (Option-cases (lookup (some o.channel) s.posts)) [
    | inl n ↦ rw (n, channel_entries) tt
    | inr (t, e) ↦
        rw (e, channel_entries)
          (Checks-bind _ _ (range o.time_start o.time_end t) (λ t. ok (flat_map (λ e. e.1) t))
            (range-Other o.time_start o.time_end t (Values-lookup TreeOther _ t s.posts k e))
            (λ t q. All-flat_map (λ (e : ℕ × List Entry). e.1) _ t q))
  ]

  latest-Other :
      (c : Channel) (s : MemoryStore)
      → Values TreeOther s.posts
      → InSome (All (λ g. g ≢ h)) (get_latest_hashes c s)
  unfolding get_latest_hashes
  latest-Other c s k =
      InSome-then TreeOther _ (lookup (some c) s.posts) _ (InSome-lookup TreeOther _ s.posts k)
        (λ t q.
          InSome-map (map (λ e. e.1)) _ (last_value t)
            (InSome-map _ _ (last t) (InSome-last _ t (All_weaken t q))))
    where
      All_weaken :
          (t : Tree (List Entry))
          → TreeOther t
          → All (λ x. All (λ g. g ≢ h) (map (λ (e : Entry). e.1) x.1)) t
      All_weaken [] q = tt
      All_weaken ((ts, es) ∷ t) q = (All-map (λ (e : Entry). e.1) _ es q.0, All_weaken t q.1)

  last-Other :
      (t : Tree (List ℕ × Hash)) → All (λ x. x.1.1 ≢ h) t → InSome (λ x. x.1 ≢ h) (last_value t)
  last-Other t q = InSome-map _ _ (last t) (InSome-last _ t q)

  -- After a deletion the payload of the hash is gone, and the hash is not among the post hashes
  -- of a time range, the latest hashes, the membership hashes and the info hashes, nor is it that
  -- of a channel's topic or of a peer's name.
  pub delete_post-no_trace :
      (s : MemoryStore) (o : ChannelOptions) (c : Channel) (pk : PublicKey)
      → let s' = delete_post h s in
        (get_post_payload h s' ≡ none)
        × Checks (All (λ g. g ≢ h)) (get_post_hashes o s')
        × InSome (All (λ g. g ≢ h)) (get_latest_hashes c s')
        × InSome (All (λ g. g ≢ h)) (get_channel_membership_hashes c s')
        × InSome (λ x. x.1 ≢ h) (get_channel_topic_and_hash c s')
        × InSome (λ x. x.1 ≢ h) (get_peer_name_and_hash pk s')
        × InSome (All (λ g. g ≢ h)) (get_info_hashes pk s')
  unfolding delete_post remove_channel_topic remove_channel_membership_hash remove_peer_name
      remove_info_hash remove_post remove_post_payload get_post_hashes get_channel_topic_and_hash
      get_peer_name_and_hash
  delete_post-no_trace s o c pk = (
    lookup-retain h s.post_payloads,
    Checks-bind EntriesOther _ (channel_entries o (delete_post h s)) _
        (entries-Other o (delete_post h s) (remove_post-Other s))
        (λ es q. All-map (λ e. e.1) _ es q),
    latest-Other c (delete_post h s) (remove_post-Other s),
    InSome-map (map (λ e. e.1)) _ (lookup c (delete_post h s).channel_membership) (
        InSome-membership _
          (InSome-retained _ (λ x. x.1 ≢ h) c s.channel_membership (λ x k. other-than x.1 h k))),
    InSome-then (All (λ x. x.1.1 ≢ h)) (λ x. x.1 ≢ h) _ last_value
        (InSome-retained _ (λ x. x.1.1 ≢ h) c s.channel_topics (λ x k. other-than x.1.1 h k))
        last-Other,
    InSome-then (All (λ x. x.1.1 ≢ h)) (λ x. x.1 ≢ h) _ last_value
        (InSome-retained _ (λ x. x.1.1 ≢ h) pk s.peer_names (λ x k. other-than x.1.1 h k))
        last-Other,
    InSome-retained _ (λ x. x ≢ h) pk s.info_hashes (λ x k. other-than x h k),
  )
    where
      InSome-membership :
          (o : Option (Map PublicKey Hash))
          → InSome (All (λ x. x.1 ≢ h)) o
          → InSome (λ m. All (λ g. g ≢ h) (map (λ (x : PublicKey × Hash). x.1) m)) o
      InSome-membership none q = tt
      InSome-membership (some m) q = All-map (λ x. x.1) _ m q

  -- A deletion keeps the payload of every other hash, the members of every channel, the known
  -- channels and the live streams.
  pub delete_post-others :
      (s : MemoryStore) (g : Hash) (c : Channel) (pk : PublicKey)
      → g ≢ h
      → let s' = delete_post h s in
        (get_post_payload g s' ≡ get_post_payload g s)
        × (is_channel_member c pk s' ≡ is_channel_member c pk s)
        × (s'.channels ≡ s.channels)
        × (s'.live_streams ≡ s.live_streams)
  unfolding delete_post remove_channel_topic remove_channel_membership_hash remove_peer_name
      remove_info_hash remove_post remove_post_payload is_channel_member
  delete_post-others s g c pk n = (lookup-retain_other h g s.post_payloads n, refl, refl, refl)
