-- ===== src/Core/Store/Ordered.antt =====
-- The order of the store's trees, kept by every post that is inserted.
use cable_rs.Base.{
  ℕ, ◌≡◌, refl, List, [], ◌∷◌, Option, none, some, Bool-cases, Option-cases, inl, inr,
}
use cable_rs.Base.Equality.{◌==◌, bytes_eq, option_eq, nat_eq}
use cable_rs.Cable.Crypto.{Crypto}
use cable_rs.Cable.Desert.{Desert}
use cable_rs.Cable.Error.{Outcome, ok, err, panic, stuck}
use cable_rs.Cable.Post.{
  Post, PostBody, text, delete, info, topic, join, leave, unrecognized, get_public_key,
  get_timestamp, get_channel,
}
use cable_rs.Cable.Post.Decode.{from_bytes}
use cable_rs.Cable.Post.Encode.{to_bytes}
use cable_rs.Cable.Post.Sign.{hash}
use cable_rs.Cable.Types.{Channel, Hash, UserInfo}
use cable_rs.Cable.Validation.{name_key}
use cable_rs.Core.Map.{Tree, lookup, tree_insert}
use cable_rs.Core.Map.Lookup.{Values, Values-upsert, Values-map_values}
use cable_rs.Core.Map.Sorted.{Sorted, Sorted-tree_insert, Sorted-retain, Sorted-map_values}
use cable_rs.Core.Store.{
  MemoryStore, push, insert_channel_topic, insert_peer_name, insert_info_hash, insert_delete_hash,
  update_channel_membership_hashes, insert_channel_member, remove_channel_member,
  insert_ex_channel_member, remove_ex_channel_member, remove_channel_topic,
  remove_channel_membership_hash, remove_peer_name, remove_info_hash,
}
use cable_rs.Core.Step.{Step, continue, modify}
use cable_rs.Core.Store.Insert.{
  know_channel, store_payload, delete_one, delete_all, insert_names, insert_body, insert_post,
}
use cable_rs.Core.Store.Posts.{
  Entry, get_post_payload, add_entry, update_posts, insert_post_payload, delete_post, remove_post,
  remove_post_payload, send_post_to_live_streams,
}

-- The trees of topics, of names and of posts are in the order of their timestamps.
pub record IsOrdered (s : MemoryStore) : Type 0 where
  pub topics : Values Sorted s.channel_topics
  pub names : Values Sorted s.peer_names
  pub posts : Values Sorted s.posts

Sorted-add_entry :
    (ts : ℕ) (e : Entry) (t : Tree (List Entry)) → Sorted t → Sorted (add_entry ts e t)
Sorted-add_entry ts e t h = elim (Option-cases (lookup ts t)) [
  | inl n ↦ rw (n, add_entry) (Sorted-tree_insert ts (e ∷ []) t h)
  | inr (es, n) ↦ rw (n, add_entry) (Sorted-tree_insert ts (push e es) t h)
]

update_posts-IsOrdered :
    (p : Post) (c : Option Channel) (ts : ℕ) (h : Hash) (s : MemoryStore)
    → IsOrdered s
    → IsOrdered (update_posts p c ts h s)
unfolding update_posts
update_posts-IsOrdered p c ts h s o = record {
  topics = o.topics;
  names = o.names;
  posts =
      Values-upsert Sorted c (add_entry ts (p, h)) ((ts, (p, h) ∷ []) ∷ []) s.posts o.posts (tt, tt)
        (Sorted-add_entry ts (p, h));
}

insert_channel_topic-IsOrdered :
    (c : Channel) (t : List ℕ) (ts : ℕ) (h : Hash) (s : MemoryStore)
    → IsOrdered s
    → IsOrdered (insert_channel_topic c t ts h s)
unfolding insert_channel_topic
insert_channel_topic-IsOrdered c t ts h s o = record {
  topics =
      Values-upsert Sorted c (tree_insert ts (t, h)) ((ts, (t, h)) ∷ []) s.channel_topics o.topics
        (tt, tt) (Sorted-tree_insert ts (t, h));
  names = o.names;
  posts = o.posts;
}

insert_peer_name-IsOrdered :
    (pk n : List ℕ) (ts : ℕ) (h : Hash) (s : MemoryStore)
    → IsOrdered s
    → IsOrdered (insert_peer_name pk n ts h s)
unfolding insert_peer_name
insert_peer_name-IsOrdered pk n ts h s o = record {
  topics = o.topics;
  names =
      Values-upsert Sorted pk (tree_insert ts (n, h)) ((ts, (n, h)) ∷ []) s.peer_names o.names
        (tt, tt) (Sorted-tree_insert ts (n, h));
  posts = o.posts;
}

delete_post-IsOrdered : (h : Hash) (s : MemoryStore) → IsOrdered s → IsOrdered (delete_post h s)
unfolding delete_post remove_channel_topic remove_channel_membership_hash remove_peer_name
    remove_info_hash remove_post remove_post_payload
delete_post-IsOrdered h s o = record {
  topics = Values-map_values Sorted Sorted _ s.channel_topics o.topics (Sorted-retain _);
  names = Values-map_values Sorted Sorted _ s.peer_names o.names (Sorted-retain _);
  posts = Values-map_values Sorted Sorted _ s.posts o.posts (Sorted-map_values _);
}

know_channel-IsOrdered :
    (o : Option Channel) (s : MemoryStore) → IsOrdered s → IsOrdered (know_channel o s)
know_channel-IsOrdered none s o = o
know_channel-IsOrdered (some c) s o = record { topics = o.topics; names = o.names; posts = o.posts }

continue-IsOrdered :
    {A B : Type 0} (f : A → Step MemoryStore B) (x : Outcome A × MemoryStore)
    → IsOrdered x.1
    → ((a : A) (s : MemoryStore) → IsOrdered s → IsOrdered (f a s).1)
    → IsOrdered (continue f x).1
continue-IsOrdered f (ok a, s) o k = k a s o
continue-IsOrdered f (err _, s) o k = o
continue-IsOrdered f (panic, s) o k = o
continue-IsOrdered f (stuck, s) o k = o

module _ (v : Desert) (c : Crypto) (p : Post) where
  store_payload-IsOrdered :
      (h : Hash) (s : MemoryStore) → IsOrdered s → IsOrdered (store_payload v c p h s).1
  unfolding store_payload insert_post_payload
  store_payload-IsOrdered h s o =
      continue-IsOrdered (λ bytes. modify (insert_post_payload h bytes)) (to_bytes v p, s) o
        (λ bytes s' k. record { topics = k.topics; names = k.names; posts = k.posts })

  delete_one-IsOrdered :
      (h t : Hash) (s : MemoryStore) → IsOrdered s → IsOrdered (delete_one v c p h t s).1
  unfolding delete_one insert_delete_hash
  delete_one-IsOrdered h t s o = elim (Option-cases (get_post_payload t s)) [
    | inl n ↦ rw (n, delete_one) o
    | inr (bs, n) ↦ decoded bs n (from_bytes v bs) refl
  ]
    where
      decoded :
          (bs : List ℕ)
          → get_post_payload t s ≡ some bs
          → (x : Outcome (ℕ × Post)) → from_bytes v bs ≡ x
          → IsOrdered (delete_one v c p h t s).1
      decoded bs e (ok (m, q)) d = elim (Bool-cases (get_public_key p == get_public_key q)) [
        | inl k ↦
            let r = delete_post-IsOrdered t s o in
            rw (e, d, k, delete_one)
              (record { topics = r.topics; names = r.names; posts = r.posts })
        | inr k ↦ rw (e, d, k, delete_one) o
      ]
      decoded bs e (err _) d = rw (e, d, delete_one) o
      decoded bs e panic d = rw (e, d, delete_one) o
      decoded bs e stuck d = rw (e, d, delete_one) o

  delete_all-IsOrdered :
      (h : Hash) (ts : List Hash) (s : MemoryStore)
      → IsOrdered s
      → IsOrdered (delete_all v c p h ts s).1
  unfolding delete_all
  delete_all-IsOrdered h [] s o = o
  delete_all-IsOrdered h (t ∷ ts) s o =
      continue-IsOrdered (λ _. delete_all v c p h ts) (delete_one v c p h t s)
        (delete_one-IsOrdered h t s o) (λ _ s' k. delete_all-IsOrdered h ts s' k)

  insert_names-IsOrdered :
      (h : Hash) (us : List UserInfo) (s : MemoryStore)
      → IsOrdered s
      → IsOrdered (insert_names v c p h us s)
  unfolding insert_names
  insert_names-IsOrdered h [] s o = o
  insert_names-IsOrdered h (u ∷ us) s o = elim (Bool-cases (u.key == name_key)) [
    | inl k ↦
        rw (k, insert_names)
          (insert_names-IsOrdered h us
            (insert_peer_name (get_public_key p) u.val (get_timestamp p) h s)
            (insert_peer_name-IsOrdered (get_public_key p) u.val (get_timestamp p) h s o))
    | inr k ↦ rw (k, insert_names) (insert_names-IsOrdered h us s o)
  ]

  insert_body-IsOrdered :
      (h : Hash) (b : PostBody) (s : MemoryStore)
      → IsOrdered s
      → IsOrdered (insert_body v c p h b s).1
  unfolding insert_body insert_info_hash update_channel_membership_hashes insert_channel_member
      remove_channel_member insert_ex_channel_member remove_ex_channel_member
      send_post_to_live_streams
  insert_body-IsOrdered h (text ch _) s o =
      let s1 = update_posts p (some ch) (get_timestamp p) h s in
      continue-IsOrdered (λ _. modify (send_post_to_live_streams p ch)) (store_payload v c p h s1)
        (store_payload-IsOrdered h s1 (update_posts-IsOrdered p (some ch) (get_timestamp p) h s o))
        (λ _ s' k. record { topics = k.topics; names = k.names; posts = k.posts })
  insert_body-IsOrdered h (topic ch t) s o =
      let s1 = update_posts p (some ch) (get_timestamp p) h s in
      let s2 = insert_channel_topic ch t (get_timestamp p) h s1 in
      let o1 = update_posts-IsOrdered p (some ch) (get_timestamp p) h s o in
      continue-IsOrdered (λ _. modify (send_post_to_live_streams p ch)) (store_payload v c p h s2)
        (store_payload-IsOrdered h s2
          (insert_channel_topic-IsOrdered ch t (get_timestamp p) h s1 o1))
        (λ _ s' k. record { topics = k.topics; names = k.names; posts = k.posts })
  insert_body-IsOrdered h (delete hs) s o =
      continue-IsOrdered (λ _. store_payload v c p h) (delete_all v c p h hs s)
        (delete_all-IsOrdered h hs s o) (λ _ s' k. store_payload-IsOrdered h s' k)
  insert_body-IsOrdered h (info i) s o =
      let s1 = update_posts p none (get_timestamp p) h s in
      let s2 = insert_names v c p h i s1 in
      let o2 =
        insert_names-IsOrdered h i s1 (update_posts-IsOrdered p none (get_timestamp p) h s o) in
      store_payload-IsOrdered h (insert_info_hash (get_public_key p) h s2)
        (record { topics = o2.topics; names = o2.names; posts = o2.posts })
  insert_body-IsOrdered h (join ch) s o =
      let pk = get_public_key p in
      let s2 = insert_channel_member ch pk (update_channel_membership_hashes ch pk h s) in
      store_payload-IsOrdered h (remove_ex_channel_member ch pk s2)
        (record { topics = o.topics; names = o.names; posts = o.posts })
  insert_body-IsOrdered h (leave ch) s o =
      let pk = get_public_key p in
      let s2 = remove_channel_member ch pk (update_channel_membership_hashes ch pk h s) in
      store_payload-IsOrdered h (insert_ex_channel_member ch pk s2)
        (record { topics = o.topics; names = o.names; posts = o.posts })
  insert_body-IsOrdered h (unrecognized _) s o = o

  -- The trees of a store stay in the order of their timestamps, whatever post is inserted and whether
  -- that succeeds or not.
  pub insert_post-IsOrdered : (s : MemoryStore) → IsOrdered s → IsOrdered (insert_post v c p s).1
  unfolding insert_post
  insert_post-IsOrdered s o =
      continue-IsOrdered _ (hash v c p, s) o
        (λ h s' k.
          continue-IsOrdered _ (insert_body v c p h p.body s') (insert_body-IsOrdered h p.body s' k)
            (λ _ t q. know_channel-IsOrdered (get_channel p) t q))
