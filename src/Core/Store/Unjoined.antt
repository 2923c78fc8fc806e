-- ===== src/Core/Store/Unjoined.antt =====
-- Posts that leave the members of all channels as they are: those that are no join and no leave.
use cable_rs.Base.{
  ℕ, ◌≡◌, inl, inr, refl, List, [], ◌∷◌, Option, none, some, Bool-cases, Option-cases,
}
use cable_rs.Base.Equality.{◌==◌, bytes_eq}
use cable_rs.Cable.Crypto.{Crypto}
use cable_rs.Cable.Desert.{Desert}
use cable_rs.Cable.Error.{Outcome, ok, err, panic, stuck}
use cable_rs.Cable.Post.{
  Post, PostBody, text, delete, info, topic, join, leave, unrecognized, get_channel, get_public_key,
  get_timestamp,
}
use cable_rs.Cable.Post.Decode.{from_bytes}
use cable_rs.Cable.Post.Encode.{to_bytes}
use cable_rs.Cable.Post.Sign.{hash}
use cable_rs.Cable.Types.{Channel, Hash, UserInfo}
use cable_rs.Cable.Validation.{name_key}
use cable_rs.Core.Step.{continue-keeps, modify}
use cable_rs.Core.Store.{
  MemoryStore, insert_delete_hash, insert_peer_name, insert_channel_topic, insert_info_hash,
  remove_channel_topic, remove_channel_membership_hash, remove_peer_name, remove_info_hash,
}
use cable_rs.Core.Store.Insert.{
  delete_one, delete_all, insert_names, insert_body, insert_post, know_channel, store_payload,
}
use cable_rs.Core.Store.Inserted.{insert_post_lem, finish}
use cable_rs.Core.Store.Posts.{
  delete_post, get_post_payload, insert_post_payload, remove_post, remove_post_payload,
  send_post_to_live_streams, update_posts,
}

-- A body that is no join or leave.
abbrev pub IsOther : PostBody → Type 0
IsOther (join _) = ⊥
IsOther (leave _) = ⊥
IsOther _ = Unit

module _ (v : Desert) (c : Crypto) where
  -- The members of a store, as the map that they are kept in.
  abbrev pub Same : MemoryStore → MemoryStore → Type 0
  Same s t = t.channel_members ≡ s.channel_members

  store_payload-Same :
      (p : Post) (h : Hash) (s t : MemoryStore) → Same s t → Same s (store_payload v c p h t).1
  unfolding store_payload insert_post_payload
  store_payload-Same p h s t k =
      continue-keeps (Same s) (λ bytes. modify (insert_post_payload h bytes)) (to_bytes v p, t) k
        (λ _ _ q. q)

  delete_one-Same :
      (p : Post) (h g : Hash) (s t : MemoryStore) → Same s t → Same s (delete_one v c p h g t).1
  unfolding delete_one insert_delete_hash delete_post remove_channel_topic
      remove_channel_membership_hash remove_peer_name remove_info_hash remove_post
      remove_post_payload
  delete_one-Same p h g s t k = elim (Option-cases (get_post_payload g t)) [
    | inl n ↦ rw (n, delete_one) k
    | inr (bs, e) ↦ decoded bs e (from_bytes v bs) refl
  ]
    where
      decoded :
          (bs : List ℕ)
          → get_post_payload g t ≡ some bs
          → (x : Outcome (ℕ × Post)) → from_bytes v bs ≡ x
          → Same s (delete_one v c p h g t).1
      decoded bs e (ok (m, q)) d = elim (Bool-cases (get_public_key p == get_public_key q)) [
        | inl y ↦ rw (e, d, y, delete_one) k
        | inr n ↦ rw (e, d, n, delete_one) k
      ]
      decoded bs e (err _) d = rw (e, d, delete_one) k
      decoded bs e panic d = rw (e, d, delete_one) k
      decoded bs e stuck d = rw (e, d, delete_one) k

  delete_all-Same :
      (p : Post) (h : Hash) (gs : List Hash) (s t : MemoryStore)
      → Same s t
      → Same s (delete_all v c p h gs t).1
  unfolding delete_all
  delete_all-Same p h [] s t k = k
  delete_all-Same p h (g ∷ gs) s t k =
      continue-keeps (Same s) (λ _. delete_all v c p h gs) (delete_one v c p h g t)
        (delete_one-Same p h g s t k) (λ _ u q. delete_all-Same p h gs s u q)

  insert_names-Same :
      (p : Post) (h : Hash) (us : List UserInfo) (s : MemoryStore)
      → (insert_names v c p h us s).channel_members ≡ s.channel_members
  unfolding insert_names insert_peer_name
  insert_names-Same p h [] s = refl
  insert_names-Same p h (u ∷ us) s = elim (Bool-cases (u.key == name_key)) [
    | inl k ↦
        rw (k, insert_names)
          (insert_names-Same p h us
            (insert_peer_name (get_public_key p) u.val (get_timestamp p) h s))
    | inr k ↦ rw (k, insert_names) (insert_names-Same p h us s)
  ]

  insert_body-Same :
      (p : Post) (h : Hash) (b : PostBody) (s : MemoryStore)
      → IsOther b
      → Same s (insert_body v c p h b s).1
  unfolding insert_body update_posts insert_channel_topic insert_info_hash send_post_to_live_streams
  insert_body-Same p h (text ch _) s o =
      continue-keeps (Same s) (λ _. modify (send_post_to_live_streams p ch))
        (store_payload v c p h (update_posts p (some ch) (get_timestamp p) h s))
        (store_payload-Same p h s (update_posts p (some ch) (get_timestamp p) h s) refl)
        (λ _ _ q. q)
  insert_body-Same p h (topic ch t) s o =
      let s1 = update_posts p (some ch) (get_timestamp p) h s in
      let s2 = insert_channel_topic ch t (get_timestamp p) h s1 in
      continue-keeps (Same s) (λ _. modify (send_post_to_live_streams p ch))
        (store_payload v c p h s2) (store_payload-Same p h s s2 refl) (λ _ _ q. q)
  insert_body-Same p h (delete gs) s o =
      continue-keeps (Same s) (λ _. store_payload v c p h) (delete_all v c p h gs s)
        (delete_all-Same p h gs s s refl) (λ _ t q. store_payload-Same p h s t q)
  insert_body-Same p h (info i) s o =
      let s1 = update_posts p none (get_timestamp p) h s in
      let s2 = insert_names v c p h i s1 in
      store_payload-Same p h s (insert_info_hash (get_public_key p) h s2)
        (insert_names-Same p h i s1)
  insert_body-Same p h (join _) s o = absurd o
  insert_body-Same p h (leave _) s o = absurd o
  insert_body-Same p h (unrecognized _) s o = refl

  pub know_channel-Same :
      (o : Option Channel) (s t : MemoryStore) → Same s t → Same s (know_channel o t)
  know_channel-Same none s t k = k
  know_channel-Same (some _) s t k = k

  pub insert_post-Same :
      (p : Post) (h : Hash) (s : MemoryStore)
      → hash v c p ≡ ok h
      → IsOther p.body
      → Same s (insert_post v c p s).1
  insert_post-Same p h s e o = rw (insert_post_lem v c p h s e) (
      continue-keeps (Same s) (λ _. finish v c p h) (insert_body v c p h p.body s)
        (insert_body-Same p h p.body s o) (λ _ t q. know_channel-Same (get_channel p) s t q))
