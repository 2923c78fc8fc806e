-- ===== src/Core/Store/Authors.antt =====
-- Only the author of a post can delete it.
use cable_rs.Base.{
  ℕ, ◌≡◌, ◌≢◌, ◌∙◌, refl, sym, ap, true, false, Bool, List, [], ◌∷◌, Option, none, some, Bool-cases,
  Option-cases, inl, inr, if◌then◌else◌,
}
use cable_rs.Base.Equality.{◌==◌, bytes_eq}
use cable_rs.Cable.Crypto.{Crypto}
use cable_rs.Cable.Desert.{Desert}
use cable_rs.Cable.Error.{Outcome, ok, err, panic, stuck}
use cable_rs.Cable.Post.{
  Post, PostBody, text, delete, info, topic, join, leave, unrecognized, get_public_key,
  get_timestamp, get_channel,
}
use cable_rs.Cable.Post.Decode.{from_bytes}
use cable_rs.Cable.Post.Encode.{to_bytes}
use cable_rs.Cable.Post.Sign.{hash}
use cable_rs.Cable.Types.{Hash, UserInfo}
use cable_rs.Core.Map.{lookup}
use cable_rs.Core.Map.Lookup.{==_false, lookup-insert_other}
use cable_rs.Core.Store.{
  MemoryStore, insert_delete_hash, insert_peer_name, insert_channel_topic, insert_info_hash,
  update_channel_membership_hashes, insert_channel_member, remove_channel_member,
  insert_ex_channel_member, remove_ex_channel_member,
}
use cable_rs.Core.Store.Posts.{
  get_post_payload, insert_post_payload, delete_post, update_posts, send_post_to_live_streams,
}
use cable_rs.Cable.Validation.{name_key}
use mathlib.Core.Path.{subst}
use cable_rs.Core.Store.Removed.{delete_post-others}
use cable_rs.Core.Store.Insert.{
  delete_one, delete_all, insert_names, insert_body, insert_post, store_payload,
}
use cable_rs.Core.Step.{continue-keeps, modify}
use cable_rs.Core.Store.Inserted.{insert_post_lem, finish, know_channel-payloads}

module _ (v : Desert) (c : Crypto) (p : Post) where
  -- A payload that decodes to a post of an author, in the store under a hash.
  abbrev pub Stored : (Post → Type 0) → Hash → List ℕ → MemoryStore → Type 0
  Stored P g bs s =
      (get_post_payload g s ≡ some bs)
      × ((n : ℕ) × (q : Post) × (from_bytes v bs ≡ ok (n, q)) × P q)

  pub delete_one-other :
      (h g t : Hash) (s : MemoryStore)
      → g ≢ t
      → get_post_payload g (delete_one v c p h t s).1 ≡ get_post_payload g s
  unfolding delete_one insert_delete_hash
  delete_one-other h g t s n = elim (Option-cases (get_post_payload t s)) [
    | inl e ↦ rw (e, delete_one) refl
    | inr (bs, e) ↦ decoded bs e (from_bytes v bs) refl
  ]
    where
      decoded :
          (bs : List ℕ)
          → get_post_payload t s ≡ some bs
          → (x : Outcome (ℕ × Post)) → from_bytes v bs ≡ x
          → get_post_payload g (delete_one v c p h t s).1 ≡ get_post_payload g s
      decoded bs e (ok (m, q)) d = elim (Bool-cases (get_public_key p == get_public_key q)) [
        | inl k ↦ rw (e, d, k, delete_one) (delete_post-others t s g [] [] n).0
        | inr k ↦ rw (e, d, k, delete_one) refl
      ]
      decoded bs e (err _) d = rw (e, d, delete_one) refl
      decoded bs e panic d = rw (e, d, delete_one) refl
      decoded bs e stuck d = rw (e, d, delete_one) refl

  -- The target itself, by its author.
  pub delete_one-same :
      (h t : Hash) (bs : List ℕ) (s : MemoryStore) (n : ℕ) (q : Post) (b : Bool)
      → get_post_payload t s ≡ some bs
      → from_bytes v bs ≡ ok (n, q)
      → (get_public_key p == get_public_key q) ≡ b
      → delete_one v c p h t s
        ≡ (ok tt, if b then insert_delete_hash (get_public_key p) h (delete_post t s) else s)
  unfolding delete_one
  delete_one-same h t bs s n q true e d k = rw (e, d, k, delete_one) refl
  delete_one-same h t bs s n q false e d k = rw (e, d, k, delete_one) refl

  -- By another author, it stays.
  delete_one-keeps :
      (h g t : Hash) (bs : List ℕ) (s : MemoryStore)
      → Stored (λ q. get_public_key p ≢ get_public_key q) g bs s
      → get_post_payload g (delete_one v c p h t s).1 ≡ some bs
  delete_one-keeps h g t bs s (e, (n, q, d, other)) = elim (Bool-cases (g == t)) [
    | inl k ↦
        let same : t ≡ g = sym ((bytes_eq.beq_iff g t).0 k) in
        subst (λ x. get_post_payload g (delete_one v c p h x s).1 ≡ some bs) (sym same)
          (ap (λ x. get_post_payload g x.1)
              (delete_one-same h g bs s n q false e d
                (==_false (get_public_key p) (get_public_key q) other))
            ∙ e)
    | inr k ↦ delete_one-other h g t s (λ x. absurd (cc ((bytes_eq.beq_iff g t).1 x, k))) ∙ e
  ]

  delete_all-keeps :
      (h g : Hash) (ts : List Hash) (bs : List ℕ) (s : MemoryStore)
      → Stored (λ q. get_public_key p ≢ get_public_key q) g bs s
      → get_post_payload g (delete_all v c p h ts s).1 ≡ some bs
  unfolding delete_all
  delete_all-keeps h g [] bs s st = st.0
  delete_all-keeps h g (t ∷ ts) bs s st =
      continue-keeps (λ t. get_post_payload g t ≡ some bs) (λ _. delete_all v c p h ts)
        (delete_one v c p h t s) (delete_one-keeps h g t bs s st)
        (λ _ s' k. delete_all-keeps h g ts bs s' (k, st.1))

  insert_names-payloads :
      (h : Hash) (us : List UserInfo) (s : MemoryStore)
      → (insert_names v c p h us s).post_payloads ≡ s.post_payloads
  unfolding insert_names insert_peer_name
  insert_names-payloads h [] s = refl
  insert_names-payloads h (u ∷ us) s = elim (Bool-cases (u.key == name_key)) [
    | inl k ↦
        rw (k, insert_names)
          (insert_names-payloads h us
            (insert_peer_name (get_public_key p) u.val (get_timestamp p) h s))
    | inr k ↦ rw (k, insert_names) (insert_names-payloads h us s)
  ]

  pub store_payload-keeps :
      (h g : Hash) (o : Option (List ℕ)) (s : MemoryStore)
      → g ≢ h
      → get_post_payload g s ≡ o
      → get_post_payload g (store_payload v c p h s).1 ≡ o
  unfolding store_payload insert_post_payload
  store_payload-keeps h g o s n e =
      continue-keeps (λ t. get_post_payload g t ≡ o) (λ bytes. modify (insert_post_payload h bytes))
        (to_bytes v p, s) e (λ b t k. lookup-insert_other h g b t.post_payloads n ∙ k)

  -- What stands under a hash stays through a body, if it does through the deletions.
  pub insert_body-keeps :
      (h g : Hash) (b : PostBody) (o : Option (List ℕ)) (s : MemoryStore)
      → g ≢ h
      → get_post_payload g s ≡ o
      → ((hs : List Hash) (t : MemoryStore)
          → get_post_payload g t ≡ o
          → get_post_payload g (delete_all v c p h hs t).1 ≡ o)
      → get_post_payload g (insert_body v c p h b s).1 ≡ o
  unfolding insert_body update_posts insert_channel_topic insert_info_hash
      update_channel_membership_hashes insert_channel_member remove_channel_member
      insert_ex_channel_member remove_ex_channel_member send_post_to_live_streams
  insert_body-keeps h g (text ch _) o s n st del =
      let s1 = update_posts p (some ch) (get_timestamp p) h s in
      continue-keeps (λ t. get_post_payload g t ≡ o) (λ _. modify (send_post_to_live_streams p ch))
        (store_payload v c p h s1) (store_payload-keeps h g o s1 n st) (λ _ t k. k)
  insert_body-keeps h g (topic ch t) o s n st del =
      let s1 = update_posts p (some ch) (get_timestamp p) h s in
      let s2 = insert_channel_topic ch t (get_timestamp p) h s1 in
      continue-keeps (λ t. get_post_payload g t ≡ o) (λ _. modify (send_post_to_live_streams p ch))
        (store_payload v c p h s2) (store_payload-keeps h g o s2 n st) (λ _ t k. k)
  insert_body-keeps h g (delete hs) o s n st del =
      continue-keeps (λ t. get_post_payload g t ≡ o) (λ _. store_payload v c p h)
        (delete_all v c p h hs s) (del hs s st) (λ _ t k. store_payload-keeps h g o t n k)
  insert_body-keeps h g (info i) o s n st del =
      let s1 = update_posts p none (get_timestamp p) h s in
      let s2 = insert_names v c p h i s1 in
      store_payload-keeps h g o (insert_info_hash (get_public_key p) h s2) n
        (ap (lookup g) (insert_names-payloads h i s1) ∙ st)
  insert_body-keeps h g (join ch) o s n st del =
      let pk = get_public_key p in
      let s1 = update_channel_membership_hashes ch pk h s in
      let s2 = insert_channel_member ch pk s1 in
      store_payload-keeps h g o (remove_ex_channel_member ch pk s2) n st
  insert_body-keeps h g (leave ch) o s n st del =
      let pk = get_public_key p in
      let s1 = update_channel_membership_hashes ch pk h s in
      let s2 = remove_channel_member ch pk s1 in
      store_payload-keeps h g o (insert_ex_channel_member ch pk s2) n st
  insert_body-keeps h g (unrecognized _) o s n st del = st

  pub insert_post-keeps :
      (h g : Hash) (o : Option (List ℕ)) (s : MemoryStore)
      → hash v c p ≡ ok h
      → g ≢ h
      → get_post_payload g s ≡ o
      → ((hs : List Hash) (t : MemoryStore)
          → get_post_payload g t ≡ o
          → get_post_payload g (delete_all v c p h hs t).1 ≡ o)
      → get_post_payload g (insert_post v c p s).1 ≡ o
  insert_post-keeps h g o s e n st del = rw (insert_post_lem v c p h s e) (
      continue-keeps (λ t. get_post_payload g t ≡ o) (λ _. finish v c p h)
        (insert_body v c p h p.body s) (insert_body-keeps h g p.body o s n st del)
        (λ _ t k. ap (lookup g) (know_channel-payloads (get_channel p) t) ∙ k))

  -- Whatever post is inserted that has a hash, a stored payload that decodes to a post by another
  -- author stays, unless it is stored under the hash of the new post.
  pub insert_post-keeps_others :
      (h g : Hash) (bs : List ℕ) (s : MemoryStore) (n : ℕ) (q : Post)
      → hash v c p ≡ ok h
      → g ≢ h
      → get_post_payload g s ≡ some bs
      → from_bytes v bs ≡ ok (n, q)
      → get_public_key p ≢ get_public_key q
      → get_post_payload g (insert_post v c p s).1 ≡ some bs
  insert_post-keeps_others h g bs s n q e other stored d author =
      insert_post-keeps h g (some bs) s e other stored
        (λ hs t k. delete_all-keeps h g hs bs t (k, (n, q, d, author)))
