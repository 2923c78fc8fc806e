-- ===== src/Core/Store/Deletion.antt =====
-- A `post/delete` removes the posts of its author that it names.
use cable_rs.Base.{
  ℕ, ◌≡◌, ◌≢◌, ◌∙◌, refl, sym, ap, true, List, [], ◌∷◌, none, some, Bool-cases, inl, inr,
}
use cable_rs.Base.Equality.{◌==◌, bytes_eq}
use cable_rs.Cable.Crypto.{Crypto}
use cable_rs.Cable.Desert.{Desert}
use cable_rs.Cable.Error.{Outcome, ok, err, panic, stuck}
use cable_rs.Cable.Post.{Post, PostHeader, delete, get_public_key, get_channel}
use cable_rs.Cable.Post.Decode.{from_bytes}
use cable_rs.Cable.Post.Encode.{to_bytes}
use cable_rs.Cable.Post.Sign.{hash}
use cable_rs.Cable.Types.{Hash}
use cable_rs.Core.Map.Lookup.{lookup-insert_other}
use cable_rs.Core.Store.{MemoryStore, contains, insert_delete_hash}
use cable_rs.Core.Store.Posts.{get_post_payload, insert_post_payload}
use mathlib.Core.Path.{subst}
use cable_rs.Core.Store.Removed.{delete_post-no_trace}
use cable_rs.Core.Store.Insert.{delete_one, delete_all, insert_body, insert_post, store_payload}
use cable_rs.Core.Store.Inserted.{insert_post_lem, finish}
use cable_rs.Core.Step.{continue, continue-ok}
use cable_rs.Core.Store.Authors.{delete_one-other, delete_one-same}

module _ (v : Desert) (c : Crypto) (p : Post) where
  -- The target of an own post is removed, and no later target brings it back.
  delete_one-gone :
      (h g t : Hash) (s : MemoryStore)
      → get_post_payload g s ≡ none
      → get_post_payload g (delete_one v c p h t s).1 ≡ none
  unfolding delete_one
  delete_one-gone h g t s e = elim (Bool-cases (g == t)) [
    | inl k ↦
        let same : t ≡ g = sym ((bytes_eq.beq_iff g t).0 k) in
        rw (ap (λ x. get_post_payload x s) same ∙ e, delete_one) e
    | inr k ↦ delete_one-other v c p h g t s (λ x. absurd (cc ((bytes_eq.beq_iff g t).1 x, k))) ∙ e
  ]

  -- What follows a step, where both succeed.
  continue-then :
      (f : Unit → MemoryStore → Outcome Unit × MemoryStore) (x : Outcome Unit × MemoryStore)
      (P Q : MemoryStore → Type 0)
      → (continue f x).0 ≡ ok tt
      → P x.1
      → ((s : MemoryStore) → P s → (f tt s).0 ≡ ok tt → Q (f tt s).1)
      → Q (continue f x).1
  continue-then f (ok _, s) P Q r p k = k s p r
  continue-then f (err _, s) P Q r p k = absurd cc
  continue-then f (panic, s) P Q r p k = absurd cc
  continue-then f (stuck, s) P Q r p k = absurd cc

  delete_all-gone :
      (h g : Hash) (ts : List Hash) (s : MemoryStore)
      → get_post_payload g s ≡ none
      → (delete_all v c p h ts s).0 ≡ ok tt
      → get_post_payload g (delete_all v c p h ts s).1 ≡ none
  unfolding delete_all
  delete_all-gone h g [] s e r = e
  delete_all-gone h g (t ∷ ts) s e r =
      continue-then (λ _. delete_all v c p h ts) (delete_one v c p h t s)
        (λ x. get_post_payload g x ≡ none) (λ x. get_post_payload g x ≡ none) r
        (delete_one-gone h g t s e) (λ s' k r'. delete_all-gone h g ts s' k r')

  delete_one-removes :
      (h g : Hash) (bs : List ℕ) (s : MemoryStore) (n : ℕ) (q : Post)
      → get_post_payload g s ≡ some bs
      → from_bytes v bs ≡ ok (n, q)
      → get_public_key p ≡ get_public_key q
      → get_post_payload g (delete_one v c p h g s).1 ≡ none
  unfolding insert_delete_hash
  delete_one-removes h g bs s n q e d author =
      ap (λ x. get_post_payload g x.1)
        (delete_one-same v c p h g bs s n q true e d
          ((bytes_eq.beq_iff (get_public_key p) (get_public_key q)).1 author))
      ∙ (delete_post-no_trace g s (record { channel = []; time_start = 0; time_end = 0; limit = 0 })
          [] []).0

  delete_all-removes :
      (h g : Hash) (ts : List Hash) (bs : List ℕ) (s : MemoryStore) (n : ℕ) (q : Post)
      → contains g ts ≡ true
      → get_post_payload g s ≡ some bs
      → from_bytes v bs ≡ ok (n, q)
      → get_public_key p ≡ get_public_key q
      → (delete_all v c p h ts s).0 ≡ ok tt
      → get_post_payload g (delete_all v c p h ts s).1 ≡ none
  unfolding delete_all
  delete_all-removes h g [] bs s n q i e d author r = absurd cc
  delete_all-removes h g (t ∷ ts) bs s n q i e d author r = elim (Bool-cases (g == t)) [
    | inl k ↦
        let same : g ≡ t = (bytes_eq.beq_iff g t).0 k in
        continue-then (λ _. delete_all v c p h ts) (delete_one v c p h t s)
          (λ x. get_post_payload g x ≡ none) (λ x. get_post_payload g x ≡ none) r
          (subst (λ x. get_post_payload g (delete_one v c p h x s).1 ≡ none) same
            (delete_one-removes h g bs s n q e d author))
          (λ s' k r'. delete_all-gone h g ts s' k r')
    | inr k ↦
        let differ : g ≢ t = λ x. absurd (cc ((bytes_eq.beq_iff g t).1 x, k)) in
        let later : contains g ts ≡ true = rw (← i, k) refl in
        continue-then (λ _. delete_all v c p h ts) (delete_one v c p h t s)
          (λ x. get_post_payload g x ≡ some bs) (λ x. get_post_payload g x ≡ none) r
          (delete_one-other v c p h g t s differ ∙ e)
          (λ s' k r'. delete_all-removes h g ts bs s' n q later k d author r')
  ]

  store_payload-gone :
      (h g : Hash) (s : MemoryStore)
      → g ≢ h
      → get_post_payload g s ≡ none
      → (store_payload v c p h s).0 ≡ ok tt
      → get_post_payload g (store_payload v c p h s).1 ≡ none
  unfolding store_payload insert_post_payload
  store_payload-gone h g s n e r = go (to_bytes v p) refl
    where
      go :
          (x : Outcome (List ℕ))
          → to_bytes v p ≡ x
          → get_post_payload g (store_payload v c p h s).1 ≡ none
      go (ok b) w = rw w (lookup-insert_other h g b s.post_payloads n ∙ e)
      go (err _) w = rw w e
      go panic w = rw w e
      go stuck w = rw w e

module _ (v : Desert) (c : Crypto) where
  -- A post/delete whose insertion succeeds removes every stored payload whose hash it names and
  -- that decodes to a post by the same author, but for the one under its own hash.
  pub insert_post-deletes :
      (hd : PostHeader) (hs : List Hash) (h g : Hash) (bs : List ℕ) (s : MemoryStore) (n : ℕ)
      (q : Post)
      → hash v c (record { header = hd; body = delete hs }) ≡ ok h
      → g ≢ h
      → contains g hs ≡ true
      → get_post_payload g s ≡ some bs
      → from_bytes v bs ≡ ok (n, q)
      → hd.public_key ≡ get_public_key q
      → (insert_post v c (record { header = hd; body = delete hs }) s).0 ≡ ok h
      → get_post_payload g (insert_post v c (record { header = hd; body = delete hs }) s).1 ≡ none
  unfolding insert_body get_channel
  insert_post-deletes hd hs h g bs s n q e other i stored d author r =
      let p : Post = record { header = hd; body = delete hs } in
      let whole = insert_post_lem v c p h s e in
      let P : MemoryStore → Type 0 = λ x. get_post_payload g x ≡ none in
      let x = insert_body v c p h (delete hs) s in
      let done : (continue (λ _. finish v c p h) x).0 ≡ ok h = ap (λ y. y.0) (sym whole) ∙ r in
      let body_done : x.0 ≡ ok tt = (continue-ok _ x h done).1 in
      let all_done : (delete_all v c p h hs s).0 ≡ ok tt =
        (continue-ok (λ _. store_payload v c p h) (delete_all v c p h hs s) tt body_done).1 in
      let gone : P x.1 =
        continue-then v c p (λ _. store_payload v c p h) (delete_all v c p h hs s) P P body_done
          (delete_all-removes v c p h g hs bs s n q i stored d author all_done)
          (λ s' k r'. store_payload-gone v c p h g s' other k r') in
      rw whole (finish-gone x gone)
    where
      finish-gone :
          (x : Outcome Unit × MemoryStore)
          → get_post_payload g x.1 ≡ none
          → get_post_payload g
              (continue (λ _. finish v c (record { header = hd; body = delete hs }) h) x).1
            ≡ none
      finish-gone (ok _, s') k = k
      finish-gone (err _, s') k = k
      finish-gone (panic, s') k = k
      finish-gone (stuck, s') k = k
