-- ===== src/Core/Manager/Frame/Published.antt =====
-- What the publication of a post leaves alone.
use cable_rs.Base.{◌≡◌, refl, none, Bool, List, [], ◌∷◌, Bool-cases, Option-cases, inl, inr}
use cable_rs.Base.Equality.{◌==◌, bytes_eq}
use cable_rs.Cable.Constants
use cable_rs.Cable.Crypto.{Crypto}
use cable_rs.Cable.Desert.{Desert}
use cable_rs.Cable.Error.{Outcome}
use cable_rs.Cable.Message.{Message}
use cable_rs.Cable.Message.New.{hash_response}
use cable_rs.Cable.Post.{Post, get_channel}
use cable_rs.Cable.Post as Post
use cable_rs.Cable.Post.Sign.{is_signed}
use cable_rs.Cable.Types.{Hash, Channel, PublicKey}
use cable_rs.Core.Manager.{
  CableManager, LiveRequest, PeerId, PeerRequestMap, channel_state, channel_time_range, on_store,
}
use cable_rs.Core.Manager.Frame.{Framed, send-Framed, send_some-Framed}
use cable_rs.Core.Manager.Frame.Handled.{KeptByStore}
use cable_rs.Core.Manager.Hashes.{live_state_hashes, or_empty, range_hashes}
use cable_rs.Core.Manager.Publish.{
  answer_live, answer_peer, answer_peers, notify_peers, post, send_member_hashes, send_post_hashes,
  sign_if_required,
}
use cable_rs.Core.Store.Posts.{get_post_payload}
use cable_rs.Core.Step.{continue-keeps, lift}
use cable_rs.Core.Store.{MemoryStore, get_channels, is_channel_member}
use cable_rs.Core.Store.Insert.{insert_post}

module _ (v : Desert) (c : Crypto) (accepts : PeerId → List Message → Bool)
    (Q : MemoryStore → Type 0) (m0 : CableManager) where
  answer_live-Framed :
      (ch : Channel) (p : PeerId) (l : LiveRequest) (m : CableManager)
      → Framed Q m0 m
      → Framed Q m0 (answer_live v c accepts ch p l m).1
  unfolding answer_live
  answer_live-Framed ch p (channel_state r ch') m k = elim (Bool-cases (ch' == ch)) [
    | inl t ↦
        rw (t, answer_live)
          (send-Framed v c accepts Q m0 p
            (hash_response Constants.no_circuit r (live_state_hashes ch m.store)) m k)
    | inr f ↦ rw (f, answer_live) k
  ]
  answer_live-Framed ch p (channel_time_range r o) m k = elim (Bool-cases (o.channel == ch)) [
    | inl t ↦
        rw (t, answer_live)
          (continue-keeps (Framed Q m0) _ (range_hashes o m.store, m) k
            (λ hs s q.
              send_some-Framed v c accepts Q m0 p hs (hash_response Constants.no_circuit r hs) s q))
    | inr f ↦ rw (f, answer_live) k
  ]

  answer_peer-Framed :
      (ch : Channel) (p : PeerId) (ls : List LiveRequest) (m : CableManager)
      → Framed Q m0 m
      → Framed Q m0 (answer_peer v c accepts ch p ls m).1
  unfolding answer_peer
  answer_peer-Framed ch p [] m k = k
  answer_peer-Framed ch p (l ∷ ls) m k =
      continue-keeps (Framed Q m0) (λ _. answer_peer v c accepts ch p ls)
        (answer_live v c accepts ch p l m) (answer_live-Framed ch p l m k)
        (λ _ s q. answer_peer-Framed ch p ls s q)

  answer_peers-Framed :
      (ch : Channel) (ps : PeerRequestMap) (m : CableManager)
      → Framed Q m0 m
      → Framed Q m0 (answer_peers v c accepts ch ps m).1
  unfolding answer_peers
  answer_peers-Framed ch [] m k = k
  answer_peers-Framed ch ((p, ls) ∷ ps) m k =
      continue-keeps (Framed Q m0) (λ _. answer_peers v c accepts ch ps)
        (answer_peer v c accepts ch p ls m) (answer_peer-Framed ch p ls m k)
        (λ _ s q. answer_peers-Framed ch ps s q)

  send_post_hashes-Framed :
      (ch : Channel) (m : CableManager)
      → Framed Q m0 m
      → Framed Q m0 (send_post_hashes v c accepts ch m).1
  unfolding send_post_hashes
  send_post_hashes-Framed ch m k = answer_peers-Framed ch m.live_requests m k

  send_member_hashes-Framed :
      (pk : PublicKey) (chs : List Channel) (m : CableManager)
      → Framed Q m0 m
      → Framed Q m0 (send_member_hashes v c accepts pk chs m).1
  unfolding send_member_hashes
  send_member_hashes-Framed pk [] m k = k
  send_member_hashes-Framed pk (ch ∷ chs) m k =
      elim (Bool-cases (is_channel_member ch pk m.store)) [
        | inl t ↦
            rw (t, send_member_hashes)
              (continue-keeps (Framed Q m0) (λ _. send_member_hashes v c accepts pk chs)
                (send_post_hashes v c accepts ch m) (send_post_hashes-Framed ch m k)
                (λ _ s q. send_member_hashes-Framed pk chs s q))
        | inr f ↦ rw (f, send_member_hashes) (send_member_hashes-Framed pk chs m k)
      ]

  notify_peers-Framed :
      (p : Post) (m : CableManager) → Framed Q m0 m → Framed Q m0 (notify_peers v c accepts p m).1
  unfolding notify_peers
  notify_peers-Framed p m k = elim (Option-cases (get_channel p)) [
    | inl n ↦
        rw (n, notify_peers)
          (send_member_hashes-Framed (Post.get_public_key p) (or_empty (get_channels m.store)) m k)
    | inr (ch, e) ↦ rw (e, notify_peers) (send_post_hashes-Framed ch m k)
  ]

  sign_if_required-Framed :
      (p : Post) (m : CableManager)
      → Framed Q m0 m
      → Framed Q m0 (sign_if_required v c accepts p m).1
  unfolding sign_if_required
  sign_if_required-Framed p m k = elim (Bool-cases (is_signed p)) [
    | inl t ↦ rw (t, sign_if_required) k
    | inr f ↦ rw (f, sign_if_required) k
  ]

  pub post-Framed :
      KeptByStore v c Q
      → (p : Post) (m : CableManager) → Framed Q m0 m
      → Framed Q m0 (post v c accepts p m).1
  unfolding post
  post-Framed kept p m k =
      continue-keeps (Framed Q m0) _ (sign_if_required v c accepts p m)
        (sign_if_required-Framed p m k)
        (λ signed s q.
          continue-keeps (Framed Q m0) _ (on_store (insert_post v c signed) s)
            (kept.post signed s.store q.0, q.1, q.2, q.3, q.4)
            (λ h t q'.
              continue-keeps (Framed Q m0) (λ _. lift (Outcome.ok h))
                (notify_peers v c accepts signed t) (notify_peers-Framed signed t q') (λ _ u r. r)))

-- A post whose insertion leaves a hash without a payload, in a store that has none for it.
pub post-absent :
    (v : Desert) (c : Crypto) (accepts : PeerId → List Message → Bool) (p signed : Post) (g : Hash)
    (m : CableManager)
    → sign_if_required v c accepts p m ≡ (Outcome.ok signed, m)
    → get_post_payload g (insert_post v c signed m.store).1 ≡ none
    → get_post_payload g (post v c accepts p m).1.store ≡ none
unfolding post
post-absent v c accepts p signed g m e k =
    let Lacks : MemoryStore → Type 0 = λ s. get_post_payload g s ≡ none in
    rw e (
      continue-keeps (λ t. Lacks t.store) _ (on_store (insert_post v c signed) m) k
        (λ h t q.
          continue-keeps (λ u. Lacks u.store) (λ _. lift (Outcome.ok h))
            (notify_peers v c accepts signed t)
            (notify_peers-Framed v c accepts Lacks t signed t
              (q, refl, (refl, λ _ z. z), refl, λ b. b)).0
            (λ _ u r. r)))
