-- ===== src/Core/Manager/Deleted.antt =====
-- A post that the manager's own deletion named does not come back from its peers. The deletions of
-- other peers are not noted among the deleted posts.
use cable_rs.Base.{◌≡◌, ◌∙◌, refl, ap, Bool, true, not, ◌&&◌, List, [], ◌∷◌, none}
use cable_rs.Cable.Crypto.{Crypto}
use cable_rs.Cable.Desert.{Desert}
use cable_rs.Cable.Message.{Message}
use cable_rs.Cable.Types.{Hash, Timestamp}
use cable_rs.Core.Manager.{CableManager, PeerId, get_public_key, set_extend}
use cable_rs.Core.Manager.Frame.Handled.{anything-KeptByStore, handle-Framed, handle_all}
use cable_rs.Core.Manager.Frame.Published.{post-Framed}
use cable_rs.Core.Manager.Publish.{post_delete}
use cable_rs.Core.Manager.Sets.{contains-set_extend}
use cable_rs.Cable.Post.New as New
use cable_rs.Cable.Error.{ok}
use cable_rs.Core.Manager.Handle.{handle}
use cable_rs.Core.Manager.Received.{handle-Absent}
use cable_rs.Core.Store.{contains}
use cable_rs.Core.Store.Posts.{get_post_payload}

module _ (v : Desert) (c : Crypto) (accepts : PeerId → List Message → Bool) where
  -- A hash among the deleted posts that has no payload gets none from any messages, of whatever
  -- peers, and stays among the deleted posts.
  handle_all-deleted :
      (g : Hash) (msgs : List (PeerId × Message)) (m : CableManager)
      → contains g m.deleted_posts ≡ true
      → get_post_payload g m.store ≡ none
      → (get_post_payload g (handle_all v c accepts msgs m).store ≡ none)
        × (contains g (handle_all v c accepts msgs m).deleted_posts ≡ true)
  unfolding handle_all
  handle_all-deleted g [] m d k = (k, d)
  handle_all-deleted g ((p, msg) ∷ msgs) m d k =
      let framed =
        handle-Framed v c accepts (λ _. Unit) (anything-KeptByStore v c accepts) m p msg m
          (tt, refl, (refl, λ _ e. e), refl, λ b. b) in
      handle_all-deleted g msgs (handle v c accepts p msg m).1 (ap (contains g) framed.1 ∙ d) (
        handle-Absent v c accepts g p msg m k
          (λ _. ap (λ b. not b && contains g m.requested_posts) d))

  -- When a manager's own deletion has a time, then after it, whether it succeeds or not, the named
  -- posts of which the store has no payload then get none from any messages, of whatever peers.
  pub post_delete-stays_deleted :
      (t : Timestamp) (hs : List Hash) (g : Hash) (msgs : List (PeerId × Message))
      (m : CableManager)
      → contains g hs ≡ true
      → let after = (post_delete v c accepts (ok t) hs m).1 in
        get_post_payload g after.store ≡ none
        → (get_post_payload g (handle_all v c accepts msgs after).store ≡ none)
          × (contains g (handle_all v c accepts msgs after).deleted_posts ≡ true)
  unfolding post_delete
  post_delete-stays_deleted t hs g msgs m k absent =
      let noted : CableManager = record m { deleted_posts = set_extend hs m.deleted_posts } in
      let framed =
        post-Framed v c accepts (λ _. Unit) noted (anything-KeptByStore v c accepts)
          (New.delete (get_public_key m) [] t hs) noted
          (tt, refl, (refl, λ _ e. e), refl, λ b. b) in
      let named = contains-set_extend g hs m.deleted_posts ∙ rw k refl in
      handle_all-deleted g msgs (post_delete v c accepts (ok t) hs m).1
        (ap (contains g) framed.1 ∙ named) absent
