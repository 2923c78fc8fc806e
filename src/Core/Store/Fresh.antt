-- ===== src/Core/Store/Fresh.antt =====
-- A post is stored under its own hash only.
use cable_rs.Base.{◌≡◌, ◌≢◌, ◌∙◌, sym, ap, List, [], ◌∷◌, none, Bool-cases, inl, inr}
use cable_rs.Base.Equality.{◌==◌, bytes_eq}
use cable_rs.Cable.Crypto.{Crypto}
use cable_rs.Cable.Desert.{Desert}
use cable_rs.Cable.Error.{ok}
use cable_rs.Cable.Post.{Post}
use cable_rs.Cable.Post.Sign.{hash}
use cable_rs.Cable.Types.{Hash}
use cable_rs.Core.Step.{continue-keeps}
use cable_rs.Core.Store.{MemoryStore}
use cable_rs.Core.Store.Authors.{delete_one-other, insert_post-keeps}
use cable_rs.Core.Store.Insert.{delete_one, delete_all, insert_post}
use cable_rs.Core.Store.Posts.{get_post_payload}

module _ (v : Desert) (c : Crypto) (p : Post) where
  delete_one-absent :
      (h g t : Hash) (s : MemoryStore)
      → get_post_payload g s ≡ none
      → get_post_payload g (delete_one v c p h t s).1 ≡ none
  unfolding delete_one
  delete_one-absent h g t s e = elim (Bool-cases (g == t)) [
    | inl k ↦
        let gone : get_post_payload t s ≡ none =
          ap (λ x. get_post_payload x s) (sym ((bytes_eq.beq_iff g t).0 k)) ∙ e in
        rw (gone, delete_one) e
    | inr k ↦ delete_one-other v c p h g t s (λ x. absurd (cc ((bytes_eq.beq_iff g t).1 x, k))) ∙ e
  ]

  delete_all-absent :
      (h g : Hash) (ts : List Hash) (s : MemoryStore)
      → get_post_payload g s ≡ none
      → get_post_payload g (delete_all v c p h ts s).1 ≡ none
  unfolding delete_all
  delete_all-absent h g [] s e = e
  delete_all-absent h g (t ∷ ts) s e =
      continue-keeps (λ x. get_post_payload g x ≡ none) (λ _. delete_all v c p h ts)
        (delete_one v c p h t s) (delete_one-absent h g t s e)
        (λ _ x k. delete_all-absent h g ts x k)

  -- The insertion of a post with a hash stores no payload under another one.
  pub insert_post-own_hash :
      (h g : Hash) (s : MemoryStore)
      → hash v c p ≡ ok h
      → g ≢ h
      → get_post_payload g s ≡ none
      → get_post_payload g (insert_post v c p s).1 ≡ none
  insert_post-own_hash h g s e n k =
      insert_post-keeps v c p h g none s e n k (λ hs t k'. delete_all-absent h g hs t k')
