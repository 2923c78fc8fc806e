-- ===== src/Core/Manager/Requests/Payloads.antt =====
-- The payloads that a post request is answered with.
use cable_rs.Base.{
  ◌≡◌, ◌∙◌, refl, sym, ap, true, List, [], ◌∷◌, some, All, Bool-cases, Option, Option-cases, none,
  inl, inr, if◌then◌else◌,
}
use cable_rs.Base.Equality.{◌==◌, ==_refl, bytes_eq, nat_eq}
use cable_rs.Cable.Types.{Hash, Payload}
use mathlib.Core.Path.{subst}
use cable_rs.Core.Store.{MemoryStore, contains}
use cable_rs.Core.Store.Posts.{get_post_payload, get_post_payloads}

-- A payload is found under one of the hashes.
abbrev pub Found : List Hash → MemoryStore → Payload → Type 0
Found hs s bs = (h : Hash) × (contains h hs ≡ true) × (get_post_payload h s ≡ some bs)

contains-later : (g h : Hash) (hs : List Hash) → contains g hs ≡ true → contains g (h ∷ hs) ≡ true
contains-later g h hs e = elim (Bool-cases (g == h)) [ inl t ↦ rw t refl | inr f ↦ rw f e ]

Found-later :
    (h : Hash) (hs : List Hash) (s : MemoryStore) (ps : List Payload)
    → All (Found hs s) ps
    → All (Found (h ∷ hs) s) ps
Found-later h hs s [] k = tt
Found-later h hs s (bs ∷ ps) k =
    let (g, e, stored) = k.0 in ((g, contains-later g h hs e, stored), Found-later h hs s ps k.1)

pub get_post_payloads-Found :
    (hs : List Hash) (s : MemoryStore) → All (Found hs s) (get_post_payloads hs s)
unfolding get_post_payloads
get_post_payloads-Found [] s = tt
get_post_payloads-Found (h ∷ hs) s =
    let rest = Found-later h hs s (get_post_payloads hs s) (get_post_payloads-Found hs s) in
    elim (Option-cases (get_post_payload h s)) [
      | inl n ↦ rw (n, get_post_payloads) rest
      | inr (bs, e) ↦ rw (e, get_post_payloads) ((h, rw (==_refl h) refl, e), rest)
    ]

get_post_payloads-contains :
    (hs : List Hash) (s : MemoryStore) (g : Hash) (bs : Payload)
    → contains g hs ≡ true
    → get_post_payload g s ≡ some bs
    → contains bs (get_post_payloads hs s) ≡ true
unfolding get_post_payloads
get_post_payloads-contains [] s g bs k e = absurd cc
get_post_payloads-contains (h ∷ hs) s g bs k e = elim (Bool-cases (g == h)) [
  | inl t ↦
      let here : get_post_payload h s ≡ some bs =
        ap (λ x. get_post_payload x s) (sym ((bytes_eq.beq_iff g h).0 t)) ∙ e in
      rw (here, get_post_payloads) (rw (==_refl bs) refl)
  | inr f ↦
      let later : contains g hs ≡ true =
        subst (λ b. (if b then true else contains g hs) ≡ true) f k in
      let rest = get_post_payloads-contains hs s g bs later e in
      elim (Option-cases (get_post_payload h s)) [
        | inl n ↦ rw (n, get_post_payloads) rest
        | inr (other, o) ↦
            rw (o, get_post_payloads) (contains-later bs other (get_post_payloads hs s) rest)
      ]
]

-- What is stored under a hash, if anything, is among the payloads.
abbrev pub IsGiven : List Payload → Option Payload → Type 0
IsGiven ps none = Unit
IsGiven ps (some bs) = contains bs ps ≡ true

pub get_post_payloads-IsGiven :
    (gs hs : List Hash) (s : MemoryStore)
    → ((g : Hash) → contains g gs ≡ true → contains g hs ≡ true)
    → All (λ g. IsGiven (get_post_payloads hs s) (get_post_payload g s)) gs
get_post_payloads-IsGiven [] hs s k = tt
get_post_payloads-IsGiven (g ∷ gs) hs s k =
    (given, get_post_payloads-IsGiven gs hs s (λ x e. k x (contains-later x g gs e)))
  where
    given : IsGiven (get_post_payloads hs s) (get_post_payload g s)
    given = elim (Option-cases (get_post_payload g s)) [
      | inl n ↦ rw n tt
      | inr (bs, e) ↦ rw e (get_post_payloads-contains hs s g bs (k g (rw (==_refl g) refl)) e)
    ]
