-- ===== src/Core/Manager/Requests/Cancel.antt =====
-- A cancel request ends the request that it names.
use cable_rs.Base.{
  ℕ, suc, ◌≡◌, ◌≢◌, ◌⊎◌, ◌∙◌, refl, sym, Bool, false, not, List, [], ◌∷◌, none, Bool-cases,
  Option-cases, inl, inr,
}
use cable_rs.Base.Equality.{◌==◌, bytes_eq, nat_eq}
use cable_rs.Cable.Crypto.{Crypto}
use cable_rs.Cable.Desert.{Desert}
use cable_rs.Cable.Error.{ok, panic}
use cable_rs.Cable.Message.{Message, MessageBody, RequestBody, MessageHeader, decrement_ttl}
use cable_rs.Cable.Message as Message
use cable_rs.Cable.Types.{ReqId}
use cable_rs.Core.Manager.{
  CableManager, LiveRequest, PeerId, PeerRequestMap, any_live, any_req_id,
  decrement_ttl_and_write_to_outbound, is_live_request, live_req_id, remove_live_request,
  write_outbound,
}
use cable_rs.Core.Manager.Channels.{remove_outbound}
use cable_rs.Core.Manager.Handle.{handle, handle_body, handle_request, is_dropped, mark_handled}
use cable_rs.Core.Manager.Requests.Repeats.{handle_lem}
use cable_rs.Core.Map.{lookup, retain, adjust}
use cable_rs.Core.Map.Lookup.{==_false, lookup-adjust, lookup-adjust_other, lookup-insert_other}
use cable_rs.Core.Map.Retain.{lookup-retain, lookup-retain_other}
use mathlib.Core.Path.{subst}

any_req_id-retain :
    (r : ReqId) (ls : List LiveRequest)
    → any_req_id r (retain (λ l. not (live_req_id l == r)) ls) ≡ false
any_req_id-retain r [] = refl
any_req_id-retain r (l ∷ ls) = elim (Bool-cases (live_req_id l == r)) [
  | inl t ↦ rw t (any_req_id-retain r ls)
  | inr f ↦ rw (f, f) (any_req_id-retain r ls)
]

any_req_id-retain_other :
    (q r : ReqId) (ls : List LiveRequest)
    → q ≢ r
    → any_req_id q (retain (λ l. not (live_req_id l == r)) ls) ≡ any_req_id q ls
any_req_id-retain_other q r [] n = refl
any_req_id-retain_other q r (l ∷ ls) n = elim (Bool-cases (live_req_id l == r)) [
  | inl t ↦
      let other : (live_req_id l == q) ≡ false =
        ==_false (live_req_id l) q (λ e. n (sym e ∙ (bytes_eq.beq_iff (live_req_id l) r).0 t)) in
      rw (t, other) (any_req_id-retain_other q r ls n)
  | inr f ↦ elim (Bool-cases (live_req_id l == q)) [
    | inl t ↦ rw (f, t) refl
    | inr g ↦ rw (f, g) (any_req_id-retain_other q r ls n)
  ]
]

live-removed :
    (p : PeerId) (r : ReqId) (m : PeerRequestMap)
    → any_live p r (adjust p (retain (λ l. not (live_req_id l == r))) m) ≡ false
live-removed p r m = elim (Option-cases (lookup p m)) [
  | inl n ↦ rw (lookup-adjust p (retain (λ l. not (live_req_id l == r))) m, n, any_live) refl
  | inr (ls, e) ↦
      rw (lookup-adjust p (retain (λ l. not (live_req_id l == r))) m, e, any_live)
        (any_req_id-retain r ls)
]

live-removed_other :
    (p q : PeerId) (r s : ReqId) (m : PeerRequestMap)
    → s ≢ r
    → any_live q s (adjust p (retain (λ l. not (live_req_id l == r))) m) ≡ any_live q s m
live-removed_other p q r s m n = elim (Bool-cases (q == p)) [
  | inr f ↦
      rw
        (
          lookup-adjust_other p q (retain (λ l. not (live_req_id l == r))) m
              (λ e. absurd (cc ((nat_eq.beq_iff q p).1 e, f))),
          any_live,
        )
        refl
  | inl t ↦
      let same : q ≡ p = (nat_eq.beq_iff q p).0 t in
      subst
        (λ x. any_live x s (adjust p (retain (λ l. not (live_req_id l == r))) m) ≡ any_live x s m)
        (sym same) at-peer
]
  where
    at-peer : any_live p s (adjust p (retain (λ l. not (live_req_id l == r))) m) ≡ any_live p s m
    at-peer = elim (Option-cases (lookup p m)) [
      | inl z ↦ rw (lookup-adjust p (retain (λ l. not (live_req_id l == r))) m, z, any_live) refl
      | inr (ls, e) ↦
          rw (lookup-adjust p (retain (λ l. not (live_req_id l == r))) m, e, any_live)
            (any_req_id-retain_other s r ls n)
    ]

live-kept :
    (p q : PeerId) (r s : ReqId) (m : PeerRequestMap)
    → (q ≢ p) ⊎ (s ≢ r)
    → any_live q s (adjust p (retain (λ l. not (live_req_id l == r))) m) ≡ any_live q s m
live-kept p q r s m (inl n) =
    rw (lookup-adjust_other p q (retain (λ l. not (live_req_id l == r))) m n, any_live) refl
live-kept p q r s m (inr n) = live-removed_other p q r s m n

module _ (v : Desert) (c : Crypto) (accepts : PeerId → List Message → Bool) where
  abbrev cancels : MessageHeader → ℕ → ReqId → Message
  cancels h ttl r = record { header = h; body = Message.request ttl (Message.cancel r) }

  -- A cancel request with a TTL above 0 that is not dropped succeeds. The request that it names is
  -- then no live request of the peer, and no outbound one. The live requests of this peer with other
  -- IDs, and those of other peers with any ID, this one included, are as before, and so are the other
  -- outbound requests but for the cancel request itself.
  pub handle-cancel :
      (p q : PeerId) (h : MessageHeader) (ttl : ℕ) (r s k : ReqId) (m : CableManager)
      → is_dropped p h.req_id m ≡ false
      → (q ≢ p) ⊎ (s ≢ r)
      → k ≢ r
      → k ≢ h.req_id
      → let x = handle v c accepts p (cancels h (suc ttl) r) m in
        (x.0 ≡ ok tt)
        × (is_live_request p r x.1 ≡ false)
        × (lookup r x.1.outbound_requests ≡ none)
        × (is_live_request q s x.1 ≡ is_live_request q s m)
        × (lookup k x.1.outbound_requests ≡ lookup k m.outbound_requests)
  unfolding handle_body handle_request decrement_ttl_and_write_to_outbound decrement_ttl
      remove_live_request remove_outbound write_outbound mark_handled is_live_request
  handle-cancel p q h ttl r s k m f other n new =
      rw (handle_lem v c accepts p (cancels h (suc ttl) r) m f) (
        refl,
        live-removed p r m.live_requests,
        lookup-retain r _,
        live-kept p q r s m.live_requests other,
        lookup-retain_other r k _ n ∙ lookup-insert_other h.req_id k _ m.outbound_requests new,
      )

  -- A cancel request with the TTL 0 that is not dropped panics where overflow is checked, and leaves
  -- the manager as it was: the request that it names goes on.
  pub handle-cancel_exhausted :
      (p : PeerId) (h : MessageHeader) (r : ReqId) (m : CableManager)
      → is_dropped p h.req_id m ≡ false
      → handle v c accepts p (cancels h 0 r) m ≡ (panic, m)
  unfolding handle_body handle_request decrement_ttl_and_write_to_outbound decrement_ttl
  handle-cancel_exhausted p h r m f = rw (handle_lem v c accepts p (cancels h 0 r) m f) refl
