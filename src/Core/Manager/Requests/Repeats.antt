-- ===== src/Core/Manager/Requests/Repeats.antt =====
-- A message whose request ID was handled, and is not active, is dropped.
use cable_rs.Base.{ℕ, ◌≡◌, ◌∙◌, refl, sym, ap, Bool, true, false, List, Bool-cases, inl, inr}
use cable_rs.Base.Equality.{bytes_eq}
use cable_rs.Cable.Crypto.{Crypto}
use cable_rs.Cable.Desert.{Desert}
use cable_rs.Cable.Error.{Outcome, ok, err, panic, stuck}
use cable_rs.Cable.Message.{Message}
use cable_rs.Core.Manager.{CableManager, PeerId, has_key, is_live_request}
use cable_rs.Core.Manager.Frame.Handled.{anything-KeptByStore, handle_all, handle_all-Framed}
use cable_rs.Core.Manager.Handle.{handle, handle_body, is_dropped, mark_handled}
use cable_rs.Core.Step.{continue, continue-ok, modify}
use cable_rs.Core.Manager.Sets.{contains-set_add}
use cable_rs.Core.Store.{contains}

-- Of a message that is not dropped.
pub handle_lem :
    (v : Desert) (c : Crypto) (accepts : PeerId → List Message → Bool) (p : PeerId) (msg : Message)
    (m : CableManager)
    → is_dropped p msg.header.req_id m ≡ false
    → handle v c accepts p msg m
      ≡ continue
          (λ _. modify (mark_handled msg.header.req_id))
          (handle_body v c accepts p msg.header.circuit_id msg.header.req_id msg.body msg m)
unfolding handle
handle_lem v c accepts p msg m f = rw (f, handle) refl

was_handled :
    (p : PeerId) (r : List ℕ) (m : CableManager)
    → is_dropped p r m ≡ true
    → contains r m.handled_requests ≡ true
unfolding is_dropped
was_handled p r m t = elim (Bool-cases (contains r m.handled_requests)) [
  | inl h ↦ h
  | inr f ↦ absurd cc
]

is_dropped_lem :
    (q : PeerId) (r : List ℕ) (m : CableManager)
    → contains r m.handled_requests ≡ true
    → is_live_request q r m ≡ false
    → has_key r m.outbound_requests ≡ false
    → is_dropped q r m ≡ true
unfolding is_dropped
is_dropped_lem q r m a b c = rw (a, b, c) refl

dropped :
    (v : Desert) (c : Crypto) (accepts : PeerId → List Message → Bool) (q : PeerId) (msg : Message)
    (m : CableManager)
    → is_dropped q msg.header.req_id m ≡ true
    → handle v c accepts q msg m ≡ (ok tt, m)
unfolding handle
dropped v c accepts q msg m t = rw (t, handle) refl

module _ (v : Desert) (c : Crypto) (accepts : PeerId → List Message → Bool) where
  after-ok :
      {A : Type 0} (r : List ℕ) (x : Outcome A × CableManager) (a : A)
      → x.0 ≡ ok a
      → contains r (continue (λ _. modify (mark_handled r)) x).1.handled_requests ≡ true
  unfolding mark_handled
  after-ok r (ok _, s) a e = contains-set_add r s.handled_requests
  after-ok r (err _, s) a e = absurd cc
  after-ok r (panic, s) a e = absurd cc
  after-ok r (stuck, s) a e = absurd cc

  pub handle-marks :
      (p : PeerId) (msg : Message) (m : CableManager)
      → (handle v c accepts p msg m).0 ≡ ok tt
      → contains msg.header.req_id (handle v c accepts p msg m).1.handled_requests ≡ true
  unfolding handle is_dropped
  handle-marks p msg m e = elim (Bool-cases (is_dropped p msg.header.req_id m)) [
    | inl t ↦ rw (t, handle) (was_handled p msg.header.req_id m t)
    | inr f ↦
        let whole = handle_lem v c accepts p msg m f in
        let body =
          handle_body v c accepts p msg.header.circuit_id msg.header.req_id msg.body msg m in
        let done =
          continue-ok (λ _. modify (mark_handled msg.header.req_id)) body tt
            (ap (λ x. x.0) (sym whole) ∙ e) in
        rw whole (after-ok msg.header.req_id body done.0 done.1)
  ]

  -- When a message was handled without an error, a later message with its request ID is dropped,
  -- after any other messages of any peers, of a peer for whom it is then no live request, unless the
  -- ID is then that of an outbound request: it changes nothing, whatever it holds.
  pub handle-drops_repeats :
      (p q : PeerId) (msg again : Message) (between : List (PeerId × Message)) (m : CableManager)
      → (handle v c accepts p msg m).0 ≡ ok tt
      → again.header.req_id ≡ msg.header.req_id
      → let s = handle_all v c accepts between (handle v c accepts p msg m).1 in
        is_live_request q msg.header.req_id s ≡ false
        → has_key msg.header.req_id s.outbound_requests ≡ false
        → handle v c accepts q again s ≡ (ok tt, s)
  handle-drops_repeats p q msg again between m done same live out =
      let first = (handle v c accepts p msg m).1 in
      let s = handle_all v c accepts between first in
      let framed =
        handle_all-Framed v c accepts (λ _. Unit) (anything-KeptByStore v c accepts) first between
          first (tt, refl, (refl, λ _ e. e), refl, λ b. b) in
      let still = framed.2.1 msg.header.req_id (handle-marks p msg m done) in
      dropped v c accepts q again s
        (ap (λ r. is_dropped q r s) same ∙ is_dropped_lem q msg.header.req_id s still live out)
