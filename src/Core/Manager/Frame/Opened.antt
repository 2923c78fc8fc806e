-- ===== src/Core/Manager/Frame/Opened.antt =====
-- What `open_channel` and `close_channel` leave alone.
use cable_rs.Base.{◌≡◌, ◌∙◌, refl, ap, Bool, List, [], ◌∷◌, Bool-cases, inl, inr}
use cable_rs.Cable.Constants
use cable_rs.Cable.Crypto.{Crypto}
use cable_rs.Cable.Desert.{Desert}
use cable_rs.Cable.Message.{Message}
use cable_rs.Cable.Message.New.{cancel_request, channel_state_request, channel_time_range_request}
use cable_rs.Cable.Types.{Channel, ChannelOptions, ReqId}
use cable_rs.Core.Manager.{
  CableManager, PeerId, request_ttl, broadcast, local, new_req_id, send_all, write_outbound,
}
use cable_rs.Core.Manager.Channels.{
  cancel_requests, close_channel, open_channel, open_req_ids, remove_outbound, send_request,
}
use cable_rs.Core.Manager.Frame.{Framed, next_req_id_bound}
use cable_rs.Core.Manager.Frame.Handled.{KeptByStore}
use cable_rs.Core.Map.{Map, map}
use cable_rs.Core.Step.{continue-keeps}
use cable_rs.Core.Store.{MemoryStore}
use cable_rs.Core.Store.Posts.{get_posts_live}

keys-send_all :
    (accepts : PeerId → List Message → Bool) (msg : Message) (ps : Map PeerId (List Message))
    → map (λ e. e.0) (send_all accepts msg ps).1 ≡ map (λ e. e.0) ps
unfolding send_all
keys-send_all accepts msg [] = refl
keys-send_all accepts msg ((p, sent) ∷ ps) = elim (Bool-cases (accepts p sent)) [
  | inl t ↦ rw (t, send_all) (ap (λ ks. p ∷ ks) (keys-send_all accepts msg ps))
  | inr f ↦ rw (f, send_all) refl
]

module _ (v : Desert) (c : Crypto) (accepts : PeerId → List Message → Bool)
    (Q : MemoryStore → Type 0) (kept : KeptByStore v c Q) (m0 : CableManager) where
  broadcast-Framed :
      (msg : Message) (m : CableManager) → Framed Q m0 m → Framed Q m0 (broadcast accepts msg m).1
  unfolding broadcast
  broadcast-Framed msg m k = (k.0, k.1, k.2, keys-send_all accepts msg m.peers ∙ k.3, k.4)

  new_req_id-Framed : (m : CableManager) → Framed Q m0 m → Framed Q m0 (new_req_id v m).1
  unfolding new_req_id
  new_req_id-Framed m k = (k.0, k.1, k.2, k.3, λ b. next_req_id_bound m.last_req_id (k.4 b))

  send_request-Framed :
      (r : ReqId) (msg : Message) (m : CableManager)
      → Framed Q m0 m
      → Framed Q m0 (send_request v accepts r msg m).1
  unfolding send_request write_outbound
  send_request-Framed r msg m k = broadcast-Framed msg (write_outbound r local msg m) k

  pub open_channel-Framed :
      (o : ChannelOptions) (m : CableManager)
      → Framed Q m0 m
      → Framed Q m0 (open_channel v accepts o m).1
  unfolding open_channel
  open_channel-Framed o m k =
      continue-keeps (Framed Q m0) _ (new_req_id v m) (new_req_id-Framed m k) (λ i s q.
        continue-keeps (Framed Q m0) _ (send_request v accepts i.1 _ s)
          (send_request-Framed i.1
            (channel_time_range_request Constants.no_circuit i.1 request_ttl o) s q)
          (λ _ t q'.
            continue-keeps (Framed Q m0) _ (new_req_id v t) (new_req_id-Framed t q') (λ j u q2.
              continue-keeps (Framed Q m0) _ (send_request v accepts j.1 _ u)
                (send_request-Framed j.1
                  (channel_state_request Constants.no_circuit j.1 request_ttl o.channel 1) u q2)
                (λ _ w q3.
                  continue-keeps (Framed Q m0) _
                    (
                      (get_posts_live o w.store).0,
                      record w { store = (get_posts_live o w.store).2 },
                    )
                    (kept.live o w.store q3.0, q3.1, q3.2, q3.3, q3.4) (λ _ _ z. z)))))

  cancel_requests-Framed :
      (rs : List ReqId) (m : CableManager)
      → Framed Q m0 m
      → Framed Q m0 (cancel_requests v accepts rs m).1
  unfolding cancel_requests remove_outbound
  cancel_requests-Framed [] m k = k
  cancel_requests-Framed (r ∷ rs) m k =
      continue-keeps (Framed Q m0) _ (new_req_id v m) (new_req_id-Framed m k) (λ i s q.
        continue-keeps (Framed Q m0) _ (broadcast accepts _ s)
          (broadcast-Framed (cancel_request Constants.no_circuit i.1 request_ttl r) s q)
          (λ _ t q'. cancel_requests-Framed rs (remove_outbound r t) q'))

  pub close_channel-Framed :
      (ch : Channel) (m : CableManager)
      → Framed Q m0 m
      → Framed Q m0 (close_channel v accepts ch m).1
  unfolding close_channel
  close_channel-Framed ch m k = cancel_requests-Framed (open_req_ids ch m.outbound_requests) m k
