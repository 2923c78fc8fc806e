-- ===== src/Handshake/Run/Ends.antt =====
-- How a handshake ends: in agreement, or with an error at the client.
use cable_rs.Base.{ℕ, ◌≡◌, ◌≢◌, ◌∙◌, refl, ap, arith, false, List, [], ◌++◌, length, nat_beq}
use cable_rs.Handshake.Error.{ok, err, incompatible_server_version}
use cable_rs.Handshake.Noise.{Noise, NoiseLaws}
use cable_rs.Handshake.Run.{Wire, client, open_wire, server}
use cable_rs.Handshake.Run.Agreement.{
  client_runs, complete, concat_into-full, recv_lem, send_lem, server_runs, version_bytes,
}
use cable_rs.Handshake.States.{
  advance, client_recv_version, new_client, recv_server_version, send_client_version,
}
use cable_rs.Handshake.Version.{Version, from_bytes, to_bytes, write_bytes}
use mathlib.Core.List.{append_assoc}

module _ (n : Noise) (laws : NoiseLaws n) where
  -- A client and a server with the same major version and the same pre-shared key, each of which
  -- reads what the other one wrote and then more, both complete the handshake. Each has then the
  -- public key of the other one, has read nothing of what comes after the handshake, and the two
  -- transports are ready for messages in both directions.
  pub handshake-agrees :
      (vc vs : Version) (psk ki kr more_c more_s : List ℕ)
      → vc.major ≡ vs.major
      → length psk ≡ 32
      → length ki ≡ 32
      → length kr ≡ 32
      → (from_client : List ℕ) × (from_server : List ℕ) × (t : n.TransportState)
        × (u : n.TransportState) × (wc : Wire) × (ws : Wire) × (client n vc psk ki
              (open_wire (from_server ++ more_c))
            ≡ (ok (complete n vc psk ki (laws.public kr) t), wc))
        × (server n vs psk kr (open_wire (from_client ++ more_s))
            ≡ (ok (complete n vs psk kr (laws.public ki) u), ws))
        × (wc.output ≡ from_client)
        × (ws.output ≡ from_server)
        × (wc.input ≡ more_c)
        × (ws.input ≡ more_s)
        × laws.Paired t u
        × laws.Paired u t
  handshake-agrees vc vs psk ki kr more_c more_s major lp li lr =
      let (i0, r0, bi, br, started) = laws.builds psk ki kr lp li lr in
      let (m1, i1, r1, w1, l1, e1, greeted) = laws.first ki kr i0 r0 started in
      let (m2, r2, i2, w2, l2, e2, (answered, key_s)) = laws.second ki kr i1 r1 greeted in
      let (m3, i3, r3, w3, l3, e3, (finished, key_c)) = laws.third ki kr i2 r2 answered in
      let (t, u, tc, ts, p, q) = laws.transport i3 r3 finished in
      let (wc, c, ac) =
        client_runs n vc vs psk ki m1 m2 m3 (laws.public kr) more_c i0 i1 i2 i3 t major bi w1 l1 e2
          l2 key_s (laws.length-public kr) w3 l3 tc in
      let (ws, s, at) =
        server_runs n vc vs psk kr m1 m2 m3 (laws.public ki) more_s r0 r1 r2 r3 u br e1 l1 w2 l2 e3
          l3 key_c (laws.length-public ki) ts in
      (
        version_bytes vc ++ (m1 ++ m3),
        version_bytes vs ++ m2,
        t,
        u,
        wc,
        ws,
        c,
        ap (λ x. server n vs psk kr (open_wire (version_bytes vc ++ x))) (append_assoc m1 m3 more_s)
            ∙ s,
        ac.1,
        at.1,
        ac.0,
        at.0,
        p,
        q,
      )

module _ (n : Noise) where
  -- A client that gets another major version ends with the error that names both, and has sent
  -- nothing but its own version.
  pub client-incompatible :
      (vc vs : Version) (psk key more : List ℕ)
      → vs.major ≢ vc.major
      → let x = client n vc psk key (open_wire (version_bytes vs ++ more)) in
        (x.0 ≡ err (incompatible_server_version vs.major vc.major))
        × (x.1.output ≡ version_bytes vc)
  unfolding client send_client_version recv_server_version to_bytes write_bytes from_bytes
  client-incompatible vc vs psk key more other =
      let h1 = advance (new_client vc psk key) client_recv_version in
      let (u1, e1, a1) =
        send_lem 2 (send_client_version (new_client vc psk key)) (version_bytes vc)
          (version_bytes vs ++ more) [] h1 (open_wire (version_bytes vs ++ more)) (refl, refl, refl)
          (omega arith) refl (λ dst l. rw (concat_into-full dst (version_bytes vc) l) refl) in
      let differ : nat_beq vs.major vc.major ≡ false = ground (arith, other) in
      let (u2, e2, a2) =
        recv_lem 2 (recv_server_version h1) (version_bytes vs) more (version_bytes vc)
          (err (incompatible_server_version vs.major vc.major)) u1 a1 (omega arith) refl
          (rw differ refl) in
      rw (e1, e2) (refl, a2.1)
