-- ===== src/Handshake/Run/Agreement.antt =====
-- The client and the server of one handshake.
use cable_rs.Base.{
  ℕ, ◌≡◌, ◌∙◌, ◌≤◌, refl, sym, ap, arith, true, false, List, [], ◌∷◌, ◌++◌, length, drop, take, ltb,
  nat_beq, some, length-append, length-take, length-drop, take-append_length, drop-append_length,
  drop_all,
}
use cable_rs.Handshake.Error.{Outcome, ok}
use cable_rs.Handshake.Noise.{Noise}
use cable_rs.Handshake.Run.{Wire, client, open_wire, recv, send, server, wrote}
use cable_rs.Handshake.States.{
  Handshake, HandshakeComplete, HandshakeBase, ClientInitTransportMode,
  ClientRecvEphemeralAndStaticKey, ClientSendEphemeralKey, ClientSendStaticKey,
  ServerInitTransportMode, ServerRecvEphemeralKey, ServerRecvStaticKey,
  ServerSendEphemeralAndStaticKey, advance, build_client_noise_state_machine,
  build_noise_state_machine, build_server_noise_state_machine, client_build_noise,
  client_recv_version, concat_into, init_client_transport_mode, init_server_transport_mode,
  new_base, new_client, new_server, recv_client_ephemeral_key, recv_client_static_key,
  recv_client_version, recv_server_ephemeral_and_static_key, recv_server_version, remote_key,
  send_client_ephemeral_key, send_client_static_key, send_client_version,
  send_server_ephemeral_and_static_key, send_server_version, server_build_noise,
  server_send_version,
}
use cable_rs.Handshake.Version.{Version, to_bytes, from_bytes, write_bytes}
use mathlib.Core.List.{append-nil}

-- A destination of the same length takes exactly the source's bytes.
pub concat_into-full : (dst x : List ℕ) → length dst ≡ length x → concat_into dst x ≡ ok x
unfolding concat_into
concat_into-full dst x e =
    let fits : ltb (length dst) (length x) ≡ false = ground (arith, e) in
    let nothing : drop (length x) dst ≡ [] = ap (λ k. drop k dst) (sym e) ∙ drop_all dst in
    rw (fits, nothing) (ap ok (append-nil x))

-- The bytes that a step has left to read, and those written.
abbrev pub At : Wire → List ℕ → List ℕ → Type 0
At w input output = (w.input ≡ input) × (w.output ≡ output) × (length w.buf ≡ 256)

module _ {A : Type 0} where
  pub send_lem :
      (n : ℕ) (f : List ℕ → Outcome (List ℕ × A)) (bytes input output : List ℕ) (a : A) (w : Wire)
      → At w input output
      → n ≤ 256
      → length bytes ≡ n
      → ((dst : List ℕ) → length dst ≡ n → f dst ≡ ok (bytes, a))
      → (w' : Wire) × (send n f w ≡ (ok a, w')) × At w' input (output ++ bytes)
  unfolding send
  send_lem n f bytes input output a w (i, o, l) b e k = (
    record w { output = w.output ++ bytes; buf = bytes ++ drop n w.buf },
    ap (wrote n w) (k (take n w.buf) (omega (arith, length-take n w.buf, l, b))),
    (
      i,
      ap (λ x. x ++ bytes) o,
      omega (arith, length-append bytes (drop n w.buf), length-drop n w.buf, l, b, e),
    ),
  )

  pub recv_lem :
      (n : ℕ) (f : List ℕ → Outcome A) (bytes rest output : List ℕ) (r : Outcome A) (w : Wire)
      → At w (bytes ++ rest) output
      → n ≤ 256
      → length bytes ≡ n
      → f bytes ≡ r
      → (w' : Wire) × (recv n f w ≡ (r, w')) × At w' rest output
  unfolding recv
  recv_lem n f bytes rest output r w (i, o, l) b e k =
      let enough : ltb (length w.input) n ≡ false =
        ground (arith, length-append bytes rest, ap length i, e) in
      let read : take n w.input ≡ bytes =
        ap (take n) i ∙ ap (λ j. take j (bytes ++ rest)) (sym e) ∙ take-append_length bytes rest in
      let left : drop n w.input ≡ rest =
        ap (drop n) i ∙ ap (λ j. drop j (bytes ++ rest)) (sym e) ∙ drop-append_length bytes rest in
      (
        record w { input = drop n w.input; buf = take n w.input ++ drop n w.buf },
        rw (enough, recv, read, k) refl,
        (
          left,
          o,
          omega (
            arith,
            length-append (take n w.input) (drop n w.buf),
            length-drop n w.buf,
            l,
            b,
            e,
            ap length read,
          ),
        ),
      )

-- The bytes of a version.
abbrev pub version_bytes : Version → List ℕ
version_bytes v = v.major ∷ v.minor ∷ []

module _ (n : Noise) where
  -- The end of a handshake.
  abbrev pub complete :
      Version → List ℕ → List ℕ → List ℕ → n.TransportState → Handshake (HandshakeComplete n)
  complete v psk key remote t = record {
    base = record (new_base v psk key) { remote_public_key = some remote };
    state = record { transport = t };
  }

  pub client_runs :
      (vc vs : Version) (psk key m1 m2 m3 remote rest : List ℕ) (i0 i1 i2 i3 : n.HandshakeState)
      (t : n.TransportState)
      → vc.major ≡ vs.major
      → n.build_initiator psk key ≡ some i0
      → n.write_message 48 [] i0 ≡ some (m1, i1)
      → length m1 ≡ 48
      → n.read_message 96 m2 i1 ≡ some ([], i2)
      → length m2 ≡ 96
      → n.get_remote_static i2 ≡ some remote
      → length remote ≡ 32
      → n.write_message 64 [] i2 ≡ some (m3, i3)
      → length m3 ≡ 64
      → n.into_transport_mode i3 ≡ some t
      → (w : Wire) × (client n vc psk key (open_wire (version_bytes vs ++ (m2 ++ rest)))
          ≡ (ok (complete vc psk key remote t), w))
        × At w rest (version_bytes vc ++ m1 ++ m3)
  unfolding client send_client_version recv_server_version to_bytes write_bytes from_bytes
      build_client_noise_state_machine build_noise_state_machine send_client_ephemeral_key
      recv_server_ephemeral_and_static_key remote_key send_client_static_key
      init_client_transport_mode
  client_runs vc vs psk key m1 m2 m3 remote rest i0 i1 i2 i3 t major b w1 l1 r2 l2 k lk w3 l3 tr =
      let same : nat_beq vs.major vc.major ≡ true = ground (arith, major) in
      let long : nat_beq (length remote) 32 ≡ true = ground (arith, lk) in
      let base = new_base vc psk key in
      let base' : HandshakeBase = record base { remote_public_key = some remote } in
      let h1 = advance (new_client vc psk key) client_recv_version in
      let h2 = advance h1 client_build_noise in
      let (u1, e1, a1) =
        send_lem 2 (send_client_version (new_client vc psk key)) (version_bytes vc)
          (version_bytes vs ++ (m2 ++ rest)) [] h1 (open_wire (version_bytes vs ++ (m2 ++ rest)))
          (refl, refl, refl) (omega arith) refl
          (λ dst l. rw (concat_into-full dst (version_bytes vc) l) refl) in
      let (u2, e2, a2) =
        recv_lem 2 (recv_server_version h1) (version_bytes vs) (m2 ++ rest) (version_bytes vc)
          (ok h2) u1 a1 (omega arith) refl (rw same refl) in
      let h3 : Handshake (ClientSendEphemeralKey n) = advance h2 (record { noise = i0 }) in
      let h4 : Handshake (ClientRecvEphemeralAndStaticKey n) = advance h3 (record { noise = i1 }) in
      let h5 : Handshake (ClientSendStaticKey n) = record {
        base = base';
        state = record { noise = i2 };
      } in
      let h6 : Handshake (ClientInitTransportMode n) = advance h5 (record { noise = i3 }) in
      let e3 : build_client_noise_state_machine n h2 ≡ ok h3 = rw b refl in
      let (u4, e4, a4) =
        send_lem 48 (send_client_ephemeral_key n h3) m1 (m2 ++ rest) (version_bytes vc) h4 u2 a2
          (omega arith) l1 (λ dst l. rw (w1, concat_into-full dst m1 (l ∙ sym l1)) refl) in
      let (u5, e5, a5) =
        recv_lem 96 (recv_server_ephemeral_and_static_key n h4) m2 rest (version_bytes vc ++ m1)
          (ok h5) u4 a4 (omega arith) l2 (rw (r2, k, long) refl) in
      let (u6, e6, a6) =
        send_lem 64 (send_client_static_key n h5) m3 rest (version_bytes vc ++ m1) h6 u5 a5
          (omega arith) l3 (λ dst l. rw (w3, concat_into-full dst m3 (l ∙ sym l3)) refl) in
      let e7 : init_client_transport_mode n h6 ≡ ok (complete vc psk key remote t) = rw tr refl in
      (u6, rw (e1, e2, e3, e4, e5, e6, e7) refl, a6)

  pub server_runs :
      (vc vs : Version) (psk key m1 m2 m3 remote rest : List ℕ) (r0 r1 r2 r3 : n.HandshakeState)
      (t : n.TransportState)
      → n.build_responder psk key ≡ some r0
      → n.read_message 1024 m1 r0 ≡ some ([], r1)
      → length m1 ≡ 48
      → n.write_message 1024 [] r1 ≡ some (m2, r2)
      → length m2 ≡ 96
      → n.read_message 1024 m3 r2 ≡ some ([], r3)
      → length m3 ≡ 64
      → n.get_remote_static r3 ≡ some remote
      → length remote ≡ 32
      → n.into_transport_mode r3 ≡ some t
      → (w : Wire) × (server n vs psk key (open_wire (version_bytes vc ++ (m1 ++ (m3 ++ rest))))
          ≡ (ok (complete vs psk key remote t), w))
        × At w rest (version_bytes vs ++ m2)
  unfolding server send_server_version recv_client_version to_bytes write_bytes from_bytes
      build_server_noise_state_machine build_noise_state_machine recv_client_ephemeral_key
      recv_client_static_key remote_key send_server_ephemeral_and_static_key
      init_server_transport_mode
  server_runs vc vs psk key m1 m2 m3 remote rest r0 r1 r2 r3 t b e_read l1 w2 l2 e_last l3 k lk tr =
      let long : nat_beq (length remote) 32 ≡ true = ground (arith, lk) in
      let base = new_base vs psk key in
      let base' : HandshakeBase = record base { remote_public_key = some remote } in
      let h1 = advance (new_server vs psk key) server_send_version in
      let h2 = advance h1 server_build_noise in
      let h3 : Handshake (ServerRecvEphemeralKey n) = advance h2 (record { noise = r0 }) in
      let h4 : Handshake (ServerSendEphemeralAndStaticKey n) = advance h3 (record { noise = r1 }) in
      let h5 : Handshake (ServerRecvStaticKey n) = advance h4 (record { noise = r2 }) in
      let h6 : Handshake (ServerInitTransportMode n) = record {
        base = base';
        state = record { noise = r3 };
      } in
      let input = version_bytes vc ++ (m1 ++ (m3 ++ rest)) in
      let (u1, e1, a1) =
        recv_lem 2 (recv_client_version (new_server vs psk key)) (version_bytes vc)
          (m1 ++ (m3 ++ rest)) [] (ok h1) (open_wire input) (refl, refl, refl) (omega arith) refl
          refl in
      let (u2, e2, a2) =
        send_lem 2 (send_server_version h1) (version_bytes vs) (m1 ++ (m3 ++ rest)) [] h2 u1 a1
          (omega arith) refl (λ dst l. rw (concat_into-full dst (version_bytes vs) l) refl) in
      let e3 : build_server_noise_state_machine n h2 ≡ ok h3 = rw b refl in
      let (u4, e4, a4) =
        recv_lem 48 (recv_client_ephemeral_key n h3) m1 (m3 ++ rest) (version_bytes vs) (ok h4) u2
          a2 (omega arith) l1 (rw e_read refl) in
      let (u5, e5, a5) =
        send_lem 96 (send_server_ephemeral_and_static_key n h4) m2 (m3 ++ rest) (version_bytes vs)
          h5 u4 a4 (omega arith) l2 (λ dst l. rw (w2, concat_into-full dst m2 (l ∙ sym l2)) refl) in
      let (u6, e6, a6) =
        recv_lem 64 (recv_client_static_key n h5) m3 rest (version_bytes vs ++ m2) (ok h6) u5 a5
          (omega arith) l3 (rw (e_last, k, long) refl) in
      let e7 : init_server_transport_mode n h6 ≡ ok (complete vs psk key remote t) = rw tr refl in
      (u6, rw (e1, e2, e3, e4, e5, e6, e7) refl, a6)
