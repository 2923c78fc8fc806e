-- ===== src/Handshake/Run.antt =====
-- handshake/src/sync/handshake.rs and handshake/src/async_std/handshake.rs: the handshake over a
-- stream, from its start to its end. The two differ in `await` only.
pub mod Agreement
pub mod Ends
use cable_rs.Base.{ℕ, List, [], ◌++◌, length, drop, take, ltb, replicate, if◌then◌else◌}
use cable_rs.Handshake.Error.{Outcome, ok, err, panic, stuck, unexpected_eof}
use cable_rs.Handshake.Noise.{Noise}
use cable_rs.Handshake.States.{
  Handshake, HandshakeComplete, build_client_noise_state_machine, build_server_noise_state_machine,
  ephemeral_and_static_key_bytes_len, ephemeral_key_bytes_len, init_client_transport_mode,
  init_server_transport_mode, new_client, new_server, recv_client_ephemeral_key,
  recv_client_static_key, recv_client_version, recv_server_ephemeral_and_static_key,
  recv_server_version, send_client_ephemeral_key, send_client_static_key, send_client_version,
  send_server_ephemeral_and_static_key, send_server_version, static_key_bytes_len,
  version_bytes_len,
}
use cable_rs.Handshake.Version.{Version}

-- The bytes that the stream will give, those written to it, and the buffer of 256 bytes.
pub record Wire : Type 0 where
  pub input : List ℕ
  pub output : List ℕ
  pub buf : List ℕ

-- What was written before a failure stays written.
abbrev pub Session : Type 0 → Type 0
Session A = Wire → Outcome A × Wire

abbrev pub resume : {A B : Type 0} → (A → Session B) → Outcome A × Wire → Outcome B × Wire
resume f (ok a, w) = f a w
resume f (err e, w) = (err e, w)
resume f (panic, w) = (panic, w)
resume f (stuck, w) = (stuck, w)

infixl 5 ◌>>=◌
abbrev pub ◌>>=◌ : {A B : Type 0} → Session A → (A → Session B) → Session B
◌>>=◌ m f w = resume f (m w)

abbrev pub lift : {A : Type 0} → Outcome A → Session A
lift r w = (r, w)

abbrev pub wrote : {A : Type 0} → ℕ → Wire → Outcome (List ℕ × A) → Outcome A × Wire
wrote n w (ok (bytes, a)) =
    (ok a, record w { output = w.output ++ bytes; buf = bytes ++ drop n w.buf })
wrote n w (err e) = (err e, w)
wrote n w panic = (panic, w)
wrote n w stuck = (stuck, w)

-- A transition that fills `buf[..n]`, and `write_all` of it.
unfoldable pub send : {A : Type 0} → ℕ → (List ℕ → Outcome (List ℕ × A)) → Session A
send n f w = wrote n w (f (take n w.buf))

-- `read_exact` into `buf[..n]`, and a transition that reads it.
unfoldable pub recv : {A : Type 0} → ℕ → (List ℕ → Outcome A) → Session A
recv n f w = if ltb (length w.input) n then (err unexpected_eof, w) else (
  f (take n w.input),
  record w { input = drop n w.input; buf = take n w.input ++ drop n w.buf },
)

abbrev pub open_wire : List ℕ → Wire
open_wire input = record { input = input; output = []; buf = replicate 256 0 }

module _ (n : Noise) where
  unfoldable pub client : Version → List ℕ → List ℕ → Session (Handshake (HandshakeComplete n))
  client version psk private_key = do
    h1 ← send version_bytes_len (send_client_version (new_client version psk private_key))
    h2 ← recv version_bytes_len (recv_server_version h1)
    h3 ← lift (build_client_noise_state_machine n h2)
    h4 ← send ephemeral_key_bytes_len (send_client_ephemeral_key n h3)
    h5 ← recv ephemeral_and_static_key_bytes_len (recv_server_ephemeral_and_static_key n h4)
    h6 ← send static_key_bytes_len (send_client_static_key n h5)
    lift (init_client_transport_mode n h6)

  unfoldable pub server : Version → List ℕ → List ℕ → Session (Handshake (HandshakeComplete n))
  server version psk private_key = do
    h1 ← recv version_bytes_len (recv_client_version (new_server version psk private_key))
    h2 ← send version_bytes_len (send_server_version h1)
    h3 ← lift (build_server_noise_state_machine n h2)
    h4 ← recv ephemeral_key_bytes_len (recv_client_ephemeral_key n h3)
    h5 ← send ephemeral_and_static_key_bytes_len (send_server_ephemeral_and_static_key n h4)
    h6 ← recv static_key_bytes_len (recv_client_static_key n h5)
    lift (init_server_transport_mode n h6)
