-- ===== src/Handshake/States.antt =====
-- handshake/src/lib.rs: the states of a handshake, and one function for each transition. Each state
-- is a type of its own, so that only the transitions of a state can be applied to it.
use cable_rs.Base.{
  ℕ, not, List, [], ◌++◌, length, drop, nat_beq, ltb, Option, none, some, if◌then◌else◌,
}
use cable_rs.Handshake.Error.{
  Outcome, ok, err, panic, ◌>>=◌, incompatible_server_version, try_from_slice,
}
use cable_rs.Handshake.Error as Error
use cable_rs.Handshake.Noise.{Noise}
use cable_rs.Handshake.Version.{Version, to_bytes, from_bytes}

abbrev pub ephemeral_key_bytes_len : ℕ
ephemeral_key_bytes_len = 48

abbrev pub ephemeral_and_static_key_bytes_len : ℕ
ephemeral_and_static_key_bytes_len = 96

abbrev pub public_key_bytes_len : ℕ
public_key_bytes_len = 32

abbrev pub static_key_bytes_len : ℕ
static_key_bytes_len = 64

abbrev pub version_bytes_len : ℕ
version_bytes_len = 2

pub record HandshakeBase : Type 0 where
  pub version : Version
  pub psk : List ℕ
  pub private_key : List ℕ
  pub remote_public_key : Option (List ℕ)

pub record Handshake (S : Type 0) : Type 0 where
  pub base : HandshakeBase
  pub state : S

pub data Role : Type 0 where
  initiator : Role
  responder : Role

pub data ClientSendVersion : Type 0 where
  client_send_version : ClientSendVersion

pub data ClientRecvVersion : Type 0 where
  client_recv_version : ClientRecvVersion

pub data ClientBuildNoiseStateMachine : Type 0 where
  client_build_noise : ClientBuildNoiseStateMachine

pub data ServerRecvVersion : Type 0 where
  server_recv_version : ServerRecvVersion

pub data ServerSendVersion : Type 0 where
  server_send_version : ServerSendVersion

pub data ServerBuildNoiseStateMachine : Type 0 where
  server_build_noise : ServerBuildNoiseStateMachine

-- `concat_into!` with one source: its bytes in place of the first ones of the destination, which
-- panics where that is shorter.
unfoldable pub concat_into : List ℕ → List ℕ → Outcome (List ℕ)
concat_into dst x = if ltb (length dst) (length x) then panic else ok (x ++ drop (length x) dst)

-- An error of `snow`.
abbrev pub or_noise {ℓ} : {A : Type ℓ} → Option A → Outcome A
or_noise (some a) = ok a
or_noise none = err Error.noise

-- The key as an array of 32 bytes.
unfoldable pub remote_key : Option (List ℕ) → Outcome (Option (List ℕ))
remote_key (some key) =
    if nat_beq (length key) public_key_bytes_len then ok (some key) else err try_from_slice
remote_key none = ok none

abbrev pub advance : {S T : Type 0} → Handshake S → T → Handshake T
advance h t = record { base = h.base; state = t }

abbrev pub new_base : Version → List ℕ → List ℕ → HandshakeBase
new_base version psk private_key = record {
  version = version;
  psk = psk;
  private_key = private_key;
  remote_public_key = none;
}

abbrev pub new_client : Version → List ℕ → List ℕ → Handshake ClientSendVersion
new_client version psk private_key = record {
  base = new_base version psk private_key;
  state = client_send_version;
}

-- An operation on a buffer gives its new bytes back.
unfoldable pub send_client_version :
    Handshake ClientSendVersion → List ℕ → Outcome (List ℕ × Handshake ClientRecvVersion)
send_client_version h send_buf = do
  bytes ← to_bytes h.base.version
  buf ← concat_into send_buf bytes
  ok (buf, advance h client_recv_version)

unfoldable pub recv_server_version :
    Handshake ClientRecvVersion → List ℕ → Outcome (Handshake ClientBuildNoiseStateMachine)
recv_server_version h recv_buf = do
  (_, server_version) ← from_bytes recv_buf
  if not (nat_beq server_version.major h.base.version.major)
      then err (incompatible_server_version server_version.major h.base.version.major)
      else ok (advance h client_build_noise)

abbrev pub new_server : Version → List ℕ → List ℕ → Handshake ServerRecvVersion
new_server version psk private_key = record {
  base = new_base version psk private_key;
  state = server_recv_version;
}

-- Another major version is a warning only.
unfoldable pub recv_client_version :
    Handshake ServerRecvVersion → List ℕ → Outcome (Handshake ServerSendVersion)
recv_client_version h recv_buf = do (_, _) ← from_bytes recv_buf; ok (advance h server_send_version)

unfoldable pub send_server_version :
    Handshake ServerSendVersion → List ℕ → Outcome (List ℕ × Handshake ServerBuildNoiseStateMachine)
send_server_version h send_buf = do
  bytes ← to_bytes h.base.version
  buf ← concat_into send_buf bytes
  ok (buf, advance h server_build_noise)

module _ (n : Noise) where
  pub record ClientSendEphemeralKey : Type 0 where
    pub noise : n.HandshakeState

  pub record ClientRecvEphemeralAndStaticKey : Type 0 where
    pub noise : n.HandshakeState

  pub record ClientSendStaticKey : Type 0 where
    pub noise : n.HandshakeState

  pub record ClientInitTransportMode : Type 0 where
    pub noise : n.HandshakeState

  pub record ServerRecvEphemeralKey : Type 0 where
    pub noise : n.HandshakeState

  pub record ServerSendEphemeralAndStaticKey : Type 0 where
    pub noise : n.HandshakeState

  pub record ServerRecvStaticKey : Type 0 where
    pub noise : n.HandshakeState

  pub record ServerInitTransportMode : Type 0 where
    pub noise : n.HandshakeState

  pub record HandshakeComplete : Type 0 where
    pub transport : n.TransportState

  unfoldable pub build_noise_state_machine : Role → List ℕ → List ℕ → Outcome n.HandshakeState
  build_noise_state_machine initiator psk private_key = or_noise (n.build_initiator psk private_key)
  build_noise_state_machine responder psk private_key = or_noise (n.build_responder psk private_key)

  -- Both `send` transitions of the client and that of the server: a message without payload, written
  -- to a buffer of the length, and from there to the send buffer.
  abbrev pub send_noise : ℕ → n.HandshakeState → List ℕ → Outcome (List ℕ × n.HandshakeState)
  send_noise len state send_buf = do
    (bytes, state') ← or_noise (n.write_message len [] state)
    buf ← concat_into send_buf bytes
    ok (buf, state')

  unfoldable pub build_client_noise_state_machine :
      Handshake ClientBuildNoiseStateMachine → Outcome (Handshake ClientSendEphemeralKey)
  build_client_noise_state_machine h = do
    state ← build_noise_state_machine initiator h.base.psk h.base.private_key
    ok (advance h (record { noise = state }))

  unfoldable pub send_client_ephemeral_key :
      Handshake ClientSendEphemeralKey
      → List ℕ
      → Outcome (List ℕ × Handshake ClientRecvEphemeralAndStaticKey)
  send_client_ephemeral_key h send_buf = do
    (buf, state) ← send_noise ephemeral_key_bytes_len h.state.noise send_buf
    ok (buf, advance h (record { noise = state }))

  unfoldable pub recv_server_ephemeral_and_static_key :
      Handshake ClientRecvEphemeralAndStaticKey → List ℕ → Outcome (Handshake ClientSendStaticKey)
  recv_server_ephemeral_and_static_key h recv_buf = do
    (_, state) ← or_noise (n.read_message ephemeral_and_static_key_bytes_len recv_buf h.state.noise)
    key ← remote_key (n.get_remote_static state)
    ok (record {
      base = record h.base { remote_public_key = key };
      state = record { noise = state };
    })

  unfoldable pub send_client_static_key :
      Handshake ClientSendStaticKey → List ℕ → Outcome (List ℕ × Handshake ClientInitTransportMode)
  send_client_static_key h send_buf = do
    (buf, state) ← send_noise static_key_bytes_len h.state.noise send_buf
    ok (buf, advance h (record { noise = state }))

  unfoldable pub init_client_transport_mode :
      Handshake ClientInitTransportMode → Outcome (Handshake HandshakeComplete)
  init_client_transport_mode h = do
    transport ← or_noise (n.into_transport_mode h.state.noise)
    ok (advance h (record { transport = transport }))

  unfoldable pub build_server_noise_state_machine :
      Handshake ServerBuildNoiseStateMachine → Outcome (Handshake ServerRecvEphemeralKey)
  build_server_noise_state_machine h = do
    state ← build_noise_state_machine responder h.base.psk h.base.private_key
    ok (advance h (record { noise = state }))

  unfoldable pub recv_client_ephemeral_key :
      Handshake ServerRecvEphemeralKey
      → List ℕ
      → Outcome (Handshake ServerSendEphemeralAndStaticKey)
  recv_client_ephemeral_key h recv_buf = do
    (_, state) ← or_noise (n.read_message 1024 recv_buf h.state.noise)
    ok (advance h (record { noise = state }))

  unfoldable pub send_server_ephemeral_and_static_key :
      Handshake ServerSendEphemeralAndStaticKey
      → List ℕ
      → Outcome (List ℕ × Handshake ServerRecvStaticKey)
  send_server_ephemeral_and_static_key h send_buf = do
    (buf, state) ← send_noise 1024 h.state.noise send_buf
    ok (buf, advance h (record { noise = state }))

  unfoldable pub recv_client_static_key :
      Handshake ServerRecvStaticKey → List ℕ → Outcome (Handshake ServerInitTransportMode)
  recv_client_static_key h recv_buf = do
    (_, state) ← or_noise (n.read_message 1024 recv_buf h.state.noise)
    key ← remote_key (n.get_remote_static state)
    ok (record {
      base = record h.base { remote_public_key = key };
      state = record { noise = state };
    })

  unfoldable pub init_server_transport_mode :
      Handshake ServerInitTransportMode → Outcome (Handshake HandshakeComplete)
  init_server_transport_mode h = do
    transport ← or_noise (n.into_transport_mode h.state.noise)
    ok (advance h (record { transport = transport }))
