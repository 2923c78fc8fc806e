-- ===== src/Handshake/Noise.antt =====
-- What the handshake uses of the crate `snow`, for "Noise_XXpsk0_25519_ChaChaPoly_BLAKE2b" with the
-- prologue "CABLE".
pub mod Toy
use cable_rs.Base.{ℕ, ◌≡◌, ◌+◌, ◌≤◌, List, [], length, Option, some}

-- A state that an operation changes is given back beside its result. The number is the length of the
-- buffer that the operation writes to; `none` is an error.
pub record Noise : Type 1 where
  pub HandshakeState : Type 0
  pub TransportState : Type 0
  pub build_initiator : (psk private_key : List ℕ) → Option HandshakeState
  pub build_responder : (psk private_key : List ℕ) → Option HandshakeState
  pub write_message : ℕ → List ℕ → HandshakeState → Option (List ℕ × HandshakeState)
  pub read_message : ℕ → List ℕ → HandshakeState → Option (List ℕ × HandshakeState)
  pub get_remote_static : HandshakeState → Option (List ℕ)
  pub into_transport_mode : HandshakeState → Option TransportState
  pub write_transport : ℕ → List ℕ → TransportState → Option (List ℕ × TransportState)
  pub read_transport : ℕ → List ℕ → TransportState → Option (List ℕ × TransportState)

-- The next message of a handshake goes from the state `i` to the state `r`: it has the length, and is
-- read with an empty payload, after which the two states are related again.
abbrev pub Passes :
    (n : Noise)
    → ℕ
    → ℕ
    → ℕ
    → (n.HandshakeState → n.HandshakeState → Type 0)
    → n.HandshakeState
    → n.HandshakeState
    → Type 0
Passes n size out buf Next i r =
    (m : List ℕ) × (i' : n.HandshakeState) × (r' : n.HandshakeState) × (n.write_message out [] i
      ≡ some (m, i'))
    × (length m ≡ size)
    × (n.read_message buf m r ≡ some ([], r'))
    × Next i' r'

-- What the code relies on. `Started i r`, `Greeted i r` and `Answered i r` relate the states of an
-- initiator and a responder with the same pre-shared key before the first, the second and the third
-- message, and `Paired` those of a sender and a receiver behind the handshake, in one direction. A
-- payload that is read fits the buffer that it is written to: one that does not is an error.
pub record NoiseLaws (n : Noise) : Type 1 where
  pub public : List ℕ → List ℕ
  pub Started : List ℕ → List ℕ → n.HandshakeState → n.HandshakeState → Type 0
  pub Greeted : List ℕ → List ℕ → n.HandshakeState → n.HandshakeState → Type 0
  pub Answered : List ℕ → List ℕ → n.HandshakeState → n.HandshakeState → Type 0
  pub Finished : n.HandshakeState → n.HandshakeState → Type 0
  pub Paired : n.TransportState → n.TransportState → Type 0
  pub length-public : (k : List ℕ) → length (public k) ≡ 32
  pub builds :
      (psk ki kr : List ℕ)
      → length psk ≡ 32
      → length ki ≡ 32
      → length kr ≡ 32
      → (i : n.HandshakeState) × (r : n.HandshakeState) × (n.build_initiator psk ki ≡ some i)
        × (n.build_responder psk kr ≡ some r)
        × Started ki kr i r
  pub first :
      (ki kr : List ℕ) (i r : n.HandshakeState)
      → Started ki kr i r
      → Passes n 48 48 1024 (Greeted ki kr) i r
  pub second :
      (ki kr : List ℕ) (i r : n.HandshakeState)
      → Greeted ki kr i r
      → Passes n 96 1024 96
          (λ r' i'. Answered ki kr i' r' × (n.get_remote_static i' ≡ some (public kr)))
          r
          i
  pub third :
      (ki kr : List ℕ) (i r : n.HandshakeState)
      → Answered ki kr i r
      → Passes n 64 64 1024
          (λ i' r'. Finished i' r' × (n.get_remote_static r' ≡ some (public ki)))
          i
          r
  pub transport :
      (i r : n.HandshakeState)
      → Finished i r
      → (t : n.TransportState) × (u : n.TransportState) × (n.into_transport_mode i ≡ some t)
        × (n.into_transport_mode r ≡ some u)
        × Paired t u
        × Paired u t
  pub payload_bound :
      (len : ℕ) (ct bs : List ℕ) (t t' : n.TransportState)
      → n.read_transport len ct t ≡ some (bs, t')
      → length bs ≤ len
  pub segment :
      (t u : n.TransportState) (bs : List ℕ)
      → Paired t u
      → length bs ≤ 65519
      → (ct : List ℕ) × (t' : n.TransportState) × (u' : n.TransportState) × (n.write_transport 65535
            bs t
          ≡ some (ct, t'))
        × (length ct ≡ length bs + 16)
        × (n.read_transport 65535 ct u ≡ some (bs, u'))
        × Paired t' u'
