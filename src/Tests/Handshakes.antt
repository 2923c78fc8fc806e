-- ===== src/Tests/Handshakes.antt =====
-- Examples for the handshake.
use cable_rs.Base.{ℕ, ◌≡◌, refl, List, [], ◌∷◌, ◌++◌, replicate, arith}
use cable_rs.Handshake.Error.{ok, err, incompatible_server_version}
use cable_rs.Handshake.Messages.AnyInput.{Ends, read_message_from_stream-Ends}
use cable_rs.Handshake.Messages.{read_message_from_stream}
use cable_rs.Handshake.Messages.Sequence.{read_messages, read-write_messages, write_messages}
use cable_rs.Handshake.Noise.Toy.{noise_laws, toy_noise}
use cable_rs.Handshake.Run.{Wire, client, open_wire, server}
use cable_rs.Handshake.Run.Agreement.{complete, version_bytes}
use cable_rs.Handshake.Run.Ends.{client-incompatible, handshake-agrees}
use cable_rs.Handshake.Version.{Version}
use cable_rs.Tests.{key32, other_key, name, hash32}

abbrev version_1 : Version
version_1 = record { major = 1; minor = 0 }

abbrev version_2 : Version
version_2 = record { major = 2; minor = 3 }

handshake-agrees_example :
    (from_client : List ℕ) × (from_server : List ℕ) × (t : toy_noise.TransportState)
    × (u : toy_noise.TransportState) × (wc : Wire) × (ws : Wire) × (client toy_noise version_1
          hash32 key32
          (open_wire (from_server ++ name))
        ≡ (ok (complete toy_noise version_1 hash32 key32 (noise_laws.public other_key) t), wc))
    × (server toy_noise version_1 hash32 other_key (open_wire (from_client ++ []))
        ≡ (ok (complete toy_noise version_1 hash32 other_key (noise_laws.public key32) u), ws))
    × (wc.output ≡ from_client)
    × (ws.output ≡ from_server)
    × (wc.input ≡ name)
    × (ws.input ≡ [])
    × noise_laws.Paired t u
    × noise_laws.Paired u t
handshake-agrees_example =
    handshake-agrees toy_noise noise_laws version_1 version_1 hash32 key32 other_key name [] refl
      refl refl refl

client-incompatible_example :
    let x = client toy_noise version_1 hash32 key32 (open_wire (version_bytes version_2 ++ name)) in
    (x.0 ≡ err (incompatible_server_version 2 1)) × (x.1.output ≡ version_bytes version_1)
client-incompatible_example =
    client-incompatible toy_noise version_1 version_2 hash32 key32 name (λ e. cc)

-- A message, and an empty one.
read-write_messages_example :
    (frames : List ℕ) × (t' : toy_noise.TransportState) × (u' : toy_noise.TransportState)
    × (write_messages toy_noise (replicate 70 5 ∷ [] ∷ []) tt name ≡ ok (t', name ++ frames))
    × (read_messages toy_noise 2 tt (frames ++ hash32) ≡ ok (replicate 70 5 ∷ [] ∷ [], u', hash32))
    × noise_laws.Paired t' u'
read-write_messages_example =
    read-write_messages toy_noise noise_laws (replicate 70 5 ∷ [] ∷ []) name hash32 tt tt tt
      (omega arith, (omega arith, tt))

read_message_from_stream-Ends_example :
    Ends (read_message_from_stream toy_noise tt (17 ∷ 0 ∷ 0 ∷ 0 ∷ replicate 17 9))
read_message_from_stream-Ends_example =
    read_message_from_stream-Ends toy_noise noise_laws tt (17 ∷ 0 ∷ 0 ∷ 0 ∷ replicate 17 9)
