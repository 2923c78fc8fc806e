-- ===== src/Handshake/Messages/AnyInput.antt =====
-- Reading from any stream.
use cable_rs.Base.{
  ℕ, zero, suc, ◌≡◌, refl, ◌-◌, ◌≤◌, arith, false, List, length, length-take, length-drop, take,
  drop, min, ltb, nat_beq, Option, some, none, Bool-cases, inl, inr,
}
use cable_rs.Handshake.Error.{Outcome, ok, err, panic, stuck, ◌>>=◌}
use cable_rs.Handshake.Messages.{
  from_le_bytes, read_message, read_message_from_stream, read_noise_message, read_segments,
}
use cable_rs.Handshake.Noise.{Noise, NoiseLaws}
use cable_rs.Handshake.States.{or_noise}

-- A result or an error.
abbrev pub Ends {ℓ} : {A : Type ℓ} → Outcome A → Type 0
Ends (ok _) = Unit
Ends (err _) = Unit
Ends panic = ⊥
Ends stuck = ⊥

Ends-then :
    {A B : Type 0} (x : Outcome A) (f : A → Outcome B)
    → Ends x
    → ((a : A) → x ≡ ok a → Ends (f a))
    → Ends (x >>= f)
Ends-then (ok a) f e k = k a refl
Ends-then (err _) f e k = tt
Ends-then panic f e k = e
Ends-then stuck f e k = e

Ends-or_noise : {A : Type 0} (o : Option A) → Ends (or_noise o)
Ends-or_noise (some a) = tt
Ends-or_noise none = tt

or_noise-ok : {A : Type 0} (o : Option A) (a : A) → or_noise o ≡ ok a → o ≡ some a
or_noise-ok (some b) a e = cc e
or_noise-ok none a e = absurd cc

module _ (n : Noise) (laws : NoiseLaws n) where
  read_segments-Ends :
      (fuel k : ℕ) (bytes : List ℕ) (t : n.TransportState)
      → k ≤ fuel
      → k ≤ length bytes
      → Ends (read_segments n fuel bytes k t)
  unfolding read_segments read_noise_message
  read_segments-Ends fuel zero bytes t b l = tt
  read_segments-Ends zero (suc k) bytes t b l = absurd (omega (arith, b))
  read_segments-Ends (suc fuel) (suc k) bytes t b l =
      let m = min 65535 (suc k) in
      let enough : ltb (length bytes) m ≡ false = ground (arith, l) in
      rw (enough, read_segments)
        (Ends-then (read_noise_message n (take m bytes) t) _
          (Ends-or_noise (n.read_transport 65535 (take m bytes) t))
          (λ x e.
            let bound =
              laws.payload_bound 65535 (take m bytes) x.0 t x.1
                (or_noise-ok (n.read_transport 65535 (take m bytes) t) x e) in
            let whole : ltb 65535 (length x.0) ≡ false = ground (arith, bound) in
            rw whole (
              Ends-then (read_segments n fuel (drop m bytes) (suc k - m) x.1) _
                (read_segments-Ends fuel (suc k - m) (drop m bytes) x.1 (omega (arith, b))
                  (omega (arith, length-drop m bytes, l)))
                (λ _ _. tt))))

  -- Whatever a stream gives, and whatever the decryption makes of it that fits the buffer of 65535
  -- bytes, reading a message from it ends, with a message or with an error: no slice is out of range,
  -- of the bytes read or of that buffer, and the loop comes to its end.
  pub read_message_from_stream-Ends :
      (t : n.TransportState) (stream : List ℕ) → Ends (read_message_from_stream n t stream)
  unfolding read_message_from_stream read_message
  read_message_from_stream-Ends t stream = elim (Bool-cases (ltb (length stream) 4)) [
    | inl y ↦ rw y tt
    | inr f ↦
        let k = from_le_bytes (take 4 stream) in
        let behind = drop 4 stream in
        elim (Bool-cases (nat_beq k 0)) [
          | inl y ↦ rw (f, y) tt
          | inr g ↦ elim (Bool-cases (ltb (length behind) k)) [
            | inl y ↦ rw (f, g, y) tt
            | inr h ↦
                rw (f, g, h)
                  (Ends-then (read_segments n k (take k behind) k t) _
                    (read_segments-Ends k k (take k behind) t (omega arith)
                      (ground (arith, length-take k behind, h)))
                    (λ _ _. tt))
          ]
        ]
  ]
