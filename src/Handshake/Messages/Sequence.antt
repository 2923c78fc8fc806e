-- ===== src/Handshake/Messages/Sequence.antt =====
-- Several messages over one stream, and the end of the stream.
use cable_rs.Base.{
  ℕ, zero, suc, ◌≡◌, ◌∙◌, ◌<◌, refl, sym, ap, arith, false, List, [], ◌∷◌, ◌++◌, length, All, ltb,
}
use cable_rs.Handshake.Error.{Outcome, ok, ◌>>=◌}
use cable_rs.Handshake.Messages.{
  le_bytes, read_message_from_stream, write_eos_marker_to_stream, write_message,
  write_message_to_stream, write_segments,
}
use cable_rs.Handshake.Messages.RoundTrip.{encrypted_len, message-Framed}
use cable_rs.Handshake.Noise.{Noise, NoiseLaws}
use mathlib.Core.List.{append-nil, append_assoc}

module _ (n : Noise) where
  -- The messages, one call after the other.
  unfoldable pub write_messages :
      List (List ℕ) → n.TransportState → List ℕ → Outcome (n.TransportState × List ℕ)
  write_messages [] t stream = ok (t, stream)
  write_messages (msg ∷ msgs) t stream = do
    (_, t', stream') ← write_message_to_stream n msg t stream
    write_messages msgs t' stream'

  unfoldable pub read_messages :
      ℕ → n.TransportState → List ℕ → Outcome (List (List ℕ) × n.TransportState × List ℕ)
  read_messages zero u stream = ok ([], u, stream)
  read_messages (suc count) u stream = do
    (msg, u', stream') ← read_message_from_stream n u stream
    (msgs, u'', stream'') ← read_messages count u' stream'
    ok (msg ∷ msgs, u'', stream'')

  -- An empty message is written as the marker for the end of the stream, which is also what reading
  -- gives back for it.
  pub write_message_to_stream-empty :
      (t : n.TransportState) (stream more : List ℕ)
      → (write_message_to_stream n [] t stream ≡ ok (0, t, write_eos_marker_to_stream stream))
        × (read_message_from_stream n t (write_eos_marker_to_stream [] ++ more) ≡ ok ([], t, more))
  unfolding write_message_to_stream write_message write_segments read_message_from_stream
  write_message_to_stream-empty t stream more =
      let four : ltb (suc (suc (suc (suc (length more))))) 4 ≡ false = ground arith in
      (ap (λ s. ok (0, t, s)) (append-nil (stream ++ le_bytes 0)), rw four refl)

module _ (n : Noise) (laws : NoiseLaws n) where
  -- Messages of any lengths whose encryptions have fewer than 2^32 bytes each, written to a stream
  -- one after the other, are read from there, by as many calls, as the same messages in the same
  -- order, and what follows them on the stream is left.
  pub read-write_messages :
      (msgs : List (List ℕ)) (stream more : List ℕ) (t u : n.TransportState)
      → laws.Paired t u
      → All (λ msg. encrypted_len (length msg) < 4294967296) msgs
      → (frames : List ℕ) × (t' : n.TransportState) × (u' : n.TransportState) × (write_messages n
            msgs t stream
          ≡ ok (t', stream ++ frames))
        × (read_messages n (length msgs) u (frames ++ more) ≡ ok (msgs, u', more))
        × laws.Paired t' u'
  unfolding write_messages read_messages
  read-write_messages [] stream more t u p b =
      ([], t, u, ap (λ s. ok (t, s)) (sym (append-nil stream)), refl, p)
  read-write_messages (msg ∷ msgs) stream more t u p b =
      let (f1, t1, u1, w1, _, r1, p1) = message-Framed n laws msg stream t u p b.0 in
      let (f2, t2, u2, w2, r2, p2) = read-write_messages msgs (stream ++ f1) more t1 u1 p1 b.1 in
      (
        f1 ++ f2,
        t2,
        u2,
        rw w1 (w2 ∙ ap (λ s. ok (t2, s)) (append_assoc stream f1 f2)),
        rw (append_assoc f1 f2 more, r1 (f2 ++ more), r2) refl,
        p2,
      )
