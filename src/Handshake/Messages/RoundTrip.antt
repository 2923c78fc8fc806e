-- ===== src/Handshake/Messages/RoundTrip.antt =====
-- A message, however long, is read as it was written.
use cable_rs.Base.{
  ℕ, zero, suc, ◌≡◌, ◌∙◌, ◌+◌, ◌-◌, ◌*◌, ◌/◌, ◌≤◌, ◌<◌, refl, sym, ap, arith, false, List, [], ◌∷◌,
  ◌++◌, length, drop, take, ltb, min, nat_beq, some, Bool-cases, inl, inr, length-append,
  length-take, length-drop, take-append_length, drop-append_length, take-append-drop,
}
use cable_rs.Handshake.Error.{ok, ◌>>=◌}
use cable_rs.Handshake.Messages.{
  from_le_bytes, le_bytes, read_message, read_message_from_stream, read_noise_message,
  read_segments, write_message, write_message_to_stream, write_noise_message, write_segments,
}
use cable_rs.Handshake.Noise.{Noise, NoiseLaws}
use mathlib.Core.List.{append_assoc}

-- The number of the encrypted bytes: 16 more for each started segment of 65519 bytes.
abbrev pub encrypted_len : ℕ → ℕ
encrypted_len n = n + 16 * ((n + 65518) / 65519)

pub le_bytes-from : (n : ℕ) → n < 4294967296 → from_le_bytes (le_bytes n) ≡ n
le_bytes-from n b = omega (arith, b)

no_bytes : (bs : List ℕ) → length bs ≡ 0 → bs ≡ []
no_bytes [] e = refl
no_bytes (x ∷ xs) e = absurd (omega (arith, e))

module _ (n : Noise) where
  -- One round of the reader.
  read_segments-round :
      (fuel k : ℕ) (first others segment rest : List ℕ) (t t' t'' : n.TransportState)
      → 1 ≤ k
      → length first ≡ min 65535 k
      → n.read_transport 65535 first t ≡ some (segment, t')
      → length segment ≤ 65535
      → read_segments n fuel others (k - min 65535 k) t' ≡ ok (rest, t'')
      → read_segments n (suc fuel) (first ++ others) k t ≡ ok (segment ++ rest, t'')
  unfolding read_segments read_noise_message
  read_segments-round fuel zero first others segment rest t t' t'' b l r z s =
      absurd (omega (arith, b))
  read_segments-round fuel (suc k) first others segment rest t t' t'' b l r z s =
      let whole : ltb 65535 (length segment) ≡ false = ground (arith, z) in
      let enough : ltb (length (first ++ others)) (min 65535 (suc k)) ≡ false =
        ground (arith, length-append first others, l) in
      rw (enough, ← l, take-append_length first others, drop-append_length first others, r)
        (rw (whole, l, s) refl)

  -- One round of the writer.
  write_segments-round :
      (fuel count : ℕ) (msg segment rest : List ℕ) (t t' t'' : n.TransportState)
      → 1 ≤ length msg
      → n.write_transport 65535 (take (min 65519 (length msg)) msg) t ≡ some (segment, t')
      → write_segments n fuel (drop (min 65519 (length msg)) msg) t' ≡ ok (count, rest, t'')
      → write_segments n (suc fuel) msg t ≡ ok (length segment + count, segment ++ rest, t'')
  unfolding write_segments write_noise_message
  write_segments-round fuel count [] segment rest t t' t'' b w s = absurd (omega (arith, b))
  write_segments-round fuel count (x ∷ xs) segment rest t t' t'' b w s = rw (w, s) refl

  write_segments-nil :
      (fuel : ℕ) (t : n.TransportState) → write_segments n fuel [] t ≡ ok (0, [], t)
  unfolding write_segments
  write_segments-nil zero t = refl
  write_segments-nil (suc fuel) t = refl

  read_segments-nil :
      (fuel : ℕ) (bs : List ℕ) (t : n.TransportState) → read_segments n fuel bs 0 t ≡ ok ([], t)
  unfolding read_segments
  read_segments-nil zero bs t = refl
  read_segments-nil (suc fuel) bs t = refl

  -- The encrypted segments of a message of L bytes, the first of m, and what is left.
  read_segments-joined :
      (enough L : ℕ) (c1 c2 segment rest : List ℕ) (u u1 u2 : n.TransportState)
      → 1 ≤ L
      → length c1 ≡ min 65519 L + 16
      → length c2 ≡ encrypted_len (L - min 65519 L)
      → n.read_transport 65535 c1 u ≡ some (segment, u1)
      → length segment ≤ 65535
      → ((e : ℕ) → length c2 ≤ e → read_segments n e c2 (length c2) u1 ≡ ok (rest, u2))
      → length (c1 ++ c2) ≤ enough
      → read_segments n enough (c1 ++ c2) (length (c1 ++ c2)) u ≡ ok (segment ++ rest, u2)
  read_segments-joined zero L c1 c2 segment rest u u1 u2 b l1 l2 r1 z r2 e =
      absurd (omega (arith, e, length-append c1 c2, l1))
  read_segments-joined (suc enough) L c1 c2 segment rest u u1 u2 b l1 l2 r1 z r2 e =
      let both = length-append c1 c2 in
      let left : length (c1 ++ c2) - min 65535 (length (c1 ++ c2)) ≡ length c2 =
        omega (arith, both, l1, l2) in
      read_segments-round enough (length (c1 ++ c2)) c1 c2 segment rest u u1 u2
        (omega (arith, both, l1)) (omega (arith, both, l1, l2)) r1 z
        (ap (λ k. read_segments n enough c2 k u1) left ∙ r2 enough (omega (arith, both, l1, e)))

module _ (n : Noise) (laws : NoiseLaws n) where
  -- What the writer makes of a message, and the reader of that.
  abbrev pub Carried : ℕ → List ℕ → n.TransportState → n.TransportState → Type 0
  Carried fuel msg t u =
      (ct : List ℕ) × (t' : n.TransportState) × (u' : n.TransportState) × (write_segments n fuel msg
          t
        ≡ ok (encrypted_len (length msg), ct, t'))
      × (length ct ≡ encrypted_len (length msg))
      × ((enough : ℕ) → length ct ≤ enough → read_segments n enough ct (length ct) u ≡ ok (msg, u'))
      × laws.Paired t' u'

  segments-Carried :
      (fuel : ℕ) (msg : List ℕ) (t u : n.TransportState)
      → laws.Paired t u
      → length msg ≤ fuel
      → Carried fuel msg t u
  segments-Carried fuel [] t u p b =
      ([], t, u, write_segments-nil n fuel t, refl, λ enough _. read_segments-nil n enough [] u, p)
  segments-Carried zero (x ∷ xs) t u p b = absurd (omega (arith, b))
  segments-Carried (suc fuel) (x ∷ xs) t u p b =
      let msg = x ∷ xs in
      let m = min 65519 (length msg) in
      let len_first : length (take m msg) ≡ m = omega (arith, length-take m msg) in
      let len_rest : length (drop m msg) ≡ length msg - m = length-drop m msg in
      let (c1, t1, u1, w1, l1, r1, p1) =
        laws.segment t u (take m msg) p (omega (arith, len_first)) in
      let (c2, t2, u2, w2, l2, r2, p2) =
        segments-Carried fuel (drop m msg) t1 u1 p1 (omega (arith, len_rest, b)) in
      let total : length (c1 ++ c2) ≡ encrypted_len (length msg) =
        omega (arith, length-append c1 c2, l1, l2, len_first, len_rest) in
      (
        c1 ++ c2,
        t2,
        u2,
        write_segments-round n fuel (encrypted_len (length (drop m msg))) msg c1 c2 t t1 t2
              (omega arith) w1 w2
            ∙ ap (λ k. ok (k, c1 ++ c2, t2)) (omega (arith, l1, l2, len_first, len_rest)),
        total,
        λ enough e.
            read_segments-joined n enough (length msg) c1 c2 (take m msg) (drop m msg) u u1 u2
              (omega arith) (omega (arith, l1, len_first)) (l2 ∙ ap encrypted_len len_rest) r1
              (omega (arith, len_first)) r2 e
            ∙ ap (λ x. ok (x, u2)) (take-append-drop m msg),
        p2,
      )

  write_frame :
      (msg stream ct : List ℕ) (t t' : n.TransportState)
      → write_segments n (length msg) msg t ≡ ok (encrypted_len (length msg), ct, t')
      → write_message_to_stream n msg t stream
        ≡ ok (
          encrypted_len (length msg),
          t',
          stream ++ (le_bytes (encrypted_len (length msg)) ++ ct),
        )
  unfolding write_message_to_stream write_message
  write_frame msg stream ct t t' w = rw w (
      ap (λ s. ok (encrypted_len (length msg), t', s))
        (append_assoc stream (le_bytes (encrypted_len (length msg))) ct))

  read_frame :
      (msg ct more : List ℕ) (k : ℕ) (u u' : n.TransportState)
      → length ct ≡ k
      → k < 4294967296
      → read_segments n k ct k u ≡ ok (msg, u')
      → read_message_from_stream n u (le_bytes k ++ (ct ++ more)) ≡ ok (msg, u', more)
  unfolding read_message_from_stream read_message
  read_frame msg ct more k u u' l b r =
      let four : ltb (length (le_bytes k ++ (ct ++ more))) 4 ≡ false = ground arith in
      let value = le_bytes-from k b in
      let all : ltb (length (ct ++ more)) k ≡ false = ground (arith, length-append ct more, l) in
      elim (Bool-cases (nat_beq k 0)) [
        | inl y ↦
            let none_left : k ≡ 0 = ground (arith, y) in
            let empty : ok ([], u) ≡ ok (msg, u') =
              sym (read_segments-nil n k ct u)
              ∙ ap (λ j. read_segments n k ct j u) (sym none_left)
              ∙ r in
            rw (four, value, y)
              (ap (λ x. x >>= λ y. ok (y.0, y.1, ct ++ more)) empty
                ∙ ap (λ b. ok (msg, u', b ++ more)) (no_bytes ct (l ∙ none_left)))
        | inr f ↦
            let cut : take k (ct ++ more) ≡ ct =
              ap (λ j. take j (ct ++ more)) (sym l) ∙ take-append_length ct more in
            let rest : drop k (ct ++ more) ≡ more =
              ap (λ j. drop j (ct ++ more)) (sym l) ∙ drop-append_length ct more in
            rw (four, value, f, all, cut, rest, r) refl
      ]

  -- The frame of a message whose encryption has fewer than 2^32 bytes, and both sides behind it.
  abbrev pub Framed : List ℕ → List ℕ → n.TransportState → n.TransportState → Type 0
  Framed msg stream t u =
      (frame : List ℕ) × (t' : n.TransportState) × (u' : n.TransportState)
      × (write_message_to_stream n msg t stream
          ≡ ok (encrypted_len (length msg), t', stream ++ frame))
      × (length frame ≡ 4 + encrypted_len (length msg))
      × ((more : List ℕ) → read_message_from_stream n u (frame ++ more) ≡ ok (msg, u', more))
      × laws.Paired t' u'

  pub message-Framed :
      (msg stream : List ℕ) (t u : n.TransportState)
      → laws.Paired t u
      → encrypted_len (length msg) < 4294967296
      → Framed msg stream t u
  message-Framed msg stream t u p b = framed (segments-Carried (length msg) msg t u p (omega arith))
    where
      framed : Carried (length msg) msg t u → Framed msg stream t u
      framed (ct, t', u', w, l, r, p') = (
        le_bytes (encrypted_len (length msg)) ++ ct,
        t',
        u',
        write_frame msg stream ct t t' w,
        omega (arith, l),
        λ more.
            ap (λ s. read_message_from_stream n u s)
              (append_assoc (le_bytes (encrypted_len (length msg))) ct more)
            ∙ read_frame msg ct more (encrypted_len (length msg)) u u' l b
                (ap (λ k. read_segments n k ct k u) (sym l) ∙ r (length ct) (omega arith)),
        p',
      )
