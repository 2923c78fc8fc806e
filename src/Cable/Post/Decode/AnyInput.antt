-- ===== src/Cable/Post/Decode/AnyInput.antt =====
-- `Post::from_bytes` on any input, well formed or not.
use cable_rs.Base.{
  ℕ, ◌≤◌, ◌<◌, ◌≡◌, refl, sym, ◌∙◌, List, ◌++◌, length, length-drop, arith, Bool-cases, inl, inr,
  ◌⊎◌, lt→not_leb, leb, drop,
}
use cable_rs.Cable.Constants
use cable_rs.Cable.Desert.{Desert, DesertLaws, Fits}
use cable_rs.Cable.Error
use cable_rs.Cable.Error.{Outcome, ok, err, panic, stuck}
use cable_rs.Cable.Fields.{HashesFit}
use cable_rs.Cable.Fields.Sound.{Ensures-get_counted_hashes}
use cable_rs.Cable.Post.{PostBody, Post, text, delete, topic, join, leave, unrecognized}
use cable_rs.Cable.Post.Encode.{to_bytes}
use cable_rs.Cable.Post.Decode.{
  read_text, read_delete, read_topic, read_join, read_leave, read_body, read_post, from_bytes,
}
use cable_rs.Cable.Post.Decode.Valid.{IsPost}
use cable_rs.Cable.Post.Decode.RoundTrip.{from_bytes-to_bytes}
use cable_rs.Cable.Post.Decode.Sound.{
  DecodedBody, validate_text-Checks, validate_topic-Checks, Ensures-info, Ensures-two,
  Ensures-channel,
}
use cable_rs.Cable.Reader.{Cursor, get_slice}
use cable_rs.Cable.Reader.Sound.{
  Holds, Ensures, Ensures-pure, Ensures-case, Ensures-bind, Ensures-weaken, Ensures-get_varint,
  Ensures-get_slice,
}
use cable_rs.Cable.Validation.{validate_text, validate_topic}
use mathlib.Core.Path.{subst}

-- The post is of a type that the protocol does not have.
abbrev pub IsUnrecognized : Post → Type 0
IsUnrecognized p =
    (p.body ≡ unrecognized p.header.post_type) × (Constants.leave_post < p.header.post_type)

-- What a decoded buffer comes to: a post that was read from inside the buffer, an error or a panic.
abbrev pub Decoded : List ℕ → Outcome (ℕ × Post) → Type 0
Decoded buf (ok (n, p)) = (n ≤ length buf) × (IsPost p ⊎ IsUnrecognized p)
Decoded buf (err e) = Unit
Decoded buf panic = Unit
Decoded buf stuck = ⊥

module _ (v : Desert) (laws : DesertLaws v) where
  Ensures-delete : (n : ℕ) → Ensures n 0 (read_delete v) (DecodedBody Constants.delete_post)
  unfolding read_delete
  Ensures-delete n =
      Ensures-weaken n 1 _ _ _ (λ _ p. p)
        (Ensures-bind n 1 _ _ _ _ (Ensures-get_counted_hashes v laws n)
          (λ hs p. Ensures-pure _ (delete hs) _ (inl (refl, p, tt))))

  Ensures-body : (n t : ℕ) → Ensures n 0 (read_body v t) (DecodedBody t)
  unfolding read_body read_text read_topic read_join read_leave
  Ensures-body n t =
      Ensures-case DecodedBody n t Constants.text_post _ _
        (Ensures-two v laws Constants.text_post validate_text text _ validate_text-Checks
          (λ c s fc hc fs us le. inl (refl, (fc, fs), (hc, (us, le)))) n)
        (λ n0. Ensures-case DecodedBody n t Constants.delete_post _ _ (Ensures-delete n) (λ n1.
          Ensures-case DecodedBody n t Constants.info_post _ _ (Ensures-info v laws n) (λ n2.
            Ensures-case DecodedBody n t Constants.topic_post _ _
              (Ensures-two v laws Constants.topic_post validate_topic topic _ validate_topic-Checks
                (λ c s fc hc fs us le. inl (refl, (fc, fs), (hc, (us, le)))) n)
              (λ n3.
                Ensures-case DecodedBody n t Constants.join_post _ _
                  (Ensures-channel v laws Constants.join_post join (λ c fc hc. inl (refl, fc, hc))
                    n)
                  (λ n4.
                    Ensures-case DecodedBody n t Constants.leave_post _ _
                      (Ensures-channel v laws Constants.leave_post leave
                        (λ c fc hc. inl (refl, fc, hc)) n)
                      (λ n5.
                        Ensures-pure n (unrecognized t) (DecodedBody t)
                          (inr (refl, omega arith))))))))

  Ensures-read_post : (n : ℕ) → Ensures n 0 (read_post v) (λ p. IsPost p ⊎ IsUnrecognized p)
  unfolding read_post
  Ensures-read_post n =
      Ensures-weaken n 32 _ _ _ (λ _ p. p)
        (Ensures-bind n 32 _ _ _ _ (Ensures-get_slice n 32) λ key hk.
          Ensures-weaken _ 64 _ _ _ (λ _ p. p)
            (Ensures-bind _ 64 _ _ _ _ (Ensures-get_slice _ 64) λ sig hs.
              Ensures-weaken _ 1 _ _ _ (λ _ p. p)
                (Ensures-bind _ 1 _ _ _ _ (Ensures-get_counted_hashes v laws _) λ links hl.
                  Ensures-weaken _ 1 _ _ _ (λ _ p. p)
                    (Ensures-bind _ 1 _ _ _ _ (Ensures-get_varint v laws _) λ t ft.
                      Ensures-weaken _ 1 _ _ _ (λ _ p. p)
                        (Ensures-bind _ 1 _ _ _ _ (Ensures-get_varint v laws _) λ ts fts.
                          Ensures-bind _ 0 _ _ _ _ (Ensures-body _ t) λ b hb.
                            Ensures-pure _ _ _ (post_of key sig links t ts b hk hs hl fts hb))))))
    where
      post_of :
          (key sig : List ℕ) (links : List (List ℕ)) (t ts : ℕ) (b : PostBody)
          → length key ≡ 32
          → length sig ≡ 64
          → HashesFit links
          → Fits ts
          → DecodedBody t b
          → let p : Post = record {
            header = record {
              public_key = key;
              signature = sig;
              links = links;
              post_type = t;
              timestamp = ts;
            };
            body = b;
          } in
            IsPost p ⊎ IsUnrecognized p
      post_of key sig links t ts b hk hs hl fts (inl (same, fits, valid)) = inl (record {
        writable = record {
          public_key = hk;
          signature = hs;
          links = hl;
          timestamp = fts;
          body = fits;
        };
        post_type = same;
        valid = valid;
      })
      post_of key sig links t ts b hk hs hl fts (inr u) = inr u

  -- On any buffer the decoder ends. A post that it returns was read from inside the buffer. Unless
  -- its type is unrecognized, its header names the type of its body, its fields fit their encodings,
  -- and its strings are within the limits that the code checks.
  pub from_bytes-Decoded : (buf : List ℕ) → Decoded buf (from_bytes v buf)
  unfolding from_bytes
  from_bytes-Decoded buf =
      go (read_post v (record { offset = 0; rest = buf }))
        ((Ensures-read_post (length buf)).run (record { offset = 0; rest = buf }) (omega arith))
    where
      go :
          (x : Outcome (Post × Cursor))
          → Holds 0 (λ p. IsPost p ⊎ IsUnrecognized p) (record { offset = 0; rest = buf }) x
          → Decoded buf (Error.◌>>=◌ x (λ r. ok (r.1.offset, r.0)))
      go (ok (p, c)) (hp, same, _) = (omega arith, hp)
      go (err e) h = tt
      go panic h = tt
      go stuck h = absurd h

  -- Whatever bytes a recognized post was decoded from, it can be encoded again, and the bytes so
  -- written decode to it.
  pub reencode :
      (buf rest : List ℕ) (n : ℕ) (p : Post)
      → from_bytes v buf ≡ ok (n, p)
      → p.header.post_type ≤ Constants.leave_post
      → (bs : List ℕ) × (to_bytes v p ≡ ok bs) × (from_bytes v (bs ++ rest) ≡ ok (length bs, p))
  reencode buf rest n p e known =
      let (_, d) = subst (Decoded buf) e (from_bytes-Decoded buf) in
      elim d [
        | inl valid ↦
            let (bs, w, size, r) = from_bytes-to_bytes v laws p rest valid in
            (bs, w, r ∙ λ i. ok (sym size i, p))
        | inr (_, unknown) ↦ absurd (omega arith)
      ]

  -- A buffer of less than 96 bytes, too short for the public key and the signature, makes the
  -- decoder of posts panic.
  pub from_bytes-short : (buf : List ℕ) → length buf < 96 → from_bytes v buf ≡ panic
  unfolding from_bytes read_post get_slice
  from_bytes-short buf h = elim (Bool-cases (leb 32 (length buf))) [
    | inl e ↦ rw e (rw (lt→not_leb 64 (length (drop 32 buf)) (omega (arith, length-drop 32 buf))))
    | inr e ↦ rw e
  ]
