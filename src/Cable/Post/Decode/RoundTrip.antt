-- ===== src/Cable/Post/Decode/RoundTrip.antt =====
-- Decoding an encoded post gives the post back.
use cable_rs.Base.{
  ℕ, zero, suc, ◌+◌, ◌≤◌, ◌<◌, ◌≡◌, true, List, [], ◌∷◌, ◌++◌, length, length-append, All, arith,
  nat_beq, sym,
}
use cable_rs.Cable.Error.{Outcome, ok}
use cable_rs.Cable.Fields.{sized_bytes, Reads-get_sized, Reads-get_counted_hashes, get_sized}
use cable_rs.Cable.Post.{
  PostBody, Post, text, delete, info, topic, join, leave, unrecognized, body_type,
}
use cable_rs.Cable.Post.Encode.{to_bytes, count_bytes}
use cable_rs.Cable.Post.Encode.Bytes.{
  InfoFits, BodyFits, BodyFits-type, info_bytes, body_bytes, post_bytes,
}
use cable_rs.Cable.Post.Encode.Written.{to_bytes_lem}
use cable_rs.Cable.Post.Decode.{
  key_val, get_channel_name, read_text, read_delete, read_infos, read_pair, read_info, read_topic,
  read_join, read_leave, read_body, read_post, from_bytes,
}
use cable_rs.Cable.Post.Decode.Valid.{
  IsChannel, IsInfo, BodyValid, IsPost, validate_channel-ok, validate_text-ok, validate_topic-ok,
  key_val-ok,
}
use cable_rs.Cable.Reader.{
  Reads, Reads-bind, Reads-bind_last, Reads-pure, Reads-lift, Reads-get_varint, Reads-get_slice,
  Reads-get_string, Reads-else, Reads-eq, pure, lift, get_slice, ◌>>=◌, ◌>>◌,
}
use cable_rs.Cable.Types.{UserInfo}
use cable_rs.Cable.Utf8.{valid_utf8}
use cable_rs.Cable.Validation.{validate_channel, validate_text, validate_topic}
use cable_rs.Cable.Desert.{Desert, DesertLaws, Fits}
use mathlib.Core.Path.{subst}
use mathlib.Core.List.{flat_map, append_assoc}

module _ (v : Desert) (laws : DesertLaws v) where
  Reads-get_channel_name :
      (c : List ℕ) → Fits (length c) → IsChannel c → Reads (get_channel_name v) (sized_bytes v c) c
  unfolding get_channel_name
  Reads-get_channel_name c fits h = Reads-bind_last _ _ _ _ _ (Reads-get_sized v laws c fits h.0) (
      Reads-bind_last _ _ _ _ _ (Reads-lift (validate_channel c) tt (validate_channel-ok c h))
        (Reads-pure c))

  Reads-pair :
      (u : UserInfo)
      → InfoFits u
      → IsInfo u
      → Reads (read_pair v (length u.key)) (u.key ++ sized_bytes v u.val) u
  unfolding read_pair
  Reads-pair u fits h = Reads-bind _ _ _ _ _ _ (Reads-get_string u.key h.1) (
      Reads-bind_last _ _ _ _ _ (Reads-get_sized v laws u.val fits.1 h.2)
        (Reads-lift (key_val u.key u.val) u (key_val-ok u h)))

  -- The pairs and the 0 behind them, with fuel for each pair and one more round.
  Reads-infos :
      (fuel : ℕ) (i : List UserInfo)
      → length i < fuel
      → All InfoFits i
      → All IsInfo i
      → Reads (read_infos v fuel) (flat_map (info_bytes v) i ++ v.encode 0) i
  unfolding read_infos flat_map
  Reads-infos zero i lt fits h = absurd (omega arith)
  Reads-infos (suc fuel) [] lt fits h =
      Reads-bind_last _ _ _ 0 _ (Reads-get_varint v laws 0 (omega arith)) (Reads-pure [])
  Reads-infos (suc fuel) (u ∷ i) lt fits h =
      Reads-eq _ _ _ _ (brackets (v.encode (length u.key)) u.key (sized_bytes v u.val) _ _) (
        Reads-bind _ _ _ _ _ _ (Reads-get_varint v laws (length u.key) fits.0.0) (
          Reads-else (nat_beq (length u.key) 0) _ _ _ _ (ground (arith, h.0.0)) (
            Reads-bind _ _ _ _ _ _ (Reads-pair u fits.0 h.0) (
              Reads-bind_last _ _ _ _ _ (Reads-infos fuel i (omega arith) fits.1 h.1)
                (Reads-pure (u ∷ i))))))
    where
      brackets : (a b c d e : List ℕ) → a ++ ((b ++ c) ++ (d ++ e)) ≡ (((a ++ b) ++ c) ++ d) ++ e
      brackets a b c d e = simp append_assoc

  length-le-infos :
      (i : List UserInfo) → All InfoFits i → length i ≤ length (flat_map (info_bytes v) i)
  unfolding flat_map
  length-le-infos [] h = omega arith
  length-le-infos (u ∷ i) h = ground (
    arith,
    length-le-infos i h.1,
    length-append (info_bytes v u) (flat_map (info_bytes v) i),
    length-append (sized_bytes v u.key) (sized_bytes v u.val),
    length-append (v.encode (length u.key)) u.key,
    laws.length-encode (length u.key) h.0.0,
    laws.size_groups (length u.key) h.0.0,
  )

  Reads-info :
      (i : List UserInfo)
      → All InfoFits i
      → All IsInfo i
      → Reads (read_info v) (body_bytes v (info i)) (info i)
  unfolding read_info
  Reads-info i fits h = record {
    run = λ o rest.
        let bs = flat_map (info_bytes v) i ++ v.encode 0 in
        (Reads-bind_last _ (λ i. pure (info i)) bs i (info i)
            (Reads-infos (suc (length (bs ++ rest))) i
              (omega (
                arith,
                length-append bs rest,
                length-append (flat_map (info_bytes v) i) (v.encode 0),
                length-le-infos i fits,
              ))
              fits h)
            (Reads-pure (info i))).run
          o rest;
  }

  Reads-two :
      (check : List ℕ → Outcome (Unit {0})) (mk : List ℕ → List ℕ → PostBody) (c t : List ℕ)
      → Fits (length c)
      → Fits (length t)
      → IsChannel c
      → valid_utf8 t ≡ true
      → check t ≡ ok tt
      → Reads
          (do c ← get_channel_name v; t ← get_sized v; lift (check t); pure (mk c t))
          (sized_bytes v c ++ sized_bytes v t)
          (mk c t)
  Reads-two check mk c t fc ft hc ut e = Reads-bind _ _ _ _ _ _ (Reads-get_channel_name c fc hc) (
      Reads-bind_last _ _ _ _ _ (Reads-get_sized v laws t ft ut)
        (Reads-bind_last _ _ _ _ _ (Reads-lift (check t) tt e) (Reads-pure (mk c t))))

  Reads-body :
      (b : PostBody)
      → BodyFits b
      → BodyValid b
      → Reads (read_body v (body_type b)) (body_bytes v b) b
  unfolding read_body read_text read_topic read_delete read_join read_leave
  Reads-body (text c t) fits h =
      Reads-two validate_text text c t fits.0 fits.1 h.0 h.1.0 (validate_text-ok t h.1)
  Reads-body (delete hashes) fits h =
      Reads-bind_last _ _ _ _ _ (Reads-get_counted_hashes v laws hashes fits) (Reads-pure _)
  Reads-body (info i) fits h = Reads-info i fits h
  Reads-body (topic c t) fits h =
      Reads-two validate_topic topic c t fits.0 fits.1 h.0 h.1.0 (validate_topic-ok t h.1)
  Reads-body (join c) fits h =
      Reads-bind_last _ _ _ _ _ (Reads-get_channel_name c fits h) (Reads-pure _)
  Reads-body (leave c) fits h =
      Reads-bind_last _ _ _ _ _ (Reads-get_channel_name c fits h) (Reads-pure _)
  Reads-body (unrecognized _) fits h = absurd h

  Reads-post : (p : Post) → IsPost p → Reads (read_post v) (post_bytes v p) p
  unfolding read_post
  Reads-post p h =
      let w = h.writable in
      let hd = p.header in
      let q : Reads (get_slice 32) hd.public_key hd.public_key =
        rw (← w.public_key) (Reads-get_slice hd.public_key) in
      let s : Reads (get_slice 64) hd.signature hd.signature =
        rw (← w.signature) (Reads-get_slice hd.signature) in
      let same : record { header = record hd { post_type = body_type p.body }; body = p.body } ≡ p =
        λ i. record { header = record hd { post_type = sym h.post_type i }; body = p.body } in
      Reads-bind _ _ _ _ _ _ q (
        Reads-bind _ _ _ _ _ _ s (
          Reads-bind _ _ _ _ _ _ (Reads-get_counted_hashes v laws hd.links w.links) (
            Reads-bind _ _ _ _ _ _
              (Reads-get_varint v laws (body_type p.body) (BodyFits-type p.body w.body))
              (Reads-bind _ _ _ _ _ _ (Reads-get_varint v laws hd.timestamp w.timestamp) (
                Reads-bind_last _ _ _ _ _ (Reads-body p.body w.body h.valid)
                  (subst (Reads _ []) same (Reads-pure _)))))))

  -- The bytes of a post of the protocol decode to it, whatever follows them.
  pub from_bytes-post_bytes :
      (p : Post) (rest : List ℕ)
      → IsPost p
      → from_bytes v (post_bytes v p ++ rest) ≡ ok (count_bytes v p, p)
  unfolding from_bytes
  from_bytes-post_bytes p rest h =
      let (e, size) = to_bytes_lem v laws p h.writable in
      let counted : 0 + length (post_bytes v p) ≡ count_bytes v p = omega (arith, size) in
      rw (Reads-post p h).run (λ i. ok (counted i, p))

  -- A post of the protocol encodes to bytes that decode, whatever follows them, to the same post, and
  -- the decoder reports that it read exactly those bytes.
  pub from_bytes-to_bytes :
      (p : Post) (rest : List ℕ)
      → IsPost p
      → (bs : List ℕ) × (to_bytes v p ≡ ok bs)
        × (length bs ≡ count_bytes v p)
        × (from_bytes v (bs ++ rest) ≡ ok (count_bytes v p, p))
  from_bytes-to_bytes p rest h =
      let (e, size) = to_bytes_lem v laws p h.writable in
      (post_bytes v p, e, size, from_bytes-post_bytes p rest h)
