-- ===== src/Cable/Message/Decode/Sound.antt =====
-- What reading a message ensures on any input.
use cable_rs.Base.{
  ℕ, zero, suc, ◌-◌, ◌%◌, ◌<◌, ◌≡◌, sym, refl, true, List, [], ◌∷◌, length, All, arith, inl, inr,
  ◌⊎◌, nat_beq,
}
use cable_rs.Cable.Constants
use cable_rs.Cable.Desert.{Desert, DesertLaws, Fits}
use cable_rs.Cable.Error.{Outcome, ok, err, panic, stuck}
use cable_rs.Cable.Fields.{HashesFit, get_sized, get_counted_hashes}
use cable_rs.Cable.Fields.Sound.{Ensures-get_sized, Ensures-get_counted_hashes}
use cable_rs.Cable.Message.{
  MessageBody, Message, post, cancel, channel_time_range, channel_state, channel_list, hash, posts,
  channels, request, response, unrecognized, body_type,
}
use cable_rs.Cable.Message.Encode.Bytes.{ElementFits, BodyFits, IsFitting}
use cable_rs.Cable.Message.Decode.{
  get_ttl, read_hash_response, read_elements, read_all, read_post_response, read_post_request,
  read_cancel_request, read_channel_time_range_request, read_channel_state_request,
  read_channel_list_request, read_channel_list_response, read_body, read_message,
}
use cable_rs.Cable.Message.Decode.RoundTrip.{IsName, BodyValid}
use cable_rs.Cable.Reader.{Reader, Cursor, get_varint, get_slice, get_string}
use cable_rs.Cable.Reader.Sound.{
  Holds, Ensures, Ensures-pure, Ensures-if, Ensures-case, Ensures-bind, Ensures-bind_step,
  Ensures-weaken, Ensures-get_varint, Ensures-get_slice, Ensures-get_string,
}
use cable_rs.Cable.Utf8.{valid_utf8}
use mathlib.Core.Path.{subst}

-- A body that was read for the type number `t`: one that fits and has valid strings, or an
-- unrecognized type.
abbrev pub DecodedBody : ℕ → MessageBody → Type 0
DecodedBody t b =
    ((t ≡ body_type b) × BodyFits b × BodyValid b)
    ⊎ ((b ≡ unrecognized t) × (Constants.channel_list_response < t))

-- A decoded message: its parts fit, its header names the type of its body, and its strings are
-- valid; or its type is one that the protocol does not have.
abbrev pub DecodedMessage : Message → Type 0
DecodedMessage m =
    (IsFitting m × (m.header.msg_type ≡ body_type m.body) × BodyValid m.body)
    ⊎ ((m.body ≡ unrecognized m.header.msg_type)
        × (Constants.channel_list_response < m.header.msg_type))

module _ (v : Desert) (laws : DesertLaws v) where
  Ensures-get_ttl : (n : ℕ) → Ensures n 0 (get_ttl v) (λ t. t < 256)
  unfolding get_ttl
  Ensures-get_ttl n =
      Ensures-weaken n 1 _ _ _ (λ _ p. p)
        (Ensures-bind n 1 _ _ _ _ (Ensures-get_varint v laws n)
          λ t _. Ensures-pure _ (t % 256) _ (omega arith))

  Ensures-varint : (n : ℕ) → Ensures n 0 (get_varint v) Fits
  Ensures-varint n = Ensures-weaken n 1 _ _ _ (λ _ p. p) (Ensures-get_varint v laws n)

  Ensures-sized : (n : ℕ) → Ensures n 0 (get_sized v) (λ s. Fits (length s) × (valid_utf8 s ≡ true))
  Ensures-sized n = Ensures-weaken n 1 _ _ _ (λ _ p. p) (Ensures-get_sized v laws n)

  Ensures-hashes : (n : ℕ) → Ensures n 0 (get_counted_hashes v) HashesFit
  Ensures-hashes n = Ensures-weaken n 1 _ _ _ (λ _ p. p) (Ensures-get_counted_hashes v laws n)

  -- A stronger property with the same step.
  Ensures-keep :
      (n k : ℕ) {r : Reader (List ℕ)} (P Q : List ℕ → Type 0)
      → Ensures n k r P
      → ((s : List ℕ) → P s → Q s)
      → Ensures n k r Q
  Ensures-keep n k {r} P Q e h = record { run = λ c le. go c (r c) (e.run c le) }
    where
      go : (c : Cursor) (x : Outcome (List ℕ × Cursor)) → Holds k P c x → Holds k Q c x
      go c (ok (a, c')) (p, same, adv) = (h a p, same, adv)
      go c (err e) _ = tt
      go c panic _ = tt
      go c stuck f = absurd f

  -- With more fuel than bytes left, the loop over counted elements ends.
  Ensures-elements :
      (get : ℕ → Reader (List ℕ)) (P : List ℕ → Type 0)
      → ((n m : ℕ) → 0 < m → Ensures n m (get m) (λ s. (length s ≡ m) × P s))
      → (fuel n : ℕ) → n < fuel
      → Ensures n 0 (read_elements v get fuel) (λ ss. All ElementFits ss × All P ss)
  unfolding read_elements
  Ensures-elements get P each zero n lt = absurd (omega arith)
  Ensures-elements get P each (suc fuel) n lt =
      Ensures-weaken n 1 _ _ _ (λ _ p. p)
        (Ensures-bind_step n 1 _ _ Fits _ (Ensures-get_varint v laws n) λ len fits room.
          Ensures-if _ 0 (nat_beq len 0) _ _ _ (λ e. Ensures-pure _ [] _ (tt, tt))
            λ e.
              Ensures-weaken _ len _ _ _ (λ _ p. p)
                (Ensures-bind (n - 1) len _ _ _ _ (each (n - 1) len (ground (arith, e))) λ s p.
                  Ensures-bind (n - 1 - len) 0 _ _ _ _
                    (Ensures-elements get P each fuel (n - 1 - len) (omega arith))
                    λ ss q.
                      Ensures-pure _ (s ∷ ss) _ ((subst Fits (sym p.0) fits, q.0), (p.1, q.1))))

  Ensures-read_all :
      (get : ℕ → Reader (List ℕ)) (P : List ℕ → Type 0)
      → ((n m : ℕ) → 0 < m → Ensures n m (get m) (λ s. (length s ≡ m) × P s))
      → (n : ℕ) → Ensures n 0 (read_all v get) (λ ss. All ElementFits ss × All P ss)
  unfolding read_all
  Ensures-read_all get P each n = record {
    run = λ c le.
        (Ensures-elements get P each (suc (length c.rest)) (length c.rest) (omega arith)).run c
          (omega arith);
  }

  Ensures-post_response :
      (n : ℕ) → Ensures n 0 (read_post_response v) (DecodedBody Constants.post_response)
  unfolding read_post_response
  Ensures-post_response n =
      Ensures-bind n 0 _ _ _ _
        (Ensures-read_all get_slice (λ s. 0 < length s)
          (λ n m pos. Ensures-keep n m _ _ (Ensures-get_slice n m) (λ s p. (p, omega (arith, p))))
          n)
        (λ ss h. Ensures-pure _ (response (posts ss)) _ (inl (refl, h.0, h.1)))

  Ensures-channel_list_response :
      (n : ℕ)
      → Ensures n 0 (read_channel_list_response v) (DecodedBody Constants.channel_list_response)
  unfolding read_channel_list_response
  Ensures-channel_list_response n =
      Ensures-bind n 0 _ _ _ _
        (Ensures-read_all get_string IsName
          (λ n m pos.
            Ensures-keep n m _ _ (Ensures-get_string n m) (λ s p. (p.0, (omega (arith, p.0), p.1))))
          n)
        (λ ss h. Ensures-pure _ (response (channels ss)) _ (inl (refl, h.0, h.1)))

  Ensures-hash_response :
      (n : ℕ) → Ensures n 0 (read_hash_response v) (DecodedBody Constants.hash_response)
  unfolding read_hash_response
  Ensures-hash_response n =
      Ensures-bind n 0 _ _ _ _ (Ensures-hashes n)
        (λ hs h. Ensures-pure _ (response (hash hs)) _ (inl (refl, h, tt)))

  Ensures-post_request :
      (n : ℕ) → Ensures n 0 (read_post_request v) (DecodedBody Constants.post_request)
  unfolding read_post_request
  Ensures-post_request n = Ensures-bind n 0 _ _ _ _ (Ensures-get_ttl n) λ ttl t.
      Ensures-bind _ 0 _ _ _ _ (Ensures-hashes _)
        λ hs h. Ensures-pure _ (request ttl (post hs)) _ (inl (refl, (t, h), tt))

  Ensures-cancel_request :
      (n : ℕ) → Ensures n 0 (read_cancel_request v) (DecodedBody Constants.cancel_request)
  unfolding read_cancel_request
  Ensures-cancel_request n = Ensures-bind n 0 _ _ _ _ (Ensures-get_ttl n) λ ttl t.
      Ensures-weaken _ 4 _ _ _ (λ _ p. p)
        (Ensures-bind _ 4 _ _ _ _ (Ensures-get_slice _ 4)
          λ c h. Ensures-pure _ (request ttl (cancel c)) _ (inl (refl, (t, h), tt)))

  Ensures-channel_time_range_request :
      (n : ℕ)
      → Ensures n 0
          (read_channel_time_range_request v)
          (DecodedBody Constants.channel_time_range_request)
  unfolding read_channel_time_range_request
  Ensures-channel_time_range_request n = Ensures-bind n 0 _ _ _ _ (Ensures-get_ttl n) λ ttl t.
      Ensures-bind _ 0 _ _ _ _ (Ensures-sized _) λ c hc.
        Ensures-bind _ 0 _ _ _ _ (Ensures-varint _) λ s hs.
          Ensures-bind _ 0 _ _ _ _ (Ensures-varint _) λ e he.
            Ensures-bind _ 0 _ _ _ _ (Ensures-varint _) λ l hl.
              Ensures-pure _ (request ttl (channel_time_range c s e l)) _
                (inl (refl, (t, (hc.0, hs, he, hl)), hc.1))

  Ensures-channel_state_request :
      (n : ℕ)
      → Ensures n 0 (read_channel_state_request v) (DecodedBody Constants.channel_state_request)
  unfolding read_channel_state_request
  Ensures-channel_state_request n = Ensures-bind n 0 _ _ _ _ (Ensures-get_ttl n) λ ttl t.
      Ensures-bind _ 0 _ _ _ _ (Ensures-sized _) λ c hc.
        Ensures-bind _ 0 _ _ _ _ (Ensures-varint _) λ f hf.
          Ensures-pure _ (request ttl (channel_state c f)) _ (inl (refl, (t, (hc.0, hf)), hc.1))

  Ensures-channel_list_request :
      (n : ℕ)
      → Ensures n 0 (read_channel_list_request v) (DecodedBody Constants.channel_list_request)
  unfolding read_channel_list_request
  Ensures-channel_list_request n = Ensures-bind n 0 _ _ _ _ (Ensures-get_ttl n) λ ttl t.
      Ensures-bind _ 0 _ _ _ _ (Ensures-varint _) λ s hs.
        Ensures-bind _ 0 _ _ _ _ (Ensures-varint _)
          λ l hl. Ensures-pure _ (request ttl (channel_list s l)) _ (inl (refl, (t, (hs, hl)), tt))

  Ensures-body : (n t : ℕ) → Ensures n 0 (read_body v t) (DecodedBody t)
  unfolding read_body
  Ensures-body n t =
      Ensures-case DecodedBody n t Constants.hash_response _ _ (Ensures-hash_response n) λ n0.
        Ensures-case DecodedBody n t Constants.post_response _ _ (Ensures-post_response n) λ n1.
          Ensures-case DecodedBody n t Constants.post_request _ _ (Ensures-post_request n) λ n2.
            Ensures-case DecodedBody n t Constants.cancel_request _ _ (Ensures-cancel_request n)
              λ n3.
                Ensures-case DecodedBody n t Constants.channel_time_range_request _ _
                  (Ensures-channel_time_range_request n)
                  λ n4.
                    Ensures-case DecodedBody n t Constants.channel_state_request _ _
                      (Ensures-channel_state_request n)
                      λ n5.
                        Ensures-case DecodedBody n t Constants.channel_list_request _ _
                          (Ensures-channel_list_request n)
                          λ n6.
                            Ensures-case DecodedBody n t Constants.channel_list_response _ _
                              (Ensures-channel_list_response n)
                              λ n7.
                                Ensures-pure n (unrecognized t) (DecodedBody t)
                                  (inr (refl, omega arith))

  pub Ensures-message : (n : ℕ) → Ensures n 0 (read_message v) DecodedMessage
  unfolding read_message
  Ensures-message n = Ensures-bind n 0 _ _ _ _ (Ensures-varint n) λ len _.
      Ensures-bind _ 0 _ _ _ _ (Ensures-varint _) λ t ft.
        Ensures-weaken _ 4 _ _ _ (λ _ p. p)
          (Ensures-bind _ 4 _ _ _ _ (Ensures-get_slice _ 4) λ circuit hc.
            Ensures-weaken _ 4 _ _ _ (λ _ p. p)
              (Ensures-bind _ 4 _ _ _ _ (Ensures-get_slice _ 4) λ req hr.
                Ensures-bind _ 0 _ _ _ _ (Ensures-body _ t) λ b hb. Ensures-pure _ _ _ (elim hb [
                  | inl (same, fits, valid) ↦
                      inl (record { circuit_id = hc; req_id = hr; body = fits }, same, valid)
                  | inr u ↦ inr u
                ])))
