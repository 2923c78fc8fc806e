-- ===== src/Cable/Post/Decode/Sound.antt =====
-- What `Post::from_bytes` does on any input.
use cable_rs.Base.{
  ℕ, zero, suc, ◌-◌, ◌≤◌, ◌<◌, ◌≡◌, refl, true, List, [], ◌∷◌, length, All, arith, Bool-cases, inl,
  inr, ◌⊎◌, nat_beq, not, ◌&&◌, leb, ltb,
}
use cable_rs.Base.Equality.{list_beq, list_beq_iff}
use cable_rs.Cable.Constants
use cable_rs.Cable.Desert.{Desert, DesertLaws, Fits}
use cable_rs.Cable.Error.{Outcome}
use cable_rs.Cable.Fields.{get_sized}
use cable_rs.Cable.Fields.Sound.{Ensures-get_sized}
use cable_rs.Cable.Post.{PostBody, info, unrecognized, body_type}
use cable_rs.Cable.Post.Encode.Bytes.{InfoFits, BodyFits}
use cable_rs.Cable.Post.Decode.{key_val, get_channel_name, read_pair, read_infos, read_info}
use cable_rs.Cable.Post.Decode.Valid.{IsChannel, IsInfo, BodyValid}
use cable_rs.Cable.Reader.{pure, lift, ◌>>=◌, ◌>>◌}
use cable_rs.Cable.Reader.Sound.{
  Ensures, Checks, Checks-guard, Ensures-pure, Ensures-lift, Ensures-if, Ensures-bind,
  Ensures-bind_step, Ensures-weaken, Ensures-get_varint, Ensures-get_string,
}
use cable_rs.Cable.Utf8.{valid_utf8, chars_count}
use cable_rs.Cable.Validation.{validate_channel, validate_text, validate_topic, name_key}

-- A body that was read for the type number `t`: one that fits and keeps to the limits, or an
-- unrecognized type.
abbrev pub DecodedBody : ℕ → PostBody → Type 0
DecodedBody t b =
    ((t ≡ body_type b) × BodyFits b × BodyValid b)
    ⊎ ((b ≡ unrecognized t) × (Constants.leave_post < t))

validate_channel-Checks :
    (c : List ℕ) → Checks (λ _. (1 ≤ chars_count c) × (chars_count c ≤ 64)) (validate_channel c)
unfolding validate_channel
validate_channel-Checks c =
    Checks-guard (not (leb 1 (chars_count c) && leb (chars_count c) 64)) _ tt _ (λ e. ground arith)

pub validate_text-Checks : (t : List ℕ) → Checks (λ _. length t ≤ 4096) (validate_text t)
unfolding validate_text
validate_text-Checks t = Checks-guard (ltb 4096 (length t)) _ tt _ (λ e. ground arith)

pub validate_topic-Checks : (t : List ℕ) → Checks (λ _. chars_count t ≤ 521) (validate_topic t)
unfolding validate_topic
validate_topic-Checks t = Checks-guard (ltb 521 (chars_count t)) _ tt _ (λ e. ground arith)

key_val-Checks :
    (key val : List ℕ)
    → 0 < length key
    → valid_utf8 key ≡ true
    → valid_utf8 val ≡ true
    → Fits (length key)
    → Fits (length val)
    → Checks (λ u. InfoFits u × IsInfo u) (key_val key val)
unfolding key_val valid_utf8
key_val-Checks key val pos uk uv fk fv = elim (Bool-cases (list_beq key name_key)) [
  | inl e ↦ rw e (
      Checks-guard (not (leb 1 (chars_count val) && leb (chars_count val) 32)) _ _ _
        (λ g. ((omega arith, fv), (omega arith, refl, uv, λ _. ground arith))))
  | inr e ↦ rw e ((fk, fv), (pos, uk, uv, λ same. cc ((list_beq_iff key name_key).1 same)))
]

module _ (v : Desert) (laws : DesertLaws v) where
  Ensures-get_channel_name :
      (n : ℕ) → Ensures n 1 (get_channel_name v) (λ c. Fits (length c) × IsChannel c)
  unfolding get_channel_name
  Ensures-get_channel_name n = Ensures-bind n 1 _ _ _ _ (Ensures-get_sized v laws n) (λ c p.
      Ensures-bind (n - 1) 0 _ _ _ _
        (Ensures-lift _ (validate_channel c) _ (validate_channel-Checks c))
        (λ _ q. Ensures-pure _ c _ (p.0, (p.1, q.0, q.1))))

  Ensures-pair :
      (n len : ℕ) → 0 < len → Fits len → Ensures n 0 (read_pair v len) (λ u. InfoFits u × IsInfo u)
  unfolding read_pair
  Ensures-pair n len pos fits =
      Ensures-weaken n len _ _ _ (λ _ p. p)
        (Ensures-bind n len _ _ _ _ (Ensures-get_string n len) (λ key p.
          Ensures-weaken _ 1 _ _ _ (λ _ p. p)
            (Ensures-bind (n - len) 1 _ _ _ _ (Ensures-get_sized v laws (n - len)) (λ val q.
              Ensures-lift _ (key_val key val) _
                (key_val-Checks key val (omega (arith, p.0)) p.1 q.1 (omega (arith, p.0)) q.0)))))

  -- With more fuel than bytes left, the loop ends.
  Ensures-infos :
      (fuel n : ℕ) → n < fuel → Ensures n 0 (read_infos v fuel) (λ i. All InfoFits i × All IsInfo i)
  unfolding read_infos
  Ensures-infos zero n lt = absurd (omega arith)
  Ensures-infos (suc fuel) n lt =
      Ensures-weaken n 1 _ _ _ (λ _ p. p)
        (Ensures-bind_step n 1 _ _ Fits _ (Ensures-get_varint v laws n) (λ len fits room.
          Ensures-if _ 0 (nat_beq len 0) _ _ _ (λ e. Ensures-pure _ [] _ (tt, tt))
            (λ e.
              Ensures-bind (n - 1) 0 _ _ _ _ (Ensures-pair (n - 1) len (ground (arith, e)) fits)
                (λ u p.
                  Ensures-bind (n - 1 - 0) 0 _ _ _ _ (Ensures-infos fuel (n - 1 - 0) (omega arith))
                    (λ i q. Ensures-pure _ (u ∷ i) _ ((p.0, q.0), (p.1, q.1)))))))

  pub Ensures-info : (n : ℕ) → Ensures n 0 (read_info v) (DecodedBody Constants.info_post)
  unfolding read_info
  Ensures-info n = record {
    run = λ c le.
        (Ensures-bind (length c.rest) 0 (read_infos v (suc (length c.rest))) (λ i. pure (info i)) _
            _ (Ensures-infos (suc (length c.rest)) (length c.rest) (omega arith))
            (λ i p.
              Ensures-pure _ (info i) (DecodedBody Constants.info_post) (inl (refl, p.0, p.1)))).run
          c (omega arith);
  }

  pub Ensures-two :
      (t : ℕ) (check : List ℕ → Outcome (Unit {0})) (mk : List ℕ → List ℕ → PostBody)
      (P : List ℕ → Type 0)
      → ((s : List ℕ) → Checks (λ _. P s) (check s))
      → ((c s : List ℕ)
          → Fits (length c)
          → IsChannel c
          → Fits (length s)
          → valid_utf8 s ≡ true
          → P s
          → DecodedBody t (mk c s))
      → (n : ℕ)
      → Ensures n 0
          (do c ← get_channel_name v; s ← get_sized v; lift (check s); pure (mk c s))
          (DecodedBody t)
  Ensures-two t check mk P checks build n =
      Ensures-weaken n 1 _ _ _ (λ _ p. p)
        (Ensures-bind n 1 _ _ _ _ (Ensures-get_channel_name n) (λ c p.
          Ensures-weaken _ 1 _ _ _ (λ _ p. p)
            (Ensures-bind (n - 1) 1 _ _ _ _ (Ensures-get_sized v laws (n - 1)) (λ s q.
              Ensures-bind _ 0 _ _ _ _ (Ensures-lift _ (check s) _ (checks s))
                (λ _ r. Ensures-pure _ (mk c s) (DecodedBody t) (build c s p.0 p.1 q.0 q.1 r))))))

  pub Ensures-channel :
      (t : ℕ) (mk : List ℕ → PostBody)
      → ((c : List ℕ) → Fits (length c) → IsChannel c → DecodedBody t (mk c))
      → (n : ℕ) → Ensures n 0 (do c ← get_channel_name v; pure (mk c)) (DecodedBody t)
  Ensures-channel t mk build n =
      Ensures-weaken n 1 _ _ _ (λ _ p. p)
        (Ensures-bind n 1 _ _ _ _ (Ensures-get_channel_name n)
          (λ c p. Ensures-pure _ (mk c) (DecodedBody t) (build c p.0 p.1)))
