-- ===== src/Handshake/Noise/Toy.antt =====
-- A stand-in for `snow` that has the properties the code relies on, for concrete runs: it sends the
-- keys as they are, and puts 16 bytes behind a segment.
use cable_rs.Base.{
  ℕ, zero, suc, ◌≡◌, ◌∙◌, ◌-◌, refl, sym, ap, arith, List, [], ◌++◌, length, length-append, take,
  take-append_length, replicate, Option, none, some, Bool-cases, inl, inr, ltb, false, ◌≤◌,
  if◌then◌else◌, length-take,
}
use mathlib.Core.Path.{subst}
use cable_rs.Cable.Crypto.Toy.{pad, length-pad}
use cable_rs.Handshake.Noise.{Noise, NoiseLaws}

-- The number of the next message, and the keys.
pub record ToyState : Type 0 where
  pub key : List ℕ
  pub remote : Option (List ℕ)
  pub turn : ℕ

abbrev pub start : List ℕ → ToyState
start k = record { key = pad k; remote = none; turn = 0 }

abbrev pub toy_message : ℕ → List ℕ → List ℕ
toy_message zero k = replicate 48 0
toy_message (suc zero) k = k ++ replicate 64 0
toy_message (suc (suc _)) k = k ++ replicate 32 0

abbrev pub toy_remote : ℕ → List ℕ → Option (List ℕ)
toy_remote zero m = none
toy_remote (suc _) m = some (take 32 m)

abbrev pub toy_noise : Noise
toy_noise = record {
  HandshakeState = ToyState;
  TransportState = Unit;
  build_initiator = λ psk k. some (start k);
  build_responder = λ psk k. some (start k);
  write_message = λ len payload s. some (toy_message s.turn s.key, record s { turn = suc s.turn });
  read_message = λ len m s. some ([], record s { remote = toy_remote s.turn m; turn = suc s.turn });
  get_remote_static = λ s. s.remote;
  into_transport_mode = λ s. some tt;
  write_transport = λ len bs t. some (bs ++ replicate 16 0, t);
  read_transport =
      λ len ct t. if ltb len (length ct - 16) then none else some (take (length ct - 16) ct, t);
}

-- The states before the message of a number.
abbrev pub AtTurn : ℕ → List ℕ → List ℕ → ToyState → ToyState → Type 0
AtTurn n ki kr i r = (i.turn ≡ n) × (r.turn ≡ n) × (i.key ≡ pad ki) × (r.key ≡ pad kr)

pub key_read : (k : List ℕ) (n : ℕ) → take 32 (pad k ++ replicate n 0) ≡ pad k
key_read k n =
    ap (λ j. take j (pad k ++ replicate n 0)) (sym (length-pad k))
    ∙ take-append_length (pad k) (replicate n 0)

pub length-toy_message :
    (k : List ℕ) → (length (toy_message 1 (pad k)) ≡ 96) × (length (toy_message 2 (pad k)) ≡ 64)
length-toy_message k = (
  omega (arith, length-append (pad k) (replicate 64 0), length-pad k),
  omega (arith, length-append (pad k) (replicate 32 0), length-pad k),
)

pub fits :
    (bs : List ℕ) → length bs ≤ 65519 → ltb 65535 (length (bs ++ replicate 16 0) - 16) ≡ false
fits bs b = ground (arith, length-append bs (replicate 16 0), b)

pub toy_bound :
    (len : ℕ) (ct bs : List ℕ)
    → toy_noise.read_transport len ct tt ≡ some (bs, tt)
    → length bs ≤ len
toy_bound len ct bs e = elim (Bool-cases (ltb len (length ct - 16))) [
  | inl t ↦ absurd (cc (e, t))
  | inr f ↦
      let payload : Option (List ℕ × Unit) = some (take (length ct - 16) ct, tt) in
      let read : payload ≡ some (bs, tt) =
        subst (λ b. (if b then none else payload) ≡ some (bs, tt)) f e in
      let same : take (length ct - 16) ct ≡ bs = cc read in
      let size = ap length same in ground (arith, f, length-take (length ct - 16) ct, size)
]

abbrev pub noise_laws : NoiseLaws toy_noise
noise_laws = record {
  public = pad;
  Started = AtTurn 0;
  Greeted = AtTurn 1;
  Answered = AtTurn 2;
  Finished = λ i r. Unit;
  Paired = λ t u. Unit;
  length-public = length-pad;
  builds = λ psk ki kr a b c. (start ki, start kr, refl, refl, (refl, refl, refl, refl));
  first = λ ki kr i r (a, b, c, d). (
    toy_message i.turn i.key,
    record i { turn = suc i.turn },
    record r { remote = toy_remote r.turn (toy_message i.turn i.key); turn = suc r.turn },
    refl,
    ap (λ t. length (toy_message t i.key)) a,
    refl,
    (ap suc a, ap suc b, c, d),
  );
  second = λ ki kr i r (a, b, c, d). (
    toy_message r.turn r.key,
    record r { turn = suc r.turn },
    record i { remote = toy_remote i.turn (toy_message r.turn r.key); turn = suc i.turn },
    refl,
    ap (λ t. length (toy_message t r.key)) b
        ∙ ap (λ k. length (toy_message 1 k)) d
        ∙ (length-toy_message kr).0,
    refl,
    (
      (ap suc a, ap suc b, c, d),
      ap (λ t. toy_remote t (toy_message r.turn r.key)) a
          ∙ ap (λ t. toy_remote 1 (toy_message t r.key)) b
          ∙ ap (λ k. toy_remote 1 (toy_message 1 k)) d
          ∙ ap some (key_read kr 64),
    ),
  );
  third = λ ki kr i r (a, b, c, d). (
    toy_message i.turn i.key,
    record i { turn = suc i.turn },
    record r { remote = toy_remote r.turn (toy_message i.turn i.key); turn = suc r.turn },
    refl,
    ap (λ t. length (toy_message t i.key)) a
        ∙ ap (λ k. length (toy_message 2 k)) c
        ∙ (length-toy_message ki).1,
    refl,
    (
      tt,
      ap (λ t. toy_remote t (toy_message i.turn i.key)) b
          ∙ ap (λ t. toy_remote 2 (toy_message t i.key)) a
          ∙ ap (λ k. toy_remote 2 (toy_message 2 k)) c
          ∙ ap some (key_read ki 32),
    ),
  );
  payload_bound = λ len ct bs t t' e. toy_bound len ct bs e;
  transport = λ i r f. (tt, tt, refl, refl, tt, tt);
  segment = λ t u bs p b. (
    bs ++ replicate 16 0,
    tt,
    tt,
    refl,
    length-append bs (replicate 16 0),
    rw (fits bs b) (
        ap (λ k. some (take k (bs ++ replicate 16 0), tt))
          (omega (arith, length-append bs (replicate 16 0)))
        ∙ ap (λ x. some (x, tt)) (take-append_length bs (replicate 16 0))),
    tt,
  );
}
