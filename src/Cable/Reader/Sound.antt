-- ===== src/Cable/Reader/Sound.antt =====
-- What readers do on any input: they end, they stay inside the buffer, and what they return has the
-- properties that they check.
use cable_rs.Base.{
  ℕ, zero, suc, ◌+◌, ◌-◌, ◌≤◌, ◌≡◌, refl, true, false, Bool, List, [], ◌∷◌, length, length-take,
  length-drop, All, ap, sym, ◌≢◌, nat_beq, nat_beq_iff, if◌then◌else◌, Bool-cases, Option-cases,
  inl, inr, ltb, leb, leb→le, arith,
}
use cable_rs.Cable.Error
use cable_rs.Cable.Error.{Error, Outcome, ok, err, panic, stuck}
use cable_rs.Cable.Reader.{
  Cursor, Reader, pure, lift, get_varint, get_slice, get_hash, get_hashes, get_string, check_utf8,
  IsHash, ◌>>=◌,
}
use cable_rs.Cable.Desert.{Desert, DesertLaws, Fits}
use mathlib.Core.Path.{subst}
use cable_rs.Cable.Utf8.{valid_utf8}

-- The result of reading from `c` took `k` bytes at least, lies in the same buffer, and has `P`. An
-- error or a panic is possible; a loop without fuel is not.
abbrev pub Holds {ℓ} : {A : Type ℓ} → ℕ → (A → Type 0) → Cursor → Outcome (A × Cursor) → Type 0
Holds k P c (ok (a, c')) =
    P a × (c'.offset + length c'.rest ≡ c.offset + length c.rest) × (c.offset + k ≤ c'.offset)
Holds k P c (err e) = Unit
Holds k P c panic = Unit
Holds k P c stuck = ⊥

-- On buffers with at most `n` bytes left.
pub record Ensures {ℓ} {A : Type ℓ} (n k : ℕ) (r : Reader A) (P : A → Type 0) : Type ℓ where
  pub run : (c : Cursor) → length c.rest ≤ n → Holds k P c (r c)

pub Ensures-pure {ℓ} : {A : Type ℓ} (n : ℕ) (a : A) (P : A → Type 0) → P a → Ensures n 0 (pure a) P
Ensures-pure n a P p = record { run = λ c h. (p, refl, omega arith) }

Holds-bind {ℓ κ} :
    {A : Type ℓ} {B : Type κ} (n k : ℕ) (P : A → Type 0) (Q : B → Type 0) (f : A → Reader B)
    (c : Cursor) (x : Outcome (A × Cursor))
    → length c.rest ≤ n
    → Holds k P c x
    → ((a : A) → P a → k ≤ n → Ensures (n - k) 0 (f a) Q)
    → Holds k Q c (Error.◌>>=◌ x (λ r. f r.0 r.1))
Holds-bind {B = B} n k P Q f c (ok (a, c')) le (p, same, adv) hf =
    Holds-later (f a c') ((hf a p (omega arith)).run c' (omega arith))
  where
    Holds-later : (y : Outcome (B × Cursor)) → Holds 0 Q c' y → Holds k Q c y
    Holds-later (ok (b, c'')) (q, same', adv') = (q, omega arith, omega arith)
    Holds-later (err e) h = tt
    Holds-later panic h = tt
    Holds-later stuck h = absurd h
Holds-bind n k P Q f c (err e) le h hf = tt
Holds-bind n k P Q f c panic le h hf = tt
Holds-bind n k P Q f c stuck le h hf = absurd h

-- What follows a reader that took `k` bytes has `n - k` bytes left at most.
pub Ensures-bind_step {ℓ κ} :
    {A : Type ℓ} {B : Type κ} (n k : ℕ) (m : Reader A) (f : A → Reader B) (P : A → Type 0)
    (Q : B → Type 0)
    → Ensures n k m P
    → ((a : A) → P a → k ≤ n → Ensures (n - k) 0 (f a) Q)
    → Ensures n k (m >>= f) Q
Ensures-bind_step n k m f P Q hm hf = record {
  run = λ c le. Holds-bind n k P Q f c (m c) le (hm.run c le) hf;
}

pub Ensures-bind {ℓ κ} :
    {A : Type ℓ} {B : Type κ} (n k : ℕ) (m : Reader A) (f : A → Reader B) (P : A → Type 0)
    (Q : B → Type 0)
    → Ensures n k m P
    → ((a : A) → P a → Ensures (n - k) 0 (f a) Q)
    → Ensures n k (m >>= f) Q
Ensures-bind n k m f P Q hm hf = Ensures-bind_step n k m f P Q hm (λ a p _. hf a p)

-- The same for a call that does not read.
abbrev pub Checks {ℓ} : {A : Type ℓ} → (A → Type 0) → Outcome A → Type 0
Checks P (ok a) = P a
Checks P (err e) = Unit
Checks P panic = Unit
Checks P stuck = ⊥

pub Checks-guard {ℓ} :
    {A : Type ℓ} (b : Bool) (e : Error) (a : A) (P : A → Type 0)
    → (b ≡ false → P a)
    → Checks P (if b then err e else ok a)
Checks-guard true e a P h = tt
Checks-guard false e a P h = h refl

pub Checks-bind {ℓ κ} :
    {A : Type ℓ} {B : Type κ} (P : A → Type 0) (Q : B → Type 0) (r : Outcome A) (f : A → Outcome B)
    → Checks P r
    → ((a : A) → P a → Checks Q (f a))
    → Checks Q (Error.◌>>=◌ r f)
Checks-bind P Q (ok a) f h k = k a h
Checks-bind P Q (err e) f h k = tt
Checks-bind P Q panic f h k = tt
Checks-bind P Q stuck f h k = absurd h

pub Ensures-lift {ℓ} :
    {A : Type ℓ} (n : ℕ) (r : Outcome A) (P : A → Type 0) → Checks P r → Ensures n 0 (lift r) P
Ensures-lift n (ok a) P h = record { run = λ c le. (h, refl, omega arith) }
Ensures-lift n (err e) P h = record { run = λ c le. tt }
Ensures-lift n panic P h = record { run = λ c le. tt }
Ensures-lift n stuck P h = absurd h

pub Ensures-if {ℓ} :
    {A : Type ℓ} (n k : ℕ) (b : Bool) (m r : Reader A) (P : A → Type 0)
    → (b ≡ true → Ensures n k m P)
    → (b ≡ false → Ensures n k r P)
    → Ensures n k (if b then m else r) P
Ensures-if n k true m r P hm hr = hm refl
Ensures-if n k false m r P hm hr = hr refl

-- A case of a match on a number `t`.
pub Ensures-case {ℓ} :
    {A : Type ℓ} (D : ℕ → A → Type 0) (n t k : ℕ) (m r : Reader A)
    → Ensures n 0 m (D k)
    → (t ≢ k → Ensures n 0 r (D t))
    → Ensures n 0 (if nat_beq t k then m else r) (D t)
Ensures-case D n t k m r hm hr =
    Ensures-if n 0 (nat_beq t k) m r _
      (λ e. subst (λ j. Ensures n 0 m (D j)) (sym ((nat_beq_iff t k).0 e)) hm)
      (λ e. hr (λ same. cc (e, (nat_beq_iff t k).1 same)))

pub Ensures-get_varint : (v : Desert) → DesertLaws v → (n : ℕ) → Ensures n 1 (get_varint v) Fits
unfolding get_varint
Ensures-get_varint v laws n = record {
  run = λ c le. elim (Option-cases (v.decode c.rest)) [
    | inl e ↦ rw (e, get_varint) tt
    | inr ((s, m), e) ↦
        let (lo, hi, fits) = laws.decode_bounds c.rest s m e in
        rw (e, get_varint) (fits, omega (arith, length-drop s c.rest), omega arith)
  ];
}

pub Ensures-get_slice : (n m : ℕ) → Ensures n m (get_slice m) (λ s. length s ≡ m)
unfolding get_slice
Ensures-get_slice n m = record {
  run = λ c le. elim (Bool-cases (leb m (length c.rest))) [
    | inl e ↦
        let room : m ≤ length c.rest = leb→le _ _ e in
        rw e (omega (arith, length-take m c.rest), omega (arith, length-drop m c.rest), omega arith)
    | inr e ↦ rw e tt
  ];
}

-- A larger bound, a smaller step and a weaker property.
pub Ensures-weaken {ℓ} :
    {A : Type ℓ} (n k : ℕ) (r : Reader A) (P Q : A → Type 0)
    → ((a : A) → P a → Q a)
    → Ensures n k r P
    → Ensures n 0 r Q
Ensures-weaken {A = A} n k r P Q h e = record { run = λ c le. go c (r c) (e.run c le) }
  where
    go : (c : Cursor) (x : Outcome (A × Cursor)) → Holds k P c x → Holds 0 Q c x
    go c (ok (a, c')) (p, same, adv) = (h a p, same, omega arith)
    go c (err e) _ = tt
    go c panic _ = tt
    go c stuck f = absurd f

pub Ensures-get_hash : (n : ℕ) → Ensures n 32 get_hash IsHash
unfolding get_hash
Ensures-get_hash n = record {
  run = λ c le. elim (Bool-cases (ltb (c.offset + length c.rest) (c.offset + 32))) [
    | inl e ↦ rw e tt
    | inr e ↦ rw e ((Ensures-get_slice n 32).run c le)
  ];
}

pub Ensures-get_hashes :
    (n m : ℕ) → Ensures n 0 (get_hashes m) (λ hs. (length hs ≡ m) × All IsHash hs)
unfolding get_hashes
Ensures-get_hashes n zero = Ensures-pure n [] _ (refl, tt)
Ensures-get_hashes n (suc m) =
    Ensures-weaken n 32 _ _ _ (λ _ p. p)
      (Ensures-bind n 32 _ _ IsHash _ (Ensures-get_hash n) (λ h p.
        Ensures-bind (n - 32) 0 _ _ _ _ (Ensures-get_hashes (n - 32) m)
          (λ hs q. Ensures-pure _ (h ∷ hs) _ (ap suc q.0, (p, q.1)))))

pub Ensures-get_string :
    (n m : ℕ) → Ensures n m (get_string m) (λ s. (length s ≡ m) × (valid_utf8 s ≡ true))
unfolding get_string
Ensures-get_string n m =
    Ensures-bind n m _ _ _ _ (Ensures-get_slice n m)
      (λ s p. Ensures-lift _ (check_utf8 s) _ (checked s p))
  where
    checked :
        (s : List ℕ)
        → length s ≡ m
        → Checks (λ s. (length s ≡ m) × (valid_utf8 s ≡ true)) (check_utf8 s)
    checked s p = elim (Bool-cases (valid_utf8 s)) [ inl e ↦ rw e (p, e) | inr e ↦ rw e tt ]
