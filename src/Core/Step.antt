-- ===== src/Core/Step.antt =====
-- Operations that read and change a state and can fail, as the methods of `cable_core` do.
use cable_rs.Base.{◌≡◌, refl}
use cable_rs.Cable.Error.{Outcome, ok, err, panic, stuck}

-- What an operation changed before it failed stays.
abbrev pub Step : Type 0 → Type 0 → Type 0
Step S A = S → Outcome A × S

module _ {S : Type 0} where
  -- What follows a step goes on from its state.
  abbrev pub continue : {A B : Type 0} → (A → Step S B) → Outcome A × S → Outcome B × S
  continue f (ok a, s) = f a s
  continue f (err e, s) = (err e, s)
  continue f (panic, s) = (panic, s)
  continue f (stuck, s) = (stuck, s)

  infixl 5 ◌>>=◌ ◌>>◌
  abbrev pub ◌>>=◌ : {A B : Type 0} → Step S A → (A → Step S B) → Step S B
  ◌>>=◌ m f s = continue f (m s)

  abbrev pub ◌>>◌ : {A B : Type 0} → Step S A → Step S B → Step S B
  m >> k = m >>= λ _. k

  abbrev pub lift : {A : Type 0} → Outcome A → Step S A
  lift r s = (r, s)

  abbrev pub modify : (S → S) → Step S Unit
  modify f s = (ok tt, f s)

  abbrev pub get : Step S S
  get s = (ok s, s)

  pub continue-ok :
      {A B : Type 0} (f : A → Step S B) (x : Outcome A × S) (b : B)
      → (continue f x).0 ≡ ok b
      → (a : A) × (x.0 ≡ ok a)
  continue-ok f (ok a, s) b r = (a, refl)
  continue-ok f (err _, s) b r = absurd cc
  continue-ok f (panic, s) b r = absurd cc
  continue-ok f (stuck, s) b r = absurd cc

  -- What holds of a state, and is kept by what follows, holds at the end.
  pub continue-keeps :
      {A B : Type 0} (P : S → Type 0) (f : A → Step S B) (x : Outcome A × S)
      → P x.1
      → ((a : A) (s : S) → P s → P (f a s).1)
      → P (continue f x).1
  continue-keeps P f (ok a, s) p k = k a s p
  continue-keeps P f (err _, s) p k = p
  continue-keeps P f (panic, s) p k = p
  continue-keeps P f (stuck, s) p k = p

  -- The same, for a step and what follows it from there.
  pub continue-ends :
      {A B : Type 0} (P : S → Type 0) (f : A → Step S B) (x : Outcome A × S)
      → P x.1
      → ((a : A) → x.0 ≡ ok a → P (f a x.1).1)
      → P (continue f x).1
  continue-ends P f (ok a, s) p k = k a refl
  continue-ends P f (err _, s) p k = p
  continue-ends P f (panic, s) p k = p
  continue-ends P f (stuck, s) p k = p
