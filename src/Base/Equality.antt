-- ===== src/Base/Equality.antt =====
-- Equality tests as an interface: the keys of the maps are compared through it.
use Prim.Native.Nat.{ℕ}
use mathlib.Core.Path.{◌≡◌, refl, ap}
use mathlib.Core.Option.{Option, none, some}
use mathlib.Core.Logic.{◌↔◌}
use mathlib.Core.Bool.{Bool, true, false, ◌&&◌}
use mathlib.Core.List.{List, [], ◌∷◌}
use native.Mathlib.Omega.{arith}
use cable_rs.Base.Tests.{nat_beq, nat_beq_iff}

-- A test that decides the equality of keys.
pub record Eq {ℓ} (Key : Type ℓ) : Type ℓ where
  pub beq : Key → Key → Bool
  pub beq_iff : (x y : Key) → (beq x y ≡ true) ↔ (x ≡ y)

instance abbrev pub nat_eq : Eq ℕ
nat_eq = record { beq = nat_beq; beq_iff = nat_beq_iff }

infix 50 ◌==◌
abbrev pub ◌==◌ {ℓ} : {Key : Type ℓ} ⦃keys : Eq Key⦄ (x y : Key) → Bool
◌==◌ ⦃keys⦄ x y = keys.beq x y

pub ==_refl {ℓ} : {Key : Type ℓ} ⦃keys : Eq Key⦄ (x : Key) → (x == x) ≡ true
==_refl ⦃keys⦄ x = (keys.beq_iff x x).1 refl

unfoldable pub list_beq : List ℕ → List ℕ → Bool
list_beq [] [] = true
list_beq [] (y ∷ ys) = false
list_beq (x ∷ xs) [] = false
list_beq (x ∷ xs) (y ∷ ys) = nat_beq x y && list_beq xs ys

pub list_beq_iff : (xs ys : List ℕ) → (list_beq xs ys ≡ true) ↔ (xs ≡ ys)
unfolding list_beq
list_beq_iff [] [] = (λ _. refl, λ _. refl)
list_beq_iff [] (y ∷ ys) = (λ h. cc, λ h. cc)
list_beq_iff (x ∷ xs) [] = (λ h. cc, λ h. cc)
list_beq_iff (x ∷ xs) (y ∷ ys) =
    (λ h. ground (arith, list_beq_iff xs ys), λ h. ground (arith, list_beq_iff xs ys))

-- Byte strings: channel names, public keys, hashes, request IDs.
instance abbrev pub bytes_eq : Eq (List ℕ)
bytes_eq = record { beq = list_beq; beq_iff = list_beq_iff }

unfoldable pub option_beq : Option (List ℕ) → Option (List ℕ) → Bool
option_beq none none = true
option_beq none (some y) = false
option_beq (some x) none = false
option_beq (some x) (some y) = list_beq x y

pub option_beq_iff : (x y : Option (List ℕ)) → (option_beq x y ≡ true) ↔ (x ≡ y)
unfolding option_beq
option_beq_iff none none = (λ _. refl, λ _. refl)
option_beq_iff none (some y) = (λ h. cc, λ h. cc)
option_beq_iff (some x) none = (λ h. cc, λ h. cc)
option_beq_iff (some x) (some y) =
    (λ h. ap some ((list_beq_iff x y).0 h), λ h. (list_beq_iff x y).1 cc)

instance abbrev pub option_eq : Eq (Option (List ℕ))
option_eq = record { beq = option_beq; beq_iff = option_beq_iff }
