-- ===== src/Core/Map/Bounds.antt =====
-- The keys of a map that are numbers, with a bound of them.
use cable_rs.Base.{
  ℕ, suc, ◌≡◌, ◌≤◌, refl, Bool, false, List, [], ◌∷◌, none, All, arith, nat_beq, Bool-cases, inl,
  inr,
}
use cable_rs.Base.Equality.{◌==◌, nat_eq}
use cable_rs.Core.Map.{Map, insert, lookup, map, retain}

pub keys_All-insert :
    {V : Type 0} (n k : ℕ) (v : V) (m : Map ℕ V)
    → k ≤ n
    → All (λ i. i ≤ n) (map (λ e. e.0) m)
    → All (λ i. i ≤ n) (map (λ e. e.0) (insert k v m))
keys_All-insert n k v [] b h = (b, tt)
keys_All-insert n k v ((j, w) ∷ m) b h = elim (Bool-cases (k == j)) [
  | inl t ↦ rw t h
  | inr f ↦ rw f (h.0, keys_All-insert n k v m b h.1)
]

pub keys_All-retain :
    {V : Type 0} (n : ℕ) (p : ℕ × V → Bool) (m : Map ℕ V)
    → All (λ i. i ≤ n) (map (λ e. e.0) m)
    → All (λ i. i ≤ n) (map (λ e. e.0) (retain p m))
keys_All-retain n p [] h = tt
keys_All-retain n p (e ∷ m) h = elim (Bool-cases (p e)) [
  | inl t ↦ rw t (h.0, keys_All-retain n p m h.1)
  | inr f ↦ rw f (keys_All-retain n p m h.1)
]

pub All-later : (n : ℕ) (xs : List ℕ) → All (λ i. i ≤ n) xs → All (λ i. i ≤ suc n) xs
All-later n [] h = tt
All-later n (x ∷ xs) h = (let b = h.0 in omega (arith, b), All-later n xs h.1)

pub lookup-later :
    {V : Type 0} (n : ℕ) (m : Map ℕ V)
    → All (λ i. i ≤ n) (map (λ e. e.0) m)
    → lookup (suc n) m ≡ none
lookup-later n [] h = refl
lookup-later n ((j, v) ∷ m) h =
    let b = h.0 in
    let other : nat_beq (suc n) j ≡ false = ground (arith, b) in rw other (lookup-later n m h.1)
