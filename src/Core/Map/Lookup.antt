-- ===== src/Core/Map/Lookup.antt =====
-- Lookups after changes of a map.
use cable_rs.Base.{
  ◌≡◌, ◌≢◌, refl, false, [], ◌∷◌, none, some, All, inl, inr, Bool-cases, Option-cases,
}
use cable_rs.Base.Equality.{Eq, ◌==◌, ==_refl}
use cable_rs.Core.Map.{Map, lookup, insert, upsert, adjust, map_values}
use mathlib.Core.Option as Option
use mathlib.Core.Path.{subst}

pub ==_false {ℓ} : {K : Type ℓ} ⦃e : Eq K⦄ (a b : K) → a ≢ b → (a == b) ≡ false
==_false ⦃e⦄ a b h = elim (Bool-cases (a == b)) [
  | inl t ↦ absurd (h ((e.beq_iff a b).0 t))
  | inr f ↦ f
]

module _ {ℓ κ} {K : Type ℓ} {V : Type κ} ⦃e : Eq K⦄ where
  pub lookup-insert : (k : K) (v : V) (m : Map K V) → lookup k (insert k v m) ≡ some v
  lookup-insert k v [] = rw (==_refl k) refl
  lookup-insert k v ((j, w) ∷ m) = elim (Bool-cases (k == j)) [
    | inl t ↦ rw t (rw t refl)
    | inr f ↦ rw f (rw f (lookup-insert k v m))
  ]

  pub lookup-insert_other :
      (k l : K) (v : V) (m : Map K V) → l ≢ k → lookup l (insert k v m) ≡ lookup l m
  lookup-insert_other k l v [] h = rw (==_false l k h) refl
  lookup-insert_other k l v ((j, w) ∷ m) h = elim (Bool-cases (k == j)) [
    | inl t ↦ rw t (rw (==_false l j (λ s. h (cc (s, (e.beq_iff k j).0 t)))) refl)
    | inr f ↦ elim (Bool-cases (l == j)) [
      | inl t ↦ rw (f, t) refl
      | inr g ↦ rw (f, g) (lookup-insert_other k l v m h)
    ]
  ]

  pub lookup-map_values :
      (f : V → V) (k : K) (m : Map K V) → lookup k (map_values f m) ≡ Option.map f (lookup k m)
  lookup-map_values f k [] = refl
  lookup-map_values f k ((j, w) ∷ m) = elim (Bool-cases (k == j)) [
    | inl t ↦ rw t refl
    | inr g ↦ rw g (lookup-map_values f k m)
  ]

  pub lookup-upsert :
      (k : K) (f : V → V) (v : V) (m : Map K V)
      → lookup k (upsert k f v m) ≡ some (elim (lookup k m) [ some w ↦ f w | none ↦ v ])
  lookup-upsert k f v m = elim (Option-cases (lookup k m)) [
    | inl n ↦ rw (n, upsert) (lookup-insert k v m)
    | inr (w, s) ↦ rw (s, upsert) (lookup-insert k (f w) m)
  ]

  pub lookup-upsert_other :
      (k l : K) (f : V → V) (v : V) (m : Map K V) → l ≢ k → lookup l (upsert k f v m) ≡ lookup l m
  lookup-upsert_other k l f v m h = elim (Option-cases (lookup k m)) [
    | inl n ↦ rw (n, upsert) (lookup-insert_other k l v m h)
    | inr (w, s) ↦ rw (s, upsert) (lookup-insert_other k l (f w) m h)
  ]

  pub lookup-adjust :
      (k : K) (f : V → V) (m : Map K V) → lookup k (adjust k f m) ≡ Option.map f (lookup k m)
  lookup-adjust k f m = elim (Option-cases (lookup k m)) [
    | inl n ↦ rw (n, adjust) n
    | inr (w, s) ↦ rw (s, adjust) (lookup-insert k (f w) m)
  ]

  pub lookup-adjust_other :
      (k l : K) (f : V → V) (m : Map K V) → l ≢ k → lookup l (adjust k f m) ≡ lookup l m
  lookup-adjust_other k l f m h = elim (Option-cases (lookup k m)) [
    | inl n ↦ rw (n, adjust) refl
    | inr (w, s) ↦ rw (s, adjust) (lookup-insert_other k l (f w) m h)
  ]

  -- A property of every value of a map.
  abbrev pub Values : (V → Type 0) → Map K V → Type 0
  Values P m = All (λ x. P x.1) m

  pub Values-lookup :
      (P : V → Type 0) (k : K) (v : V) (m : Map K V) → Values P m → lookup k m ≡ some v → P v
  Values-lookup P k v [] h s = absurd cc
  Values-lookup P k v ((j, w) ∷ m) h s = elim (Bool-cases (k == j)) [
    | inl t ↦
        let same : some w ≡ some v = rw (← s, t) refl in let e : w ≡ v = cc same in subst P e h.0
    | inr f ↦ Values-lookup P k v m h.1 (rw (← s, f) refl)
  ]

  pub Values-insert :
      (P : V → Type 0) (k : K) (v : V) (m : Map K V) → Values P m → P v → Values P (insert k v m)
  Values-insert P k v [] h p = (p, tt)
  Values-insert P k v ((j, w) ∷ m) h p = elim (Bool-cases (k == j)) [
    | inl t ↦ rw t (p, h.1)
    | inr f ↦ rw f (h.0, Values-insert P k v m h.1 p)
  ]

  pub Values-upsert :
      (P : V → Type 0) (k : K) (f : V → V) (v : V) (m : Map K V)
      → Values P m
      → P v
      → ((w : V) → P w → P (f w))
      → Values P (upsert k f v m)
  Values-upsert P k f v m h p keeps = elim (Option-cases (lookup k m)) [
    | inl n ↦ rw (n, upsert) (Values-insert P k v m h p)
    | inr (w, s) ↦
        rw (s, upsert) (Values-insert P k (f w) m h (keeps w (Values-lookup P k w m h s)))
  ]

  pub Values-map_values :
      (P Q : V → Type 0) (f : V → V) (m : Map K V)
      → Values P m
      → ((w : V) → P w → Q (f w))
      → Values Q (map_values f m)
  Values-map_values P Q f [] h keeps = tt
  Values-map_values P Q f ((j, w) ∷ m) h keeps = (keeps w h.0, Values-map_values P Q f m h.1 keeps)
