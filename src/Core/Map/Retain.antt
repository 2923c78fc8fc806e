-- ===== src/Core/Map/Retain.antt =====
-- `retain` by a test on an element, on lists and on maps.
use cable_rs.Base.{
  ◌≡◌, ◌≢◌, refl, sym, Bool, true, not, List, [], ◌∷◌, ◌++◌, none, some, All, Option, Bool-cases,
  Option-cases, inl, inr,
}
use cable_rs.Base.Equality.{Eq, ◌==◌}
use cable_rs.Core.Map.{Map, lookup, retain, map, map_values, last}
use cable_rs.Core.Map.Lookup.{==_false, lookup-map_values, Values, Values-lookup}
use mathlib.Core.List.{flat_map}
use mathlib.Core.Option as Option

-- A property of what an option holds.
abbrev pub InSome {ℓ} : {A : Type ℓ} → (A → Type 0) → Option A → Type 0
InSome P none = Unit
InSome P (some a) = P a

pub All-append {ℓ} :
    {A : Type ℓ} (P : A → Type 0) (xs ys : List A) → All P xs → All P ys → All P (xs ++ ys)
All-append P [] ys h k = k
All-append P (x ∷ xs) ys h k = (h.0, All-append P xs ys h.1 k)

module _ {ℓ} {A : Type ℓ} where
  pub All-retain :
      (p : A → Bool) (P : A → Type 0) (xs : List A)
      → ((x : A) → p x ≡ true → P x)
      → All P (retain p xs)
  All-retain p P [] h = tt
  All-retain p P (x ∷ xs) h = elim (Bool-cases (p x)) [
    | inl t ↦ rw t (h x t, All-retain p P xs h)
    | inr f ↦ rw f (All-retain p P xs h)
  ]

  pub All-retain_keep :
      (p : A → Bool) (P : A → Type 0) (xs : List A) → All P xs → All P (retain p xs)
  All-retain_keep p P [] h = tt
  All-retain_keep p P (x ∷ xs) h = elim (Bool-cases (p x)) [
    | inl t ↦ rw t (h.0, All-retain_keep p P xs h.1)
    | inr f ↦ rw f (All-retain_keep p P xs h.1)
  ]

  pub All-map {κ} :
      {B : Type κ} (f : A → B) (P : B → Type 0) (xs : List A)
      → All (λ x. P (f x)) xs
      → All P (map f xs)
  All-map f P [] h = tt
  All-map f P (x ∷ xs) h = (h.0, All-map f P xs h.1)

  pub All-flat_map {κ} :
      {B : Type κ} (f : A → List B) (P : B → Type 0) (xs : List A)
      → All (λ x. All P (f x)) xs
      → All P (flat_map f xs)
  unfolding flat_map
  All-flat_map f P [] h = tt
  All-flat_map f P (x ∷ xs) h = All-append P (f x) (flat_map f xs) h.0 (All-flat_map f P xs h.1)

  pub InSome-last : (P : A → Type 0) (xs : List A) → All P xs → InSome P (last xs)
  InSome-last P [] h = tt
  InSome-last P (x ∷ []) h = h.0
  InSome-last P (x ∷ y ∷ xs) h = InSome-last P (y ∷ xs) h.1

  pub InSome-map {κ} :
      {B : Type κ} (f : A → B) (P : B → Type 0) (o : Option A)
      → InSome (λ x. P (f x)) o
      → InSome P (Option.map f o)
  InSome-map f P none h = tt
  InSome-map f P (some x) h = h

pub InSome-all {ℓ} : {A : Type ℓ} (P : A → Type 0) (o : Option A) → ((a : A) → P a) → InSome P o
InSome-all P none h = tt
InSome-all P (some a) h = h a

pub InSome-then {ℓ κ} :
    {A : Type ℓ} {B : Type κ} (P : A → Type 0) (Q : B → Type 0) (o : Option A) (f : A → Option B)
    → InSome P o
    → ((a : A) → P a → InSome Q (f a))
    → InSome Q (elim o [ some a ↦ f a | none ↦ none ])
InSome-then P Q none f h k = tt
InSome-then P Q (some a) f h k = k a h

-- The test that keeps all but `h`.
pub other-than {ℓ} : {K : Type ℓ} ⦃e : Eq K⦄ (a h : K) → not (a == h) ≡ true → a ≢ h
other-than ⦃e⦄ a h t same = let s : (a == h) ≡ true = (e.beq_iff a h).1 same in absurd (cc (s, t))

module _ {ℓ κ} {K : Type ℓ} {V : Type κ} ⦃e : Eq K⦄ where
  pub lookup-retain : (h : K) (m : Map K V) → lookup h (retain (λ x. not (x.0 == h)) m) ≡ none
  lookup-retain h [] = refl
  lookup-retain h ((j, w) ∷ m) = elim (Bool-cases (j == h)) [
    | inl t ↦ rw t (lookup-retain h m)
    | inr f ↦ rw (f, ==_false h j (λ s. other-than j h (rw f refl) (sym s))) (lookup-retain h m)
  ]

  pub lookup-retain_other :
      (h g : K) (m : Map K V) → g ≢ h → lookup g (retain (λ x. not (x.0 == h)) m) ≡ lookup g m
  lookup-retain_other h g [] n = refl
  lookup-retain_other h g ((j, w) ∷ m) n = elim (Bool-cases (j == h)) [
    | inl t ↦
        rw (t, ==_false g j (λ s. n (cc (s, (e.beq_iff j h).0 t)))) (lookup-retain_other h g m n)
    | inr f ↦ elim (Bool-cases (g == j)) [
      | inl t ↦ rw (f, t) refl
      | inr k ↦ rw (f, k) (lookup-retain_other h g m n)
    ]
  ]

-- Under every key, `retain` left only what passed the test.
pub InSome-retained {ℓ κ} :
    {K : Type ℓ} {A : Type κ} ⦃e : Eq K⦄ (p : A → Bool) (P : A → Type 0) (k : K)
    (m : Map K (List A))
    → ((x : A) → p x ≡ true → P x)
    → InSome (All P) (lookup k (map_values (retain p) m))
InSome-retained p P k m h = rw (lookup-map_values (retain p) k m) (
    InSome-map (retain p) (All P) (lookup k m)
      (InSome-all _ (lookup k m) (λ xs. All-retain p P xs h)))

pub InSome-lookup {ℓ κ} :
    {K : Type ℓ} {V : Type κ} ⦃e : Eq K⦄ (P : V → Type 0) (k : K) (m : Map K V)
    → Values P m
    → InSome P (lookup k m)
InSome-lookup P k m h = elim (Option-cases (lookup k m)) [
  | inl n ↦ rw n tt
  | inr (v, s) ↦ rw s (Values-lookup P k v m h s)
]
