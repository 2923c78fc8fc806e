-- ===== src/Core/Map.antt =====
-- `HashMap`, `BTreeMap` and `BTreeSet` as association lists and lists.
pub mod Bounds
pub mod Lookup
pub mod Retain
pub mod Sorted
use cable_rs.Base.{
  ℕ, Bool, true, false, List, [], ◌∷◌, Option, none, some, ltb, nat_beq, if◌then◌else◌, ◌||◌, ◌&&◌,
}
use cable_rs.Base.Equality.{Eq, ◌==◌, bytes_eq}

abbrev pub Map {ℓ κ} : Type ℓ → Type κ → Type (ℓ ⊔ κ)
Map K V = List (K × V)

module _ {ℓ κ} {K : Type ℓ} {V : Type κ} ⦃e : Eq K⦄ where
  abbrev pub lookup : K → Map K V → Option V
  lookup k [] = none
  lookup k ((j, v) ∷ m) = let rest = lookup k m in if k == j then some v else rest

  -- A `HashMap`'s iteration order is not specified; here it is that of the first insertions.
  abbrev pub insert : K → V → Map K V → Map K V
  insert k v [] = (k, v) ∷ []
  insert k v ((j, w) ∷ m) = let rest = insert k v m in if k == j then (j, v) ∷ m else (j, w) ∷ rest

  -- `get_mut`, changing the value in place, or else inserting one.
  abbrev pub upsert : K → (V → V) → V → Map K V → Map K V
  upsert k f v m = elim (lookup k m) [ some w ↦ insert k (f w) m | none ↦ insert k v m ]

  -- `get_mut`, changing the value in place where there is one.
  abbrev pub adjust : K → (V → V) → Map K V → Map K V
  adjust k f m = elim (lookup k m) [ some w ↦ insert k (f w) m | none ↦ m ]

module _ {ℓ} {A : Type ℓ} where
  abbrev pub retain : (A → Bool) → List A → List A
  retain p [] = []
  retain p (x ∷ xs) = let rest = retain p xs in if p x then x ∷ rest else rest

  abbrev pub map {κ} : {B : Type κ} → (A → B) → List A → List B
  map f [] = []
  map f (x ∷ xs) = f x ∷ map f xs

  abbrev pub last : List A → Option A
  last [] = none
  last (x ∷ []) = some x
  last (x ∷ y ∷ xs) = last (y ∷ xs)

-- `iter_mut` over the values.
abbrev pub map_values {ℓ κ} : {K : Type ℓ} {V : Type κ} → (V → V) → Map K V → Map K V
map_values f [] = []
map_values f ((k, v) ∷ m) = (k, f v) ∷ map_values f m

-- A `BTreeMap` with a timestamp as its key, in the order of the keys.
abbrev pub Tree {κ} : Type κ → Type κ
Tree V = Map ℕ V

abbrev pub tree_insert {κ} : {V : Type κ} → ℕ → V → Tree V → Tree V
tree_insert k v [] = (k, v) ∷ []
tree_insert k v ((j, w) ∷ m) =
    let rest = tree_insert k v m in
    if nat_beq k j then (j, v) ∷ m else if ltb k j then (k, v) ∷ (j, w) ∷ m else (j, w) ∷ rest

-- The order of `String`: that of the bytes.
abbrev pub bytes_ltb : List ℕ → List ℕ → Bool
bytes_ltb [] [] = false
bytes_ltb [] (y ∷ ys) = true
bytes_ltb (x ∷ xs) [] = false
bytes_ltb (x ∷ xs) (y ∷ ys) = ltb x y || (nat_beq x y && bytes_ltb xs ys)

-- A `BTreeSet` of strings.
abbrev pub set_insert : List ℕ → List (List ℕ) → List (List ℕ)
set_insert x [] = x ∷ []
set_insert x (y ∷ ys) =
    let rest = set_insert x ys in
    if x == y then y ∷ ys else if bytes_ltb x y then x ∷ y ∷ ys else y ∷ rest
