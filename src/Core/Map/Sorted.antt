-- ===== src/Core/Map/Sorted.antt =====
-- The order of a tree's keys, and its last entry.
use cable_rs.Base.{
  ℕ, ◌≤◌, ◌<◌, ◌≡◌, ◌∙◌, refl, Bool, [], ◌∷◌, none, some, All, Bool-cases, inl, inr, nat_beq,
  nat_beq_iff, sym, le→leb, lt→not_leb, ltb→lt, ltb, leb, if◌then◌else◌, arith,
}
use cable_rs.Core.Map.{Tree, tree_insert, retain, map_values, last}
use cable_rs.Core.Map.Retain.{All-retain_keep}

module _ {ℓ} {V : Type ℓ} where
  abbrev pub Above : ℕ → Tree V → Type 0
  Above k t = All (λ e. k < e.0) t

  -- Each key is smaller than those behind it.
  abbrev pub Sorted : Tree V → Type 0
  Sorted [] = Unit
  Sorted ((k, v) ∷ t) = Above k t × Sorted t

  -- The largest timestamp of a sorted tree; 0 where there is none.
  abbrev pub last_key : Tree V → ℕ
  last_key t = elim (last t) [ some e ↦ e.0 | none ↦ 0 ]

  Above-weaken : (j k : ℕ) (t : Tree V) → j ≤ k → Above k t → Above j t
  Above-weaken j k [] le h = tt
  Above-weaken j k ((i, w) ∷ t) le h = (omega (arith, h.0), Above-weaken j k t le h.1)

  Above-tree_insert :
      (j k : ℕ) (v : V) (t : Tree V) → j < k → Above j t → Above j (tree_insert k v t)
  Above-tree_insert j k v [] lt h = (lt, tt)
  Above-tree_insert j k v ((i, w) ∷ t) lt h = elim (Bool-cases (nat_beq k i)) [
    | inl e ↦ rw e h
    | inr e ↦ elim (Bool-cases (ltb k i)) [
      | inl f ↦ rw (e, f) (lt, h)
      | inr f ↦ rw (e, f) (h.0, Above-tree_insert j k v t lt h.1)
    ]
  ]

  pub Sorted-tree_insert : (k : ℕ) (v : V) (t : Tree V) → Sorted t → Sorted (tree_insert k v t)
  Sorted-tree_insert k v [] h = (tt, tt)
  Sorted-tree_insert k v ((i, w) ∷ t) h = elim (Bool-cases (nat_beq k i)) [
    | inl e ↦ rw e h
    | inr e ↦ elim (Bool-cases (ltb k i)) [
      | inl f ↦ rw (e, f) ((ground (arith, f), Above-weaken k i t (ground (arith, f)) h.0), h)
      | inr f ↦
          rw (e, f)
            (Above-tree_insert i k v t (ground (arith, e, f)) h.0, Sorted-tree_insert k v t h.1)
    ]
  ]

  pub Sorted-retain : (p : ℕ × V → Bool) (t : Tree V) → Sorted t → Sorted (retain p t)
  Sorted-retain p [] h = tt
  Sorted-retain p ((k, v) ∷ t) h = elim (Bool-cases (p (k, v))) [
    | inl e ↦ rw e (All-retain_keep p (λ x. k < x.0) t h.0, Sorted-retain p t h.1)
    | inr e ↦ rw e (Sorted-retain p t h.1)
  ]

  Above-map_values : (f : V → V) (k : ℕ) (t : Tree V) → Above k t → Above k (map_values f t)
  Above-map_values f k [] h = tt
  Above-map_values f k ((i, w) ∷ t) h = (h.0, Above-map_values f k t h.1)

  pub Sorted-map_values : (f : V → V) (t : Tree V) → Sorted t → Sorted (map_values f t)
  Sorted-map_values f [] h = tt
  Sorted-map_values f ((k, v) ∷ t) h = (Above-map_values f k t h.0, Sorted-map_values f t h.1)

  -- A tree to which an entry was added has a last one.
  last-cons :
      (x : ℕ × V) (k : ℕ) (v : V) (t : Tree V)
      → last (x ∷ tree_insert k v t) ≡ last (tree_insert k v t)
  last-cons x k v [] = refl
  last-cons x k v ((i, w) ∷ t) = elim (Bool-cases (nat_beq k i)) [
    | inl e ↦ rw e refl
    | inr e ↦ elim (Bool-cases (ltb k i)) [ inl f ↦ rw (e, f) refl | inr f ↦ rw (e, f) refl ]
  ]

  Above-last_key : (k : ℕ) (x : ℕ × V) (t : Tree V) → Above k (x ∷ t) → k < last_key (x ∷ t)
  Above-last_key k x [] h = h.0
  Above-last_key k x (y ∷ t) h = Above-last_key k y t h.1

  -- An entry that is not older than the last one becomes the last one, and no other does.
  pub last-tree_insert :
      (k : ℕ) (v : V) (t : Tree V)
      → Sorted t
      → last (tree_insert k v t) ≡ (if leb (last_key t) k then some (k, v) else last t)
  last-tree_insert k v [] h = rw (le→leb 0 k (omega arith)) refl
  last-tree_insert k v ((i, w) ∷ []) h = elim (Bool-cases (nat_beq k i)) [
    | inl e ↦
        let same : i ≡ k = sym ((nat_beq_iff k i).0 e) in
        rw (e, le→leb i k (omega (arith, same))) (λ j. some (same j, v))
    | inr e ↦ elim (Bool-cases (ltb k i)) [
      | inl f ↦ rw (e, f, lt→not_leb i k (ltb→lt k i f)) refl
      | inr f ↦ rw (e, f, le→leb i k (ground (arith, f))) refl
    ]
  ]
  last-tree_insert k v ((i, w) ∷ x ∷ t) h = elim (Bool-cases (nat_beq k i)) [
    | inl e ↦
        let same : k ≡ i = (nat_beq_iff k i).0 e in
        rw (e, lt→not_leb (last_key (x ∷ t)) k (omega (arith, Above-last_key i x t h.0, same))) refl
    | inr e ↦ elim (Bool-cases (ltb k i)) [
      | inl f ↦
          rw
            (
              e,
              f,
              lt→not_leb (last_key (x ∷ t)) k
                  (omega (arith, Above-last_key i x t h.0, ltb→lt k i f)),
            )
            refl
      | inr f ↦ rw (e, f) (last-cons (i, w) k v (x ∷ t) ∙ last-tree_insert k v (x ∷ t) h.1)
    ]
  ]
