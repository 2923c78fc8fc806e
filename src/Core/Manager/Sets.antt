-- ===== src/Core/Manager/Sets.antt =====
-- The manager's sets of hashes and of request IDs.
use cable_rs.Base.{
  ℕ, ◌≡◌, ◌∙◌, refl, ap, Bool, true, false, ◌||◌, List, [], ◌∷◌, Bool-cases, inl, inr,
  if◌then◌else◌,
}
use cable_rs.Base.Equality.{◌==◌, bytes_eq, nat_eq}
use cable_rs.Core.Manager.{set_remove, set_add, set_extend}
use cable_rs.Cable.Types.{Hash}
use cable_rs.Core.Store.{contains}
use cable_rs.Core.Store.Membership.{
  contains-push, contains-push_other, contains-retain, contains-retain_other,
}

pub contains-set_add : (x : List ℕ) (xs : List (List ℕ)) → contains x (set_add x xs) ≡ true
contains-set_add x xs = elim (Bool-cases (contains x xs)) [
  | inl t ↦ rw (t, set_add) t
  | inr f ↦ rw (f, set_add) (contains-push x xs)
]

pub contains-set_add_any :
    (g x : List ℕ) (xs : List (List ℕ)) → contains g (set_add x xs) ≡ ((g == x) || contains g xs)
contains-set_add_any g x xs = elim (Bool-cases (g == x)) [
  | inl t ↦ rw (t, (bytes_eq.beq_iff g x).0 t) (contains-set_add x xs)
  | inr f ↦ elim (Bool-cases (contains x xs)) [
    | inl t ↦ rw (f, t, set_add) refl
    | inr n ↦
        rw (f, n, set_add)
          (contains-push_other g x xs (λ e. absurd (cc ((bytes_eq.beq_iff g x).1 e, f))))
  ]
]

pub contains-set_add_kept :
    (g x : List ℕ) (xs : List (List ℕ)) → contains g xs ≡ true → contains g (set_add x xs) ≡ true
contains-set_add_kept g x xs e =
    contains-set_add_any g x xs ∙ ap (λ b. (g == x) || b) e ∙ or_true (g == x)
  where
    or_true : (b : Bool) → (b || true) ≡ true
    or_true true = refl
    or_true false = refl

pub contains-set_extend_kept :
    (g : List ℕ) (ys xs : List (List ℕ))
    → contains g xs ≡ true
    → contains g (set_extend ys xs) ≡ true
contains-set_extend_kept g [] xs e = e
contains-set_extend_kept g (y ∷ ys) xs e =
    contains-set_extend_kept g ys (set_add y xs) (contains-set_add_kept g y xs e)

pub contains-set_extend :
    (g : List ℕ) (ys xs : List (List ℕ))
    → contains g (set_extend ys xs) ≡ (contains g ys || contains g xs)
contains-set_extend g [] xs = refl
contains-set_extend g (y ∷ ys) xs =
    contains-set_extend g ys (set_add y xs)
    ∙ any_of (contains g ys) (g == y) (contains g (set_add y xs)) (contains g xs)
        (contains-set_add_any g y xs)
  where
    any_of : (a b d e : Bool) → d ≡ (b || e) → (a || d) ≡ ((if b then true else a) || e)
    any_of true true d e k = refl
    any_of true false d e k = refl
    any_of false true d e k = k
    any_of false false d e k = k

pub contains-set_remove :
    (g h : Hash) (xs : List Hash) → contains g xs ≡ false → contains g (set_remove h xs) ≡ false
contains-set_remove g h xs e = elim (Bool-cases (g == h)) [
  | inl t ↦
      ap (λ x. contains x (set_remove h xs)) ((bytes_eq.beq_iff g h).0 t) ∙ contains-retain h xs
  | inr f ↦ contains-retain_other g h xs (λ x. absurd (cc ((bytes_eq.beq_iff g h).1 x, f))) ∙ e
]
