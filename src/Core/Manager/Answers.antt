-- ===== src/Core/Manager/Answers.antt =====
-- The hashes of an answer.
use cable_rs.Base.{
  ℕ, zero, suc, ◌≡◌, ◌∙◌, ◌-◌, ◌<◌, refl, sym, ap, arith, nat_beq, leb, false, List, [], ◌∷◌, ◌++◌,
  length, take, Bool-cases, inl, inr, min, if◌then◌else◌,
}
use cable_rs.Cable.Types.{ChannelOptions, Hash}
use cable_rs.Core.Manager.Hashes.{collect, range_hashes}
use cable_rs.Core.Store.{MemoryStore, push}
use cable_rs.Core.Store.Posts.{get_post_hashes}
use cable_rs.Cable.Error.{ok}
use mathlib.Core.List.{append-nil}

length-push : (x : Hash) (xs : List Hash) → length (push x xs) ≡ suc (length xs)
length-push x [] = refl
length-push x (y ∷ ys) = ap suc (length-push x ys)

push-append : (x : Hash) (xs ys : List Hash) → push x xs ++ ys ≡ xs ++ (x ∷ ys)
push-append x [] ys = refl
push-append x (z ∷ zs) ys = ap (λ t. z ∷ t) (push-append x zs ys)

take_nil : (n : ℕ) → ◌≡◌ {A = List Hash} (take n []) []
take_nil zero = refl
take_nil (suc n) = refl

collect-below :
    (limit : ℕ) (hashes stream : List Hash)
    → length hashes < limit
    → collect limit hashes stream ≡ hashes ++ take (limit - length hashes) stream
unfolding collect
collect-below limit hashes [] b =
    sym (append-nil hashes) ∙ ap (λ t. hashes ++ t) (sym (take_nil (limit - length hashes)))
collect-below limit hashes (h ∷ stream) b =
    let n = length-push h hashes in
    let some_limit : nat_beq limit 0 ≡ false = ground (arith, b) in
    elim (Bool-cases (leb limit (length (push h hashes)))) [
      | inl t ↦
          let one : limit - length hashes ≡ 1 = ground (arith, b, n, t) in
          rw (some_limit, t, one) refl
      | inr f ↦
          let more : limit - length hashes ≡ suc (limit - length (push h hashes)) =
            ground (arith, b, n, f) in
          rw (some_limit, f, more)
            (collect-below limit (push h hashes) stream (ground (arith, f))
              ∙ push-append h hashes (take (limit - length (push h hashes)) stream))
    ]

collect-unlimited : (hashes stream : List Hash) → collect 0 hashes stream ≡ hashes ++ stream
unfolding collect
collect-unlimited hashes [] = sym (append-nil hashes)
collect-unlimited hashes (h ∷ stream) =
    collect-unlimited (push h hashes) stream ∙ push-append h hashes stream

-- The hashes that a time range request is answered with are the first of those that the store has
-- for it, in its order: 4096 at most, and no more than the limit, or all of them where the limit
-- is 0.
pub range_hashes-take :
    (o : ChannelOptions) (s : MemoryStore) (hs : List Hash)
    → get_post_hashes o s ≡ ok hs
    → range_hashes o s ≡ ok (if nat_beq o.limit 0 then hs else take (min o.limit 4096) hs)
unfolding range_hashes
range_hashes-take o s hs e = elim (Bool-cases (nat_beq o.limit 0)) [
  | inl t ↦
      let none_set : min o.limit 4096 ≡ 0 = ground (arith, t) in
      rw (e, t, none_set) (ap ok (collect-unlimited [] hs))
  | inr f ↦
      let positive : 0 < min o.limit 4096 = ground (arith, f) in
      rw (e, f)
        (ap ok
          (collect-below (min o.limit 4096) [] hs positive ∙ ap (λ n. take n hs) (omega arith)))
]
