-- ===== src/Core/Manager/Ids.antt =====
-- The request IDs that the manager gives out.
use cable_rs.Base.{ℕ, zero, suc, ◌≡◌, ◌≢◌, ◌∙◌, ◌+◌, ◌<◌, ◌%◌, refl, sym, ap, arith, List, []}
use cable_rs.Cable.Desert.{Desert, DesertLaws}
use cable_rs.Cable.Error.{Outcome, ok}
use cable_rs.Core.Manager.{CableManager, new_req_id, next_req_id}

-- The last request ID after n more.
abbrev pub last_id : ℕ → ℕ → ℕ
last_id zero start = start
last_id (suc n) start = next_req_id (last_id n start)

last_id_lem : (n start : ℕ) → start < 4294967296 → last_id n start ≡ (start + n) % 4294967296
unfolding next_req_id
last_id_lem zero start b = omega arith
last_id_lem (suc n) start b = let e = last_id_lem n start b in ground (arith, e)

-- The manager after n request IDs.
abbrev pub after_ids : Desert → ℕ → CableManager → CableManager
after_ids v zero m = m
after_ids v (suc n) m = (new_req_id v (after_ids v n m)).1

after_ids_lem :
    (v : Desert) (n : ℕ) (m : CableManager)
    → (after_ids v n m).last_req_id ≡ last_id n m.last_req_id
unfolding new_req_id
after_ids_lem v zero m = refl
after_ids_lem v (suc n) m = ap next_req_id (after_ids_lem v n m)

-- Each new request ID is the next number modulo 2^32, as the four bytes of a `u32`.
pub new_req_id_lem :
    (v : Desert) (n : ℕ) (m : CableManager)
    → m.last_req_id < 4294967296
    → let id = (m.last_req_id + suc n) % 4294967296 in
      (new_req_id v (after_ids v n m)).0 ≡ ok (id, v.u32_bytes id)
unfolding new_req_id
new_req_id_lem v n m b =
    let e = ap next_req_id (after_ids_lem v n m) ∙ last_id_lem (suc n) m.last_req_id b in rw e refl

-- No two of 2^32 request IDs in a row are the same bytes.
pub new_req_id-distinct :
    (v : Desert) (laws : DesertLaws v) (i j : ℕ) (m : CableManager) (x y : ℕ × List ℕ)
    → m.last_req_id < 4294967296
    → i < j
    → j < i + 4294967296
    → (new_req_id v (after_ids v i m)).0 ≡ ok x
    → (new_req_id v (after_ids v j m)).0 ≡ ok y
    → x.1 ≢ y.1
new_req_id-distinct v laws i j m x y b lt near ex ey same =
    let start = m.last_req_id in
    let at_i : ok ((start + suc i) % 4294967296, v.u32_bytes ((start + suc i) % 4294967296))
        ≡ ok x =
      sym (new_req_id_lem v i m b) ∙ ex in
    let at_j : ok ((start + suc j) % 4294967296, v.u32_bytes ((start + suc j) % 4294967296))
        ≡ ok y =
      sym (new_req_id_lem v j m b) ∙ ey in
    let bytes_i : v.u32_bytes ((start + suc i) % 4294967296) ≡ x.1 = ap bytes_of at_i in
    let bytes_j : v.u32_bytes ((start + suc j) % 4294967296) ≡ y.1 = ap bytes_of at_j in
    let ids =
      laws.u32_bytes_injective ((start + suc i) % 4294967296) ((start + suc j) % 4294967296)
        (omega arith) (omega arith) (bytes_i ∙ same ∙ sym bytes_j) in
    omega (arith, ids, lt, near)
  where
    bytes_of : Outcome (ℕ × List ℕ) → List ℕ
    bytes_of (ok z) = z.1
    bytes_of _ = []
