-- ===== src/Cable/Fields/Sound.antt =====
-- What reading a field ensures on any input.
use cable_rs.Base.{ℕ, ◌-◌, ◌≡◌, true, length}
use cable_rs.Cable.Desert.{Desert, DesertLaws, Fits}
use cable_rs.Cable.Fields.{get_sized, get_counted_hashes, HashesFit}
use cable_rs.Cable.Reader.Sound.{
  Ensures, Ensures-bind, Ensures-weaken, Ensures-get_varint, Ensures-get_string, Ensures-get_hashes,
}
use cable_rs.Cable.Utf8.{valid_utf8}
use mathlib.Core.Path.{subst, sym}

module _ (v : Desert) (laws : DesertLaws v) where
  pub Ensures-get_sized :
      (n : ℕ) → Ensures n 1 (get_sized v) (λ s. Fits (length s) × (valid_utf8 s ≡ true))
  unfolding get_sized
  Ensures-get_sized n = Ensures-bind n 1 _ _ Fits _ (Ensures-get_varint v laws n) (λ m fits.
      Ensures-weaken (n - 1) m _ _ _ (λ s p. (subst Fits (sym p.0) fits, p.1))
        (Ensures-get_string (n - 1) m))

  pub Ensures-get_counted_hashes : (n : ℕ) → Ensures n 1 (get_counted_hashes v) HashesFit
  unfolding get_counted_hashes
  Ensures-get_counted_hashes n =
      Ensures-bind n 1 _ _ Fits _ (Ensures-get_varint v laws n) (λ m fits.
        Ensures-weaken (n - 1) 0 _ _ _ (λ s p. (subst Fits (sym p.0) fits, p.1))
          (Ensures-get_hashes (n - 1) m))
