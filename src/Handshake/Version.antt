-- ===== src/Handshake/Version.antt =====
-- handshake/src/version.rs: the version of the protocol, and its two bytes.
use cable_rs.Base.{ℕ, ◌≡◌, refl, List, [], ◌∷◌, ◌++◌, length}
use cable_rs.Handshake.Error.{Outcome, ok, panic}

pub record Version : Type 0 where
  pub major : ℕ
  pub minor : ℕ

abbrev pub init : ℕ → ℕ → Version
init major minor = record { major = major; minor = minor }

-- `buf[0..1]` and `buf[1..2]` panic on a shorter buffer.
unfoldable pub write_bytes : Version → List ℕ → Outcome (ℕ × List ℕ)
write_bytes v [] = panic
write_bytes v (_ ∷ []) = panic
write_bytes v (_ ∷ _ ∷ buf) = ok (2, v.major ∷ v.minor ∷ buf)

unfoldable pub to_bytes : Version → Outcome (List ℕ)
to_bytes v = elim (write_bytes v (0 ∷ 0 ∷ [])) [ ok (_, buf) ↦ ok buf | _ ↦ panic ]

unfoldable pub from_bytes : List ℕ → Outcome (ℕ × Version)
from_bytes [] = panic
from_bytes (_ ∷ []) = panic
from_bytes (major ∷ minor ∷ _) = ok (2, record { major = major; minor = minor })

-- A version is read back from its two bytes, whatever follows them.
pub from_bytes-to_bytes :
    (v : Version) (rest : List ℕ)
    → (bs : List ℕ) × (to_bytes v ≡ ok bs) × (length bs ≡ 2) × (from_bytes (bs ++ rest) ≡ ok (2, v))
unfolding to_bytes write_bytes from_bytes
from_bytes-to_bytes v rest = (v.major ∷ v.minor ∷ [], refl, refl, refl)
