-- ===== src/Cable/Crypto.antt =====
-- The calls of `sodiumoxide`: hashing, and detached signatures. They are parameters of the model.
pub mod Toy
use cable_rs.Base.{ℕ, ◌≤◌, ◌≡◌, List, length, Option, some, Bool, true}

-- `none` where the call fails: a hash that cannot be made, a slice that is no key or signature.
pub record Crypto : Type 0 where
  pub generic_hash : List ℕ → Option (List ℕ)
  pub secret_key : List ℕ → Option (List ℕ)
  pub sign_detached : List ℕ → List ℕ → List ℕ
  pub public_key : List ℕ → Option (List ℕ)
  pub signature : List ℕ → Option (List ℕ)
  pub verify_detached : List ℕ → List ℕ → List ℕ → Bool

-- What the code relies on: a slice of the length of a key is that key, and a key pair's secret key
-- signs what its public key verifies. `Pair pk sk` says that the two are a key pair.
pub record CryptoLaws (c : Crypto) (Pair : List ℕ → List ℕ → Type 0) : Type 0 where
  pub secret_key_slice : (sk : List ℕ) → length sk ≡ 64 → c.secret_key sk ≡ some sk
  pub public_key_slice : (pk : List ℕ) → length pk ≡ 32 → c.public_key pk ≡ some pk
  pub length-sign_detached : (m sk : List ℕ) → length (c.sign_detached m sk) ≡ 64
  pub signature_parses :
      (m sk : List ℕ) → c.signature (c.sign_detached m sk) ≡ some (c.sign_detached m sk)
  pub verify-sign :
      (m pk sk : List ℕ) → Pair pk sk → c.verify_detached (c.sign_detached m sk) m pk ≡ true
