-- ===== src/Handshake/Error.antt =====
-- handshake/src/error.rs: what an operation of the handshake comes to.
use cable_rs.Base.{ℕ}

-- `Box<dyn std::error::Error>`: the error of the crate, one of `snow`, one of a conversion of a slice
-- to an array, or one of a stream that ends too early.
pub data Error : Type 0 where
  incompatible_server_version : ℕ → ℕ → Error
  noise : Error
  try_from_slice : Error
  unexpected_eof : Error

-- `panic` is a Rust panic. `stuck` is no outcome of the code: a loop of the model ran out of its fuel.
pub data Outcome {ℓ} (A : Type ℓ) : Type ℓ where
  ok : A → Outcome A
  err : Error → Outcome A
  panic : Outcome A
  stuck : Outcome A

infixl 5 ◌>>=◌
abbrev pub ◌>>=◌ {ℓ κ} : {A : Type ℓ} {B : Type κ} → Outcome A → (A → Outcome B) → Outcome B
ok a >>= f = f a
err e >>= f = err e
panic >>= f = panic
stuck >>= f = stuck
