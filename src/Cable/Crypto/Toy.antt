-- ===== src/Cable/Crypto/Toy.antt =====
-- A stand-in for `sodiumoxide` that has the properties the code relies on, for concrete runs: a
-- signature is the public half of the secret key, twice, and a hash starts with the number of the bytes.
use cable_rs.Base.{
  ℕ, ◌≡◌, refl, List, ◌∷◌, ◌++◌, length, length-append, length-replicate, length-take, take,
  replicate, some, arith,
}
use cable_rs.Base.Equality.{bytes_eq, ◌==◌, ==_refl}
use cable_rs.Cable.Crypto.{Crypto, CryptoLaws}

abbrev pub pad : List ℕ → List ℕ
pad xs = take 32 (xs ++ replicate 32 0)

abbrev pub toy : Crypto
toy = record {
  generic_hash = λ m. some (length m ∷ replicate 31 0);
  secret_key = λ sk. some sk;
  sign_detached = λ m sk. pad sk ++ pad sk;
  public_key = λ pk. some pk;
  signature = λ s. some s;
  verify_detached = λ s m pk. s == (pad pk ++ pad pk);
}

-- In the stand-in, a key pair's halves agree on their first 32 bytes.
abbrev pub ToyPair : List ℕ → List ℕ → Type 0
ToyPair pk sk = pad pk ≡ pad sk

pub length-pad : (xs : List ℕ) → length (pad xs) ≡ 32
length-pad xs = omega (
  arith,
  length-take 32 (xs ++ replicate 32 0),
  length-append xs (replicate 32 0),
  length-replicate {A = ℕ} 32 0,
)

abbrev pub toy_laws : CryptoLaws toy ToyPair
toy_laws = record {
  secret_key_slice = λ sk h. refl;
  public_key_slice = λ pk h. refl;
  length-sign_detached = λ m sk. omega (arith, length-append (pad sk) (pad sk), length-pad sk);
  signature_parses = λ m sk. refl;
  verify-sign = λ m pk sk h. rw h (==_refl (pad sk ++ pad sk));
}
