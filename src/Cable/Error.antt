-- ===== src/Cable/Error.antt =====
-- cable/src/error.rs: the errors of the crate, and the result of a call.
use Prim.Native.Nat.{ℕ}
use Prim.Native.String.{String}
use cable_rs.Base.{◌≡◌, refl, List}

pub data CableErrorKind : Type 0 where
  dst_too_small : ℕ → ℕ → CableErrorKind
  message_empty : CableErrorKind
  message_write_unrecognized_type : ℕ → CableErrorKind
  message_hash_response_end : CableErrorKind
  message_data_response_end : CableErrorKind
  message_hash_request_end : CableErrorKind
  message_cancel_request_end : CableErrorKind
  message_channel_time_range_request_end : CableErrorKind
  message_channel_state_request_end : CableErrorKind
  message_channel_list_request_end : CableErrorKind
  none_error : String → CableErrorKind
  post_write_unrecognized_type : ℕ → CableErrorKind
  post_hashing_failed : CableErrorKind
  channel_length_incorrect : List ℕ → ℕ → CableErrorKind
  text_length_incorrect : List ℕ → ℕ → CableErrorKind
  topic_length_incorrect : List ℕ → ℕ → CableErrorKind
  username_length_incorrect : List ℕ → ℕ → CableErrorKind

-- `Box<dyn std::error::Error>`: an error of the crate, or one that `?` passes on from `desert`
-- (two varint errors, and a destination too small for an array), from `String::from_utf8`, from a
-- conversion of a slice to an array, from the system's clock, or from a channel whose receiver is
-- gone.
pub data Error : Type 0 where
  cable : CableErrorKind → Error
  varint_src_insufficient : Error
  varint_dst_insufficient : Error
  dst_insufficient : ℕ → ℕ → Error
  from_utf8 : Error
  try_from_slice : Error
  clock : Error
  send_error : Error

-- What a call comes to. `panic` is a Rust panic, such as a slice index out of range. `stuck` is no
-- outcome of the code: a loop of the model ran out of its fuel.
pub data Outcome {ℓ} (A : Type ℓ) : Type ℓ where
  ok : A → Outcome A
  err : Error → Outcome A
  panic : Outcome A
  stuck : Outcome A

infixl 5 ◌>>=◌ ◌>>◌
abbrev pub ◌>>=◌ {ℓ κ} : {A : Type ℓ} {B : Type κ} → Outcome A → (A → Outcome B) → Outcome B
ok a >>= f = f a
err e >>= f = err e
panic >>= f = panic
stuck >>= f = stuck

abbrev pub ◌>>◌ {ℓ κ} : {A : Type ℓ} {B : Type κ} → Outcome A → Outcome B → Outcome B
m >> k = m >>= λ _. k

-- `CableErrorKind::raise`
abbrev pub raise {ℓ} : {A : Type ℓ} → CableErrorKind → Outcome A
raise k = err (cable k)

-- Inversion of a successful step.
pub >>=-eq-ok {ℓ κ} :
    {A : Type ℓ} {B : Type κ} (step : Outcome A) (next : A → Outcome B) {result : B}
    → (step >>= next) ≡ ok result
    → (value : A) × (step ≡ ok value) × (next value ≡ ok result)
>>=-eq-ok stuck next e = cc
>>=-eq-ok panic next e = cc
>>=-eq-ok (err _) next e = cc
>>=-eq-ok (ok value) next e = (value, refl, e)

pub >>=_assoc {ℓ κ μ} :
    {A : Type ℓ} {B : Type κ} {C : Type μ} (m : Outcome A) (f : A → Outcome B) (g : B → Outcome C)
    → (m >>= f >>= g) ≡ (m >>= λ a. f a >>= g)
>>=_assoc (ok a) f g = refl
>>=_assoc (err e) f g = refl
>>=_assoc panic f g = refl
>>=_assoc stuck f g = refl
