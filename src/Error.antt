-- ===== src/Error.antt =====
-- src/error.rs: the crate's error type and its `Result`, with the monad that `?` stands for.
use shmem_ipc.Base.{ℕ, ◌≡◌, refl, ◌⊎◌, inl, inr}

-- `std::io::Error`, by the `ErrorKind`s that the crate tests for or makes, and ERROR_PIPE_BUSY.
pub data IoError : Type 0 where
  not_found already_exists invalid_input invalid_data would_block broken_pipe unsupported : IoError
  connection_refused pipe_busy : IoError
  other : ℕ → IoError

pub data Error : Type 0 where
  timed_out peer_disconnected channel_closed invalid_header unsupported_platform : Error
  message_too_large : (size max : ℕ) → Error
  sequence_mismatch : (expected got : ℕ) → Error
  io : IoError → Error

pub data Result {ℓ} (A : Type ℓ) : Type ℓ where
  ok : A → Result A
  err : Error → Result A

pub Result-cases {ℓ} :
    {A : Type ℓ} (r : Result A) → ((a : A) × (r ≡ ok a)) ⊎ ((e : Error) × (r ≡ err e))
Result-cases (ok a) = inl (a, refl)
Result-cases (err e) = inr (e, refl)

-- `expression?`, with what follows it.
infixl 5 ◌>>=◌
abbrev pub ◌>>=◌ {ℓ κ} : {A : Type ℓ} {B : Type κ} → Result A → (A → Result B) → Result B
err error >>= follow = err error
ok value >>= follow = follow value

infixl 5 ◌>>◌
abbrev pub ◌>>◌ {ℓ} : {B : Type ℓ} → Result (Unit {0}) → Result B → Result B
err error >> next = err error
ok _ >> next = next
