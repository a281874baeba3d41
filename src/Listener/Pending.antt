-- ===== src/Listener/Pending.antt =====
-- The Windows listener of src/listener.rs keeps a pipe instance published.
use mathlib.Core.Path.{subst⁻¹}
use shmem_ipc.Base.{ℕ, ◌≡◌, refl, Option, some, none}
use shmem_ipc.Error.{Error, IoError, Result, ok, err}
use shmem_ipc.Listener.{
  Received, arrived, timeout, disconnected, ensure_pending_accept, after_wait,
  wait_for_pipe_timeout,
}

-- How `wait_for_pipe_timeout` leaves the listener, which had the instance `pending` or made it, by
-- what the wait has received and what the next `PendingAccept::start` returns.
pub data Left {ℓ} {A : Type ℓ} (pending : ℕ) (received : Received A) (prime : Result ℕ)
    : Result A → Option ℕ → Type ℓ where
  taken :
      {pipe : A} {next : ℕ}
      → received ≡ arrived (ok pipe)
      → prime ≡ ok next
      → Left pending received prime (ok pipe) (some next)
  kept : received ≡ timeout → Left pending received prime (err Error.timed_out) (some pending)
  client_failed :
      {e : Error} → received ≡ arrived (err e) → Left pending received prime (err e) none
  not_primed :
      {pipe : A} {e : Error}
      → received ≡ arrived (ok pipe)
      → prime ≡ err e
      → Left pending received prime (err e) none
  cut_off :
      received ≡ disconnected
      → Left pending received prime (err (Error.io IoError.broken_pipe)) none

after_wait-Left {ℓ} :
    {A : Type ℓ} (pending : ℕ) (received : Received A) (prime : Result ℕ)
    → let (r, st) = after_wait pending received prime in Left pending received prime r st
unfolding after_wait
after_wait-Left pending (arrived (err e)) prime = client_failed refl
after_wait-Left pending (arrived (ok pipe)) (err e) = not_primed refl refl
after_wait-Left pending (arrived (ok pipe)) (ok next) = taken refl refl
after_wait-Left pending timeout prime = kept refl
after_wait-Left pending disconnected prime = cut_off refl

waited {ℓ} :
    {A : Type ℓ} (start : Result ℕ) (received : ℕ → Received A) (prime : Result ℕ) (st : Option ℕ)
    → (pending : ℕ) → ensure_pending_accept start st ≡ ok pending
    → wait_for_pipe_timeout start received prime st ≡ after_wait pending (received pending) prime
unfolding wait_for_pipe_timeout
waited start received prime st pending ready = rw (ready, wait_for_pipe_timeout) refl

-- Where the listener has a pipe instance, or can make one, `wait_for_pipe_timeout` waits on that
-- instance and no other. A client's pipe is returned only with a fresh instance published for the
-- next client; a wait that times out answers `TimedOut` and keeps the very instance it waited on;
-- and no instance is left exactly where the accepting thread has failed, where it has gone without
-- an answer, or where the next instance cannot be made, each with that error.
pub wait_for_pipe_timeout-Left {ℓ} :
    {A : Type ℓ} (start : Result ℕ) (received : ℕ → Received A) (prime : Result ℕ) (st : Option ℕ)
    → (pending : ℕ) → ensure_pending_accept start st ≡ ok pending
    → let (r, st') = wait_for_pipe_timeout start received prime st in
      Left pending (received pending) prime r st'
wait_for_pipe_timeout-Left start received prime st pending ready =
    subst⁻¹ (λ out. Left pending (received pending) prime out.0 out.1)
      (waited start received prime st pending ready)
      (after_wait-Left pending (received pending) prime)
