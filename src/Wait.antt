-- ===== src/Wait.antt =====
-- src/wait.rs: the two strategies that wait until a condition answers. The answers of the
-- condition, the clock and the notify word, which other processes and the kernel determine, are
-- given as what the loop meets turn by turn; times are in nanoseconds.
pub mod Looks
pub mod Deadline
pub mod Spinning
pub mod Steps
mod Tests
use shmem_ipc.Base.{
  ℕ, zero, suc, ◌+◌, ◌-◌, min, bit_and, Bool, true, false, ◌&&◌, List, [], ◌∷◌, Option, some, none,
  ◌==◌, leb, if◌then◌else◌,
}
use shmem_ipc.Base.Words.{add32}
use shmem_ipc.Error.{Error, Result, ok, err}

-- `LIVENESS_QUANTUM` of src/shared.rs, 250 milliseconds
abbrev pub liveness_quantum : ℕ
liveness_quantum = 250_000_000

-- One answer of the condition.
abbrev pub Look {ℓ} : Type ℓ → Type ℓ
Look A = Result (Option A)

-- One call of `wait_on_handle`: the value that `notify` must still have, and how long it may take.
pub record Sleep : Type 0 where
  pub expected : ℕ
  pub limit : ℕ

-- What a wait returns (`none` for a loop that has not ended after the given turns), the word
-- `parked` that it leaves, and its sleeps.
pub record Waited {ℓ} (A : Type ℓ) : Type ℓ where
  pub answer : Option (Result A)
  pub parked : ℕ
  pub sleeps : List Sleep

-- One turn of the second phase.
pub record Turn {ℓ} (A : Type ℓ) : Type ℓ where
  pub snapshot : ℕ
  pub first : Look A
  pub now : ℕ
  pub second : Look A

-- The match on `deadline`.
unfoldable pub remaining : Option ℕ → ℕ → Result ℕ
remaining none now = ok liveness_quantum
remaining (some deadline) now =
    if leb deadline now then err Error.timed_out else ok (min (deadline - now) liveness_quantum)

abbrev pub answered {ℓ} : {A : Type ℓ} → Result A → ℕ → Waited A
answered r parked = record { answer = some r; parked = parked; sleeps = [] }

abbrev pub slept {ℓ} : {A : Type ℓ} → Sleep → Waited A → Waited A
slept s w = record { answer = w.answer; parked = w.parked; sleeps = s ∷ w.sleeps }

-- A turn of the second phase from the match on `deadline` on; `again` is the next turn.
unfoldable pub end_turn {ℓ} : {A : Type ℓ} → Result ℕ → ℕ → Look A → ℕ → Waited A → Waited A
end_turn (err e) snapshot second parked again = answered (err e) parked
end_turn (ok limit) snapshot (ok (some v)) parked again = answered (ok v) 0
end_turn (ok limit) snapshot (err e) parked again = answered (err e) 0
end_turn (ok limit) snapshot (ok none) parked again =
    slept (record { expected = snapshot; limit = limit }) again

-- The second phase of `SpinThenWait::wait_until`.
unfoldable pub wait_loop {ℓ} : {A : Type ℓ} → Option ℕ → List (Turn A) → ℕ → Waited A
unfolding remaining end_turn
wait_loop deadline [] parked = record { answer = none; parked = parked; sleeps = [] }
wait_loop deadline (x ∷ rest) parked =
    let again = wait_loop deadline rest 0 in
    elim x.first [
      | err e ↦ answered (err e) parked
      | ok (some v) ↦ answered (ok v) parked
      | ok none ↦ end_turn (remaining deadline x.now) x.snapshot x.second parked again
    ]

-- `SpinThenWait::wait_until`: at most `spin_count` looks, then the second phase.
unfoldable pub spin_then_wait {ℓ} :
    {A : Type ℓ} (spin_count : ℕ) (deadline : Option ℕ)
    → List (Look A)
    → List (Turn A)
    → ℕ
    → Waited A
unfolding wait_loop
spin_then_wait zero deadline looks turns parked = wait_loop deadline turns parked
spin_then_wait (suc n) deadline [] turns parked = record {
  answer = none;
  parked = parked;
  sleeps = [];
}
spin_then_wait (suc n) deadline (look ∷ looks) turns parked =
    let again = spin_then_wait n deadline looks turns parked in
    elim look [
      | err e ↦ answered (err e) parked
      | ok (some v) ↦ answered (ok v) parked
      | ok none ↦ again
    ]

unfoldable pub is_past : Option ℕ → ℕ → Bool
is_past none now = false
is_past (some deadline) now = leb deadline now

-- `SpinOnly::wait_until`: a look and the time, should it be read; every 1024th turn reads it.
unfoldable pub spin_only {ℓ} :
    {A : Type ℓ} → Option ℕ → List (Look A × ℕ) → (iter : ℕ) → Option (Result A)
unfolding is_past
spin_only deadline [] iter = none
spin_only deadline ((look, now) ∷ rest) iter =
    let next = add32 iter 1 in
    let again = spin_only deadline rest next in
    elim look [
      | err e ↦ some (err e)
      | ok (some v) ↦ some (ok v)
      | ok none ↦
          if bit_and next 0x3FF == 0 && is_past deadline now
          then some (err Error.timed_out)
          else again
    ]
