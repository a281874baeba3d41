-- ===== src/Wait/Tests.antt =====
-- Runs of the model of src/wait.rs, and the theorems at such inputs.
use shmem_ipc.Base.{ℕ, ◌≤◌, ◌≡◌, ◌≢◌, refl, false, List, [], ◌∷◌, ◌++◌, none, some, arith}
use shmem_ipc.Error.{Error, ok, err}
use shmem_ipc.Wait.{Look, Turn, remaining, end_turn, wait_loop, spin_then_wait}
use shmem_ipc.Wait.Looks.{first_settled, looks_of}
use shmem_ipc.Wait.Deadline.{
  here, there, Settles, Slept, spin_then_wait-Settles, spin_then_wait-Slept,
}
use shmem_ipc.Wait.Steps.{
  asleep, awake, quiet, System, wait_step, publishes, wake_step, started, Reach, start, waits,
  stores,
}
use shmem_ipc.Wait.Steps.Wakes.{no_missed_wake}

abbrev nothing : Look ℕ
nothing = ok none

-- Three turns; the value 9 comes in the second look of the third.
abbrev turns : List (Turn ℕ)
turns =
    record { snapshot = 4; first = nothing; now = 100; second = nothing }
    ∷ record { snapshot = 4; first = nothing; now = 300; second = nothing }
    ∷ record { snapshot = 5; first = nothing; now = 500; second = ok (some 9) }
    ∷ []

abbrev spins : List (Look ℕ)
spins = nothing ∷ nothing ∷ []

nine : first_settled (spins ++ looks_of turns) ≡ some (ok 9)
nine = refl

spin_then_wait-Settles_example :
    Settles (spins ++ looks_of turns) (spin_then_wait 2 (some 400) spins turns 0).answer
spin_then_wait-Settles_example =
    spin_then_wait-Settles 400 spins turns 0 (there (there (here (omega arith))))

-- At the third turn the deadline is past, before the second look.
gives_up : (spin_then_wait 2 (some 400) spins turns 0).answer ≡ some (err Error.timed_out)
unfolding spin_then_wait wait_loop remaining end_turn
gives_up = refl

spin_then_wait-Slept_example :
    ((spin_then_wait 2 (some 400) spins turns 0).parked ≡ 0)
    × Slept (some 400) turns (spin_then_wait 2 (some 400) spins turns 0).sleeps
spin_then_wait-Slept_example = spin_then_wait-Slept 2 (some 400) spins turns

-- The waiting process goes to sleep, and then one message is published.
abbrev sleeping : System
sleeping = wait_step 1 false (
    wait_step 1 false
      (wait_step 1 false (wait_step 1 false (wait_step 1 false (wait_step 1 false started)))))

sleeping-Reach : Reach 1 sleeping
unfolding wait_step
sleeping-Reach =
    waits false
      (waits false (waits false (waits false (waits false (waits false start tt) tt) tt) tt) tt)
      (omega arith)

sleeping_pc : (publishes sleeping).waiter ≡ asleep
unfolding wait_step publishes
sleeping_pc = refl

sleeping_quiet : sleeping.waker ≡ quiet
unfolding wait_step
sleeping_quiet = refl

sleeping_enough : 1 ≤ (publishes sleeping).published
unfolding wait_step publishes
sleeping_enough = omega arith

no_missed_wake_example :
    ((publishes sleeping).waker ≢ quiet)
    × ((wake_step (wake_step (wake_step (publishes sleeping)))).waiter ≡ awake)
no_missed_wake_example =
    no_missed_wake (stores sleeping-Reach sleeping_quiet) sleeping_pc sleeping_enough
