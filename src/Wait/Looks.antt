-- ===== src/Wait/Looks.antt =====
-- The answer of the waits of src/wait.rs in terms of the condition's answers.
use shmem_ipc.Base.{ℕ, ◌≡◌, refl, List, [], ◌∷◌, ◌++◌, Option, some, none, arith, length}
use shmem_ipc.Error.{Result, ok, err}
use shmem_ipc.Wait.{Look, Turn, remaining, wait_loop, spin_then_wait}

-- The first answer of the condition that is not `Ok(None)`.
abbrev pub first_settled {ℓ} : {A : Type ℓ} → List (Look A) → Option (Result A)
first_settled [] = none
first_settled (ok none ∷ looks) = first_settled looks
first_settled (ok (some v) ∷ looks) = some (ok v)
first_settled (err e ∷ looks) = some (err e)

-- The answers that the turns meet, in order.
abbrev pub looks_of {ℓ} : {A : Type ℓ} → List (Turn A) → List (Look A)
looks_of [] = []
looks_of (x ∷ turns) = x.first ∷ x.second ∷ looks_of turns

wait_loop-unlimited {ℓ} :
    {A : Type ℓ} (turns : List (Turn A)) (parked : ℕ)
    → (wait_loop none turns parked).answer ≡ first_settled (looks_of turns)
unfolding wait_loop remaining
wait_loop-unlimited [] parked = refl
wait_loop-unlimited (x ∷ turns) parked = ground (arith, wait_loop-unlimited turns 0)

-- Without a timeout, `SpinThenWait::wait_until` returns the first value or error that the
-- condition answers, over both phases: no answer is passed over or made up.
pub spin_then_wait-unlimited {ℓ} :
    {A : Type ℓ} (looks : List (Look A)) (turns : List (Turn A)) (parked : ℕ)
    → (spin_then_wait (length looks) none looks turns parked).answer
      ≡ first_settled (looks ++ looks_of turns)
unfolding spin_then_wait
spin_then_wait-unlimited [] turns parked = wait_loop-unlimited turns parked
spin_then_wait-unlimited (look ∷ looks) turns parked =
    ground (arith, spin_then_wait-unlimited looks turns parked)
