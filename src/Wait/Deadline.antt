-- ===== src/Wait/Deadline.antt =====
-- The timeout, the sleeps and the `parked` word of `SpinThenWait::wait_until` in src/wait.rs.
use shmem_ipc.Base.{
  ℕ, zero, suc, ◌+◌, ◌≤◌, ◌≡◌, refl, ap, ◌⊎◌, inl, inr, List, [], ◌∷◌, ◌++◌, Option, some, none,
  arith, length, leb, Bool-cases,
}
use shmem_ipc.Error.{Error, Result, ok, err}
use shmem_ipc.Wait.{
  Look, Sleep, Waited, Turn, remaining, liveness_quantum, end_turn, wait_loop, spin_then_wait,
}
use shmem_ipc.Wait.Looks.{first_settled, looks_of}

-- At one of the turns the clock has reached the deadline.
pub data Late {ℓ} {A : Type ℓ} (deadline : ℕ) : List (Turn A) → Type ℓ where
  here : {x : Turn A} {rest : List (Turn A)} → deadline ≤ x.now → Late deadline (x ∷ rest)
  there : {x : Turn A} {rest : List (Turn A)} → Late deadline rest → Late deadline (x ∷ rest)

-- What a wait with a timeout may answer.
abbrev pub Settles {ℓ} : {A : Type ℓ} → List (Look A) → Option (Result A) → Type ℓ
Settles {A} looks answer =
    (r : Result A) × (answer ≡ some r)
    × ((r ≡ err Error.timed_out) ⊎ (first_settled looks ≡ some r))

-- The time of a sleep ends by the deadline.
abbrev pub InTime : Option ℕ → ℕ → ℕ → Type 0
InTime none now limit = Unit
InTime (some deadline) now limit = now + limit ≤ deadline

-- The sleeps of the turns, in order: in each, the condition has answered `Ok(None)` twice since
-- the snapshot was taken.
pub data Slept {ℓ} {A : Type ℓ} (deadline : Option ℕ) : List (Turn A) → List Sleep → Type ℓ where
  ended : {turns : List (Turn A)} → Slept deadline turns []
  slept_on :
      {x : Turn A} {rest : List (Turn A)} {limit : ℕ} {sleeps : List Sleep}
      → x.first ≡ ok none
      → x.second ≡ ok none
      → limit ≤ liveness_quantum
      → InTime deadline x.now limit
      → Slept deadline rest sleeps
      → Slept deadline (x ∷ rest) (record { expected = x.snapshot; limit = limit } ∷ sleeps)

-- The rest of the time, or that it is up.
Rest : Option ℕ → ℕ → Result ℕ → Type 0
Rest deadline now (ok limit) = (limit ≤ liveness_quantum) × InTime deadline now limit
Rest deadline now (err e) = e ≡ Error.timed_out

remaining-Rest : (deadline : Option ℕ) (now : ℕ) → Rest deadline now (remaining deadline now)
unfolding Rest remaining
remaining-Rest none now = (omega arith, tt)
remaining-Rest (some deadline) now = elim (Bool-cases (leb deadline now)) [
  | inl past ↦ rw past refl
  | inr early ↦ rw early (ground arith, ground arith)
]

remaining-past :
    (deadline now : ℕ) → deadline ≤ now → remaining (some deadline) now ≡ err Error.timed_out
unfolding remaining
remaining-past deadline now past = ground arith

module _ {ℓ} {A : Type ℓ} where
  late_here :
      (deadline snapshot : ℕ) (first : Look A) (now : ℕ) (second : Look A)
      → (rest : List (Turn A)) (parked : ℕ) → deadline ≤ now
      → let x : Turn A = record {
        snapshot = snapshot;
        first = first;
        now = now;
        second = second;
      } in
        Settles (looks_of (x ∷ rest)) (wait_loop (some deadline) (x ∷ rest) parked).answer
  unfolding wait_loop
  late_here deadline snapshot (err e) now second rest parked past = (err e, refl, inr refl)
  late_here deadline snapshot (ok (some v)) now second rest parked past = (ok v, refl, inr refl)
  late_here deadline snapshot (ok none) now second rest parked past = (
    err Error.timed_out,
    ap (λ left. (end_turn left snapshot second parked (wait_loop (some deadline) rest 0)).answer)
        (remaining-past deadline now past),
    inl refl,
  )

  late_end :
      (deadline : Option ℕ) (now : ℕ) (left : Result ℕ)
      → Rest deadline now left
      → (snapshot : ℕ) (second : Look A) (looks : List (Look A)) (parked : ℕ) (again : Waited A)
      → Settles looks again.answer
      → Settles (second ∷ looks) (end_turn left snapshot second parked again).answer
  unfolding end_turn Rest
  late_end deadline now (err e) up snapshot second looks parked again h =
      (err e, refl, inl (ap err up))
  late_end deadline now (ok limit) up snapshot (ok none) looks parked again h = h
  late_end deadline now (ok limit) up snapshot (ok (some v)) looks parked again h =
      (ok v, refl, inr refl)
  late_end deadline now (ok limit) up snapshot (err e) looks parked again h =
      (err e, refl, inr refl)

  late_there :
      (deadline snapshot : ℕ) (first : Look A) (now : ℕ) (second : Look A)
      → (rest : List (Turn A)) (parked : ℕ)
      → Settles (looks_of rest) (wait_loop (some deadline) rest 0).answer
      → let x : Turn A = record {
        snapshot = snapshot;
        first = first;
        now = now;
        second = second;
      } in
        Settles (looks_of (x ∷ rest)) (wait_loop (some deadline) (x ∷ rest) parked).answer
  unfolding wait_loop
  late_there deadline snapshot (err e) now second rest parked h = (err e, refl, inr refl)
  late_there deadline snapshot (ok (some v)) now second rest parked h = (ok v, refl, inr refl)
  late_there deadline snapshot (ok none) now second rest parked h =
      late_end (some deadline) now (remaining (some deadline) now)
        (remaining-Rest (some deadline) now) snapshot second (looks_of rest) parked
        (wait_loop (some deadline) rest 0) h

  wait_loop-Settles :
      (deadline : ℕ) (turns : List (Turn A)) (parked : ℕ)
      → Late deadline turns
      → Settles (looks_of turns) (wait_loop (some deadline) turns parked).answer
  wait_loop-Settles deadline [] parked late = elim late [ ]
  wait_loop-Settles deadline (x ∷ rest) parked (here past) =
      late_here deadline x.snapshot x.first x.now x.second rest parked past
  wait_loop-Settles deadline (x ∷ rest) parked (there late) =
      late_there deadline x.snapshot x.first x.now x.second rest parked
        (wait_loop-Settles deadline rest 0 late)

  end_turn-Slept :
      (deadline : Option ℕ) (now : ℕ) (left : Result ℕ)
      → Rest deadline now left
      → (snapshot : ℕ) (second : Look A) (rest : List (Turn A)) (again : Waited A)
      → (again.parked ≡ 0) × Slept deadline rest again.sleeps
      → let x : Turn A = record {
        snapshot = snapshot;
        first = ok none;
        now = now;
        second = second;
      } in
        ((end_turn left snapshot second 0 again).parked ≡ 0)
        × Slept deadline (x ∷ rest) (end_turn left snapshot second 0 again).sleeps
  unfolding end_turn Rest
  end_turn-Slept deadline now (err e) up snapshot second rest again h = (refl, ended)
  end_turn-Slept deadline now (ok limit) (short, timely) snapshot (ok none) rest again (down, h) =
      (down, slept_on refl refl short timely h)
  end_turn-Slept deadline now (ok limit) up snapshot (ok (some v)) rest again h = (refl, ended)
  end_turn-Slept deadline now (ok limit) up snapshot (err e) rest again h = (refl, ended)

  turn-Slept :
      (deadline : Option ℕ) (snapshot : ℕ) (first : Look A) (now : ℕ) (second : Look A)
      → (rest : List (Turn A))
      → ((wait_loop deadline rest 0).parked ≡ 0)
        × Slept deadline rest (wait_loop deadline rest 0).sleeps
      → let x : Turn A = record {
        snapshot = snapshot;
        first = first;
        now = now;
        second = second;
      } in
        ((wait_loop deadline (x ∷ rest) 0).parked ≡ 0)
        × Slept deadline (x ∷ rest) (wait_loop deadline (x ∷ rest) 0).sleeps
  unfolding wait_loop
  turn-Slept deadline snapshot (err e) now second rest h = (refl, ended)
  turn-Slept deadline snapshot (ok (some v)) now second rest h = (refl, ended)
  turn-Slept deadline snapshot (ok none) now second rest h =
      end_turn-Slept deadline now (remaining deadline now) (remaining-Rest deadline now) snapshot
        second rest (wait_loop deadline rest 0) h

  wait_loop-Slept :
      (deadline : Option ℕ) (turns : List (Turn A))
      → ((wait_loop deadline turns 0).parked ≡ 0)
        × Slept deadline turns (wait_loop deadline turns 0).sleeps
  unfolding wait_loop
  wait_loop-Slept deadline [] = (refl, ended)
  wait_loop-Slept deadline (x ∷ rest) =
      turn-Slept deadline x.snapshot x.first x.now x.second rest (wait_loop-Slept deadline rest)

  -- With a timeout, once the clock has reached the deadline at one of the turns,
  -- `SpinThenWait::wait_until` returns: the first value or error that the condition answers, over
  -- both phases, or TimedOut.
  pub spin_then_wait-Settles :
      (deadline : ℕ) (looks : List (Look A)) (turns : List (Turn A)) (parked : ℕ)
      → Late deadline turns
      → Settles
          (looks ++ looks_of turns)
          (spin_then_wait (length looks) (some deadline) looks turns parked).answer
  unfolding spin_then_wait
  spin_then_wait-Settles deadline [] turns parked late =
      wait_loop-Settles deadline turns parked late
  spin_then_wait-Settles deadline (err e ∷ looks) turns parked late = (err e, refl, inr refl)
  spin_then_wait-Settles deadline (ok (some v) ∷ looks) turns parked late = (ok v, refl, inr refl)
  spin_then_wait-Settles deadline (ok none ∷ looks) turns parked late =
      spin_then_wait-Settles deadline looks turns parked late

  -- Whether or not it has ended, and on every path out, errors included, `SpinThenWait::wait_until`
  -- leaves the word `parked` at the 0 that it had before. It sleeps only in the second phase, at
  -- most once a turn, only after the condition has answered `Ok(None)` twice since the notify word
  -- was loaded, and never for longer than the liveness quantum or beyond the deadline.
  pub spin_then_wait-Slept :
      (spin_count : ℕ) (deadline : Option ℕ) (looks : List (Look A)) (turns : List (Turn A))
      → let w = spin_then_wait spin_count deadline looks turns 0 in
        (w.parked ≡ 0) × Slept deadline turns w.sleeps
  unfolding spin_then_wait
  spin_then_wait-Slept zero deadline looks turns = wait_loop-Slept deadline turns
  spin_then_wait-Slept (suc n) deadline [] turns = (refl, ended)
  spin_then_wait-Slept (suc n) deadline (err e ∷ looks) turns = (refl, ended)
  spin_then_wait-Slept (suc n) deadline (ok (some v) ∷ looks) turns = (refl, ended)
  spin_then_wait-Slept (suc n) deadline (ok none ∷ looks) turns =
      spin_then_wait-Slept n deadline looks turns
