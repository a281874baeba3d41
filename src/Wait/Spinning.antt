-- ===== src/Wait/Spinning.antt =====
-- The timeout of `SpinOnly::wait_until` in src/wait.rs, which reads the clock at every 1024th turn.
use shmem_ipc.Base.{
  ℕ, ◌+◌, ◌%◌, ◌≤◌, bit_and, ◌≡◌, refl, ◌⊎◌, inl, inr, true, false, ◌&&◌, List, [], ◌∷◌, some, none,
  ◌==◌, arith, length, bit_and_mask, Bool-cases,
}
use shmem_ipc.Base.Words.{add32}
use shmem_ipc.Error.{Error, ok, err}
use shmem_ipc.Wait.{Look, is_past, spin_only}
use shmem_ipc.Wait.Deadline.{Settles}

-- The clock has reached the deadline, at every turn.
abbrev pub AllLate {ℓ} : {A : Type ℓ} → ℕ → List (Look A × ℕ) → Type 0
AllLate deadline [] = Unit
AllLate deadline ((look, now) ∷ rest) = (deadline ≤ now) × AllLate deadline rest

abbrev pub looks_met {ℓ} : {A : Type ℓ} → List (Look A × ℕ) → List (Look A)
looks_met [] = []
looks_met ((look, now) ∷ rest) = look ∷ looks_met rest

-- Is the clock read at this turn? The counter's last ten bits go up by one, or they are zero.
next_turn :
    (iter deadline now : ℕ)
    → deadline ≤ now
    → let next = add32 iter 1 in
      ((bit_and next 0x3FF == 0 && is_past (some deadline) now) ≡ true)
      ⊎ (((bit_and next 0x3FF == 0 && is_past (some deadline) now) ≡ false)
          × (next % 1024 ≡ iter % 1024 + 1))
unfolding is_past
next_turn iter deadline now past =
    let low = bit_and_mask 10 (add32 iter 1) in
    elim (Bool-cases (add32 iter 1 % 1024 == 0)) [
      | inl zeros ↦ inl (ground (arith, low, zeros))
      | inr more ↦ inr (ground (arith, low, more), ground (arith, more))
    ]

module _ {ℓ} {A : Type ℓ} (deadline : ℕ) where
  spin_turn :
      (look : Look A) (now : ℕ) (rest : List (Look A × ℕ)) (iter : ℕ)
      → deadline ≤ now
      → ((add32 iter 1 % 1024 ≡ iter % 1024 + 1)
          → Settles (looks_met rest) (spin_only (some deadline) rest (add32 iter 1)))
      → Settles (look ∷ looks_met rest) (spin_only (some deadline) ((look, now) ∷ rest) iter)
  unfolding spin_only
  spin_turn (err e) now rest iter past go = (err e, refl, inr refl)
  spin_turn (ok (some v)) now rest iter past go = (ok v, refl, inr refl)
  spin_turn (ok none) now rest iter past go = elim (next_turn iter deadline now past) [
    | inl read ↦ (err Error.timed_out, rw read, inl refl)
    | inr (unread, step) ↦ let (r, run, e) = go step in (r, rw unread run, e)
  ]

  spin_from :
      (turns : List (Look A × ℕ)) (iter : ℕ)
      → AllLate deadline turns
      → 1024 ≤ length turns + iter % 1024
      → Settles (looks_met turns) (spin_only (some deadline) turns iter)
  spin_from [] iter late enough = absurd (omega arith)
  spin_from ((look, now) ∷ rest) iter (past, late) enough =
      spin_turn look now rest iter past
        (λ step. spin_from rest (add32 iter 1) late (omega (arith, step)))

  -- Once the deadline has passed, 1024 turns are enough for `SpinOnly::wait_until` to return,
  -- wherever its wrapping counter stands: it answers the first value or error of the condition, or
  -- TimedOut.
  pub spin_only-Settles :
      (turns : List (Look A × ℕ)) (iter : ℕ)
      → AllLate deadline turns
      → 1024 ≤ length turns
      → Settles (looks_met turns) (spin_only (some deadline) turns iter)
  spin_only-Settles turns iter late enough = spin_from turns iter late (omega (arith, enough))
