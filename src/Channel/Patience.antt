-- ===== src/Channel/Patience.antt =====
-- `open_with_config` of src/channel.rs waits until its deadline, and no longer.
use shmem_ipc.Base.{
  ℕ, ◌+◌, ◌≤◌, ◌≡◌, refl, ◌∙◌, ◌⊎◌, inl, inr, List, [], ◌∷◌, some, none, arith, leb, Bool-cases,
}
use shmem_ipc.Error.{Error, ok, err, ◌>>◌, Result-cases}
use shmem_ipc.Platform.{ProcessIdentity, ProcessStat, ProcessMonitor, current_identity}
use shmem_ipc.Wait.{Look}
use shmem_ipc.Wait.Deadline.{Settles}
use shmem_ipc.Channel.{ChannelConfig, validate_config, open_loop, open_with_config}

-- The attempts, and the time after each.
abbrev pub Attempts : Type 0
Attempts = List (Look ProcessMonitor × ℕ)

abbrev pub results_of : Attempts → List (Look ProcessMonitor)
results_of [] = []
results_of ((opened, now) ∷ rest) = opened ∷ results_of rest

-- After one of the attempts, the clock has reached the deadline.
pub data EndsLate (deadline : ℕ) : Attempts → Type 0 where
  here :
      {opened : Look ProcessMonitor} {now : ℕ} {rest : Attempts}
      → deadline ≤ now
      → EndsLate deadline ((opened, now) ∷ rest)
  there :
      {opened : Look ProcessMonitor} {now : ℕ} {rest : Attempts}
      → EndsLate deadline rest
      → EndsLate deadline ((opened, now) ∷ rest)

open_loop-Settles :
    (deadline : ℕ) (turns : Attempts)
    → EndsLate deadline turns
    → Settles (results_of turns) (open_loop deadline turns)
unfolding open_loop
open_loop-Settles deadline [] late = elim late [ ]
open_loop-Settles deadline ((err e, now) ∷ rest) late = (err e, refl, inr refl)
open_loop-Settles deadline ((ok (some peer), now) ∷ rest) late = (ok peer, refl, inr refl)
open_loop-Settles deadline ((ok none, now) ∷ rest) late = elim (Bool-cases (leb deadline now)) [
  | inl past ↦ (err Error.timed_out, rw past, inl refl)
  | inr early ↦ elim late [
    | here past ↦ absurd (ground (arith, early, past))
    | there later ↦ let (r, run, e) = open_loop-Settles deadline rest later in (r, rw early run, e)
  ]
]

module _ (process_stat : ProcessStat) (pid now : ℕ) (config : ChannelConfig)
    (turns : Attempts) where
  open_known :
      {identity : ProcessIdentity}
      → (validate_config config >> current_identity process_stat pid) ≡ ok identity
      → open_with_config process_stat pid now config turns
        ≡ open_loop (now + config.connect_timeout) turns
  unfolding open_with_config
  open_known known = rw (known, open_with_config) refl

  open_unknown :
      {e : Error}
      → (validate_config config >> current_identity process_stat pid) ≡ err e
      → open_with_config process_stat pid now config turns ≡ some (err e)
  unfolding open_with_config
  open_unknown bad = rw (bad, open_with_config) refl

-- With an accepted configuration and a known identity, `open_with_config` returns as soon as the
-- clock has reached the deadline after an attempt: the first channel or error of its attempts, or
-- TimedOut. Otherwise it makes no attempt and answers the error.
pub open_with_config-Settles :
    (process_stat : ProcessStat) (pid now : ℕ) (config : ChannelConfig) (turns : Attempts)
    → EndsLate (now + config.connect_timeout) turns
    → Settles (results_of turns) (open_with_config process_stat pid now config turns)
      ⊎ ((e : Error) × (validate_config config >> current_identity process_stat pid ≡ err e)
          × (open_with_config process_stat pid now config turns ≡ some (err e)))
open_with_config-Settles process_stat pid now config turns late =
    elim (Result-cases (validate_config config >> current_identity process_stat pid)) [
      | inl (identity, known) ↦
          let (r, run, e) = open_loop-Settles (now + config.connect_timeout) turns late in
          inl (r, open_known process_stat pid now config turns known ∙ run, e)
      | inr (e, bad) ↦ inr (e, bad, open_unknown process_stat pid now config turns bad)
    ]
