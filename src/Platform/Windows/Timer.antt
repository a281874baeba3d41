-- ===== src/Platform/Windows/Timer.antt =====
-- `wait_on_handle` of src/platform/windows.rs on a wait handle's event and timer. The calls of the
-- system are an interface: their state, what they answer, and what their documentation says of a
-- synchronization timer. `none` is a panic.
use shmem_ipc.Base.{
  ℕ, zero, suc, ◌+◌, ◌-◌, ◌*◌, ◌/◌, ◌^◌, ◌≤◌, ◌<◌, ◌≡◌, refl, min, Bool, true, false, ◌⊎◌, inl, inr,
  ◌||◌, Option, some, none, arith, ◌==◌, if◌then◌else◌,
}
use mathlib.Core.Path.{subst⁻¹}

-- Integers, here a relative due time.
pub data ℤ : Type 0 where
  pos negsuc : ℕ → ℤ

pub neg : ℕ → ℤ
neg zero = pos 0
neg (suc n) = negsuc n

-- The wait statuses.
abbrev pub wait_object_0 : ℕ
wait_object_0 = 0

abbrev pub wait_timeout : ℕ
wait_timeout = 258

abbrev pub infinite : ℕ
infinite = 0xFFFFFFFF

-- The ticks of `timeout_to_due_time`, 100 nanoseconds each.
unfoldable pub ticks_100ns : (nanoseconds : ℕ) → ℕ
ticks_100ns nanoseconds = min ((nanoseconds + 99) / 100) (2 ^ 63 - 1)

unfoldable pub timeout_to_due_time : (nanoseconds : ℕ) → ℤ
unfolding ticks_100ns neg
timeout_to_due_time nanoseconds = neg (ticks_100ns nanoseconds)

-- The system calls on the two objects of a wait handle.
pub record Kernel : Type 1 where
  pub State : Type 0
  pub wait_for_event : (timeout_ms : ℕ) → State → ℕ × State
  pub wait_for_timer : (timeout_ms : ℕ) → State → ℕ × State
  pub wait_for_either : State → ℕ × State
  pub set_timer : (due_time : ℤ) → State → Bool × State
  pub cancel_timer : State → Bool × State
  pub IsRunning : State → Type 0
  pub IsSignaled : State → Type 0

-- What is documented: a cancelled timer does not run; a wait on the timer takes its signal, and
-- without one the timer was not signaled; a timer that ended a wait is neither signaled nor, as
-- it is set once and without a period, running; and a wait on the event leaves the timer alone.
pub record IsDocumented (k : Kernel) : Type 0 where
  pub cancelled : (s : k.State) → (k.cancel_timer s).0 ≡ true → ¬ k.IsRunning (k.cancel_timer s).1
  pub drained :
      (s : k.State)
      → ((k.wait_for_timer 0 s).0 ≡ wait_object_0) ⊎ ((k.wait_for_timer 0 s).0 ≡ wait_timeout)
      → ¬ k.IsRunning s
      → (¬ k.IsRunning (k.wait_for_timer 0 s).1) × (¬ k.IsSignaled (k.wait_for_timer 0 s).1)
  pub consumed :
      (s : k.State)
      → (k.wait_for_either s).0 ≡ wait_object_0 + 1
      → (¬ k.IsRunning (k.wait_for_either s).1) × (¬ k.IsSignaled (k.wait_for_either s).1)
  pub apart :
      (timeout_ms : ℕ) (s : k.State)
      → ¬ k.IsRunning s
      → ¬ k.IsSignaled s
      → (¬ k.IsRunning (k.wait_for_event timeout_ms s).1)
        × (¬ k.IsSignaled (k.wait_for_event timeout_ms s).1)

-- The match of `wait_for_event`: any other status panics.
unfoldable pub checked {ℓ} : {S : Type ℓ} → ℕ × S → Option S
checked (status, s) = if status == wait_object_0 || status == wait_timeout then some s else none

unfoldable pub asserted {ℓ} : {S : Type ℓ} → Bool × S → Option S
asserted (true, s) = some s
asserted (false, s) = none

module _ (k : Kernel) where
  unfoldable pub disarm_timeout_timer : k.State → Option k.State
  unfolding checked asserted
  disarm_timeout_timer s = elim (asserted (k.cancel_timer s)) [
    | none ↦ none
    | some s' ↦ checked (k.wait_for_timer 0 s')
  ]

  unfoldable pub after_either : ℕ × k.State → Option k.State
  unfolding disarm_timeout_timer
  after_either (status, s) =
      if status == wait_object_0
      then disarm_timeout_timer s
      else if status == wait_object_0 + 1
      then some s
      else none

  unfoldable pub wait_for_event_or_timeout : (nanoseconds : ℕ) → k.State → Option k.State
  unfolding timeout_to_due_time after_either
  wait_for_event_or_timeout nanoseconds s =
      elim (asserted (k.set_timer (timeout_to_due_time nanoseconds) s)) [
        | none ↦ none
        | some s' ↦ after_either (k.wait_for_either s')
      ]

  unfoldable pub wait_on_handle : (timeout : Option ℕ) → k.State → Option k.State
  unfolding wait_for_event_or_timeout
  wait_on_handle none s = checked (k.wait_for_event infinite s)
  wait_on_handle (some zero) s = checked (k.wait_for_event 0 s)
  wait_on_handle (some (suc n)) s = wait_for_event_or_timeout (suc n) s

-- No call fails, and each wait ends with a status that it may end with.
pub record Succeeds (k : Kernel) : Type 0 where
  pub sets : (due_time : ℤ) (s : k.State) → (k.set_timer due_time s).0 ≡ true
  pub cancels : (s : k.State) → (k.cancel_timer s).0 ≡ true
  pub event_status :
      (timeout_ms : ℕ) (s : k.State)
      → ((k.wait_for_event timeout_ms s).0 ≡ wait_object_0)
        ⊎ ((k.wait_for_event timeout_ms s).0 ≡ wait_timeout)
  pub timer_status :
      (s : k.State)
      → ((k.wait_for_timer 0 s).0 ≡ wait_object_0) ⊎ ((k.wait_for_timer 0 s).0 ≡ wait_timeout)
  pub either_status :
      (s : k.State)
      → ((k.wait_for_either s).0 ≡ wait_object_0) ⊎ ((k.wait_for_either s).0 ≡ wait_object_0 + 1)

abbrev pub IsIdle : (k : Kernel) → k.State → Type 0
IsIdle k s = (¬ k.IsRunning s) × (¬ k.IsSignaled s)

-- The call returned, and left the timer idle.
abbrev pub ReturnsIdle : (k : Kernel) → Option k.State → Type 0
ReturnsIdle k r = (s : k.State) × (r ≡ some s) × IsIdle k s

checked_lem {ℓ} :
    {S : Type ℓ} (r : ℕ × S) → (r.0 ≡ wait_object_0) ⊎ (r.0 ≡ wait_timeout) → checked r ≡ some r.1
unfolding checked
checked_lem (status, s) (inl e) = rw e refl
checked_lem (status, s) (inr e) = rw e refl

asserted_lem {ℓ} : {S : Type ℓ} (r : Bool × S) → r.0 ≡ true → asserted r ≡ some r.1
unfolding asserted
asserted_lem (true, s) e = refl
asserted_lem (false, s) e = absurd (cc e)

module _ (k : Kernel) (doc : IsDocumented k) (fine : Succeeds k) where
  disarm_timeout_timer_lem :
      (s : k.State) → disarm_timeout_timer k s ≡ some (k.wait_for_timer 0 (k.cancel_timer s).1).1
  unfolding disarm_timeout_timer
  disarm_timeout_timer_lem s =
      let s' = (k.cancel_timer s).1 in
      rw (asserted_lem (k.cancel_timer s) (fine.cancels s), disarm_timeout_timer)
        (checked_lem (k.wait_for_timer 0 s') (fine.timer_status s'))

  disarm_timeout_timer-ReturnsIdle : (s : k.State) → ReturnsIdle k (disarm_timeout_timer k s)
  disarm_timeout_timer-ReturnsIdle s =
      let s' = (k.cancel_timer s).1 in
      (
        (k.wait_for_timer 0 s').1,
        disarm_timeout_timer_lem s,
        doc.drained s' (fine.timer_status s') (doc.cancelled s (fine.cancels s)),
      )

  after_either-ReturnsIdle : (s : k.State) → ReturnsIdle k (after_either k (k.wait_for_either s))
  unfolding after_either
  after_either-ReturnsIdle s =
      by_status (k.wait_for_either s) (fine.either_status s) (doc.consumed s)
    where
      by_status :
          (r : ℕ × k.State)
          → (r.0 ≡ wait_object_0) ⊎ (r.0 ≡ wait_object_0 + 1)
          → (r.0 ≡ wait_object_0 + 1 → IsIdle k r.1)
          → ReturnsIdle k (after_either k r)
      by_status (status, s') (inl e) idle = rw e (disarm_timeout_timer-ReturnsIdle s')
      by_status (status, s') (inr e) idle = (s', rw e refl, idle e)

  -- If no call of the system fails, and they do what their documentation says: `wait_on_handle`
  -- returns, with a timeout or without, whatever ended the wait, and an idle timer is idle again
  -- after it, neither running nor signaled, so that no later wait meets an old timeout.
  pub wait_on_handle-ReturnsIdle :
      (timeout : Option ℕ) (s : k.State) → IsIdle k s → ReturnsIdle k (wait_on_handle k timeout s)
  unfolding wait_on_handle wait_for_event_or_timeout
  wait_on_handle-ReturnsIdle none s (still, quiet) = (
    (k.wait_for_event infinite s).1,
    checked_lem (k.wait_for_event infinite s) (fine.event_status infinite s),
    doc.apart infinite s still quiet,
  )
  wait_on_handle-ReturnsIdle (some zero) s (still, quiet) = (
    (k.wait_for_event 0 s).1,
    checked_lem (k.wait_for_event 0 s) (fine.event_status 0 s),
    doc.apart 0 s still quiet,
  )
  wait_on_handle-ReturnsIdle (some (suc n)) s idle =
      let due = timeout_to_due_time (suc n) in
      let s' = (k.set_timer due s).1 in
      let armed : wait_for_event_or_timeout k (suc n) s ≡ after_either k (k.wait_for_either s') =
        rw (asserted_lem (k.set_timer due s) (fine.sets due s), wait_for_event_or_timeout) refl in
      subst⁻¹ (ReturnsIdle k) armed (after_either-ReturnsIdle s')

-- The due time is relative, so not positive, and fits an i64. It is not earlier than the timeout,
-- unless that is above the largest i64 of ticks, and less than one tick later.
pub timeout_to_due_time_bounds :
    (nanoseconds : ℕ)
    → (ticks : ℕ) × (timeout_to_due_time nanoseconds ≡ neg ticks)
      × (ticks < 2 ^ 63)
      × ((nanoseconds ≤ 100 * ticks) ⊎ (ticks ≡ 2 ^ 63 - 1))
      × (100 * ticks < nanoseconds + 100)
unfolding timeout_to_due_time ticks_100ns
timeout_to_due_time_bounds nanoseconds =
    (ticks_100ns nanoseconds, refl, omega arith, ground arith, omega arith)
