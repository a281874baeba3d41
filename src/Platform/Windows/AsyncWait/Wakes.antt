-- ===== src/Platform/Windows/AsyncWait/Wakes.antt =====
-- No wake-up of a waiting task is missed on Windows.
use shmem_ipc.Base.{ℕ, ◌+◌, ◌≤◌, ◌<◌, ◌^◌, ◌≡◌, ◌≢◌, refl, ◌⊎◌, true, arith}
use mathlib.Core.Path.{subst, subst⁻¹}
use shmem_ipc.Platform.Windows.AsyncWait.{
  TaskPc, load_notify, raise, prepare, first_swap, store_waker, second_swap, pending,
  clear_signaled, clear_waker, clear_parked, ready, quiet, System, task_step, publisher_step, fires,
  stores, reads, calls, Reach, start, by_task, by_publisher, by_system, by_store, by_look, by_call,
}

-- Somebody has still to do a part of the wake-up, or the executor has been told to poll.
abbrev pub Alert : System → Type 0
Alert x =
    (x.publisher ≢ quiet)
    ⊎ ((x.event ≡ true) ⊎ ((0 < x.storing + x.reading + x.calling) ⊎ (x.woken ≡ true)))

-- The same before the task has stored its waker, where a callback's look at it is of no use.
abbrev Early : System → Type 0
Early x =
    (x.publisher ≢ quiet)
    ⊎ ((x.event ≡ true) ⊎ ((0 < x.storing + x.calling) ⊎ ((x.signaled ≡ true) ⊎ (x.woken ≡ true))))

-- What a wake-up needs of the task.
abbrev pub IsArmed : System → Type 0
IsArmed x = (x.parked ≡ 1) × (x.registered ≡ true)

-- What holds at each place of the task.
abbrev At : (at : ℕ) → TaskPc → System → Type 0
At at load_notify x = (at ≤ x.bumps) × (x.armed ≡ true → IsArmed x)
At at raise x = at ≤ x.bumps
At at prepare x = (at ≤ x.bumps) × (x.parked ≡ 1)
At at first_swap x = (at ≤ x.bumps) × IsArmed x × ((x.bumps ≡ at) ⊎ Early x)
At at store_waker x = (at ≤ x.bumps) × IsArmed x × ((x.bumps ≡ at) ⊎ Early x)
At at second_swap x =
    (at ≤ x.bumps)
    × IsArmed x
    × (x.waker ≡ true)
    × ((x.bumps ≡ at) ⊎ ((x.signaled ≡ true) ⊎ Alert x))
At at pending x = (at ≤ x.bumps) × IsArmed x × (x.waker ≡ true) × ((x.bumps ≡ at) ⊎ Alert x)
At at pc x = Unit

abbrev Inv : ℕ → System → Type 0
Inv at x = At at x.task x

abbrev placed : TaskPc → System → System
placed pc x = record x { task = pc }

task_step-Inv :
    (at : ℕ) (pc : TaskPc) (x : System)
    → At at pc x
    → x.bumps < at + 2 ^ 32
    → Inv at (task_step at (placed pc x))
unfolding task_step
task_step-Inv at load_notify x i recent = ground arith
task_step-Inv at raise x i recent = ground arith
task_step-Inv at prepare x i recent = ground arith
task_step-Inv at first_swap x i recent = ground arith
task_step-Inv at store_waker x i recent = ground arith
task_step-Inv at second_swap x i recent = ground arith
task_step-Inv at pending x i recent = ground arith
task_step-Inv at clear_signaled x i recent = tt
task_step-Inv at clear_waker x i recent = tt
task_step-Inv at clear_parked x i recent = tt
task_step-Inv at ready x i recent = tt

publisher_step-Inv : (at : ℕ) (pc : TaskPc) (x : System) → At at pc x → At at pc (publisher_step x)
unfolding publisher_step
publisher_step-Inv at load_notify x i = ground arith
publisher_step-Inv at raise x i = ground arith
publisher_step-Inv at prepare x i = ground arith
publisher_step-Inv at first_swap x i = ground arith
publisher_step-Inv at store_waker x i = ground arith
publisher_step-Inv at second_swap x i = ground arith
publisher_step-Inv at pending x i = ground arith
publisher_step-Inv at pc x i = tt

-- What the system and its callbacks do where they wait for nothing.
fires-Inv : (at : ℕ) (pc : TaskPc) (x : System) → At at pc x → At at pc (fires x)
unfolding fires
fires-Inv at first_swap x i = ground arith
fires-Inv at store_waker x i = ground arith
fires-Inv at second_swap x i = ground arith
fires-Inv at pending x i = ground arith
fires-Inv at pc x i = i

stores-Inv : (at : ℕ) (pc : TaskPc) (x : System) → At at pc x → 0 < x.storing → At at pc (stores x)
unfolding stores
stores-Inv at first_swap x i h = ground arith
stores-Inv at store_waker x i h = ground arith
stores-Inv at second_swap x i h = ground arith
stores-Inv at pending x i h = ground arith
stores-Inv at pc x i h = i

reads-Inv :
    (at : ℕ) (pc : TaskPc) (x : System)
    → At at pc x
    → 0 < x.reading
    → pc ≢ second_swap
    → At at pc (reads x)
unfolding reads
reads-Inv at first_swap x i h free = ground arith
reads-Inv at store_waker x i h free = ground arith
reads-Inv at second_swap x i h free = absurd (free refl)
reads-Inv at pending x i h free = ground arith
reads-Inv at pc x i h free = i

calls-Inv : (at : ℕ) (pc : TaskPc) (x : System) → At at pc x → 0 < x.calling → At at pc (calls x)
unfolding calls
calls-Inv at first_swap x i h = ground arith
calls-Inv at store_waker x i h = ground arith
calls-Inv at second_swap x i h = ground arith
calls-Inv at pending x i h = ground arith
calls-Inv at pc x i h = i

publisher_step_task : (x : System) → (publisher_step x).task ≡ x.task
unfolding publisher_step
publisher_step_task x = ground arith

Reach-Inv : {at : ℕ} {x : System} → Reach at x → Inv at x
unfolding fires stores reads calls
Reach-Inv {at} (start {x} (place, unarmed, le)) =
    subst⁻¹ (λ pc. At at pc x) place (le, λ h. absurd (cc (unarmed, h)))
Reach-Inv {at} (by_task {x} r recent) = task_step-Inv at x.task x (Reach-Inv r) recent
Reach-Inv {at} (by_publisher {x} r) =
    subst⁻¹ (λ pc. At at pc (publisher_step x)) (publisher_step_task x)
      (publisher_step-Inv at x.task x (Reach-Inv r))
Reach-Inv {at} (by_system {x} r on event) = fires-Inv at x.task x (Reach-Inv r)
Reach-Inv {at} (by_store {x} r some) = stores-Inv at x.task x (Reach-Inv r) some
Reach-Inv {at} (by_look {x} r some free) = reads-Inv at x.task x (Reach-Inv r) some free
Reach-Inv {at} (by_call {x} r some) = calls-Inv at x.task x (Reach-Inv r) some

-- In every interleaving of a waiting task, one publishing process, and the callbacks of the
-- system: if the task's poll has returned Pending although the notify word has changed since the
-- snapshot, then the wake-up is under way. The publishing process has yet to look at `parked` or to
-- set the event, or the event is set, or a callback has yet to store, to look or to call, or the
-- task has been woken; and `parked` is raised, the system waits on the event, and the waker is
-- stored, as each of them needs. So no timer is needed. The notify word may wrap, but not go all
-- the way round since the snapshot.
pub no_missed_async_wake :
    {at : ℕ} {x : System}
    → Reach at x
    → x.task ≡ pending
    → at < x.bumps
    → Alert x × IsArmed x × (x.waker ≡ true)
no_missed_async_wake {at} {x} r place changed =
    let i : At at pending x = subst (λ pc. At at pc x) place (Reach-Inv r) in ground arith
