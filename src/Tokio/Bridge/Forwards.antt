-- ===== src/Tokio/Bridge/Forwards.antt =====
-- What the thread of src/tokio/bridge.rs forwards to a waiting task.
use shmem_ipc.Base.{ℕ, ◌+◌, ◌≤◌, ◌<◌, ◌^◌, ◌≡◌, ◌≢◌, refl, ◌⊎◌, Bool, true, false, arith}
use mathlib.Core.Path.{subst}
use shmem_ipc.Tokio.Bridge.{
  ThreadPc, check_stop, load_observed, raise, reload, enter, asleep, lower, load_current,
  lower_changed, notify_changed, check_again, notify_after, ended, quiet, wake, TaskPc, load_first,
  subscribe, load_second, waiting, returned, System, same_word, task_step, thread_step, wake_thread,
  publisher_step, stop_step, Recent, Reach, start, again, by_task, by_thread, by_publisher, by_stop,
}

-- Somebody is in the middle of a bump and its wake-up.
abbrev pub Busy : System → Type 0
Busy x = (x.publisher ≢ quiet) ⊎ (x.stopper ≡ wake)

-- What holds at each place of the thread.
abbrev At : ThreadPc → System → Type 0
At (raise at) x = at ≤ x.bumps
At (reload at) x = (at ≤ x.bumps) × (x.parked ≡ 1)
At (enter at) x = (at ≤ x.bumps) × (x.parked ≡ 1)
At (asleep at) x = (at ≤ x.bumps) × (x.parked ≡ 1) × ((at ≡ x.bumps) ⊎ Busy x)
At (lower at) x = at ≤ x.bumps
At (load_current at) x = at ≤ x.bumps
At pc x = Unit

abbrev Inv : System → Type 0
Inv x = At x.thread x

abbrev placed : ThreadPc → System → System
placed pc x = record x { thread = pc }

thread_step-Inv :
    (pc : ThreadPc) (x : System) → At pc x → Recent pc x.bumps → Inv (thread_step (placed pc x))
unfolding thread_step
thread_step-Inv check_stop x i recent = ground arith
thread_step-Inv load_observed x i recent = ground arith
thread_step-Inv (raise at) x i recent = ground arith
thread_step-Inv (reload at) x i recent = ground arith
thread_step-Inv (enter at) x i recent = ground arith
thread_step-Inv (asleep at) x i recent = ground arith
thread_step-Inv (lower at) x i recent = ground arith
thread_step-Inv (load_current at) x i recent = tt
thread_step-Inv lower_changed x i recent = tt
thread_step-Inv notify_changed x i recent = tt
thread_step-Inv (check_again changed) x i recent = ground arith
thread_step-Inv notify_after x i recent = tt
thread_step-Inv ended x i recent = tt

publisher_step-Inv : (pc : ThreadPc) (x : System) → At pc x → Inv (publisher_step (placed pc x))
unfolding publisher_step wake_thread
publisher_step-Inv (raise at) x i = ground arith
publisher_step-Inv (reload at) x i = ground arith
publisher_step-Inv (enter at) x i = ground arith
publisher_step-Inv (asleep at) x i = ground arith
publisher_step-Inv (lower at) x i = ground arith
publisher_step-Inv (load_current at) x i = ground arith
publisher_step-Inv pc x i = ground arith

stop_step-Inv : (pc : ThreadPc) (x : System) → At pc x → Inv (stop_step (placed pc x))
unfolding stop_step wake_thread
stop_step-Inv (raise at) x i = ground arith
stop_step-Inv (reload at) x i = ground arith
stop_step-Inv (enter at) x i = ground arith
stop_step-Inv (asleep at) x i = ground arith
stop_step-Inv (lower at) x i = ground arith
stop_step-Inv (load_current at) x i = ground arith
stop_step-Inv pc x i = ground arith

-- The task does not concern the thread.
At-task :
    (pc : ThreadPc) (x : System) (t : TaskPc) (n : Bool)
    → At pc x
    → At pc (record x { task = t; notified = n })
At-task (raise at) x t n i = i
At-task (reload at) x t n i = i
At-task (enter at) x t n i = i
At-task (asleep at) x t n i = i
At-task (lower at) x t n i = i
At-task (load_current at) x t n i = i
At-task pc x t n i = tt

task_step-Inv :
    (at : ℕ) (elapsed : Bool) (pc : TaskPc) (x : System)
    → Inv x
    → Inv (task_step at elapsed (record x { task = pc }))
unfolding task_step
task_step-Inv at elapsed load_first x i = At-task x.thread x _ x.notified i
task_step-Inv at elapsed subscribe x i = At-task x.thread x load_second false i
task_step-Inv at elapsed load_second x i = At-task x.thread x _ x.notified i
task_step-Inv at elapsed waiting x i = At-task x.thread x _ x.notified i
task_step-Inv at elapsed returned x i = At-task x.thread x returned x.notified i

Reach-Inv : {at : ℕ} {x : System} → Reach at x → Inv x
Reach-Inv (start at bumps) = tt
Reach-Inv (again {x} next r) = At-task x.thread x load_first x.notified (Reach-Inv r)
Reach-Inv (by_task {at} {x} elapsed r) = task_step-Inv at elapsed x.task x (Reach-Inv r)
Reach-Inv (by_thread {at} {x} r recent) = thread_step-Inv x.thread x (Reach-Inv r) recent
Reach-Inv (by_publisher {at} {x} r) = publisher_step-Inv x.thread x (Reach-Inv r)
Reach-Inv (by_stop {at} {x} r) = stop_step-Inv x.thread x (Reach-Inv r)

-- The snapshot that the thread holds.
pub data Holds : ThreadPc → ℕ → Type 0 where
  raising : {at : ℕ} → Holds (raise at) at
  reloading : {at : ℕ} → Holds (reload at) at
  entering : {at : ℕ} → Holds (enter at) at
  sleeping : {at : ℕ} → Holds (asleep at) at
  lowering : {at : ℕ} → Holds (lower at) at
  loading : {at : ℕ} → Holds (load_current at) at

abbrev pub six_steps : System → System
six_steps x = thread_step (thread_step (thread_step (thread_step (thread_step (thread_step x)))))

forwarded :
    {pc : ThreadPc} {held : ℕ} (x : System)
    → Holds pc held
    → pc ≢ asleep held
    → x.stop ≡ false
    → same_word x.bumps held ≡ false
    → (six_steps (placed pc x)).notified ≡ true
unfolding thread_step
forwarded {held} x raising awake on differs = ground (arith, on, differs)
forwarded {held} x reloading awake on differs = ground (arith, on, differs)
forwarded {held} x entering awake on differs = ground (arith, on, differs)
forwarded {held} x sleeping awake on differs = absurd (awake refl)
forwarded {held} x lowering awake on differs = ground (arith, on, differs)
forwarded {held} x loading awake on differs = ground (arith, on, differs)

Holds-Recent :
    {pc : ThreadPc} {held : ℕ} (x : System)
    → Holds pc held
    → At pc x
    → Recent pc x.bumps
    → (held ≤ x.bumps) × (x.bumps < held + 2 ^ 32)
Holds-Recent x raising i recent = (i, recent)
Holds-Recent x reloading i recent = (i.0, recent)
Holds-Recent x entering i recent = (i.0, recent)
Holds-Recent x sleeping i recent = (i.0, recent)
Holds-Recent x lowering i recent = (i, recent)
Holds-Recent x loading i recent = (i, recent)

-- In every interleaving: if the notify word has changed since the snapshot that the thread holds,
-- nobody is between a bump and its wake-up, and the waits have not been stopped, then six
-- accesses of the thread, without any timeout, notify the waiting tasks. It does not sleep through a change that
-- came after its own snapshot. The word may wrap, but not go all the way round since then.
pub change_forwarded :
    {at held : ℕ} {x : System}
    → Reach at x
    → Holds x.thread held
    → held < x.bumps
    → ¬ Busy x
    → x.stop ≡ false
    → Recent x.thread x.bumps
    → (x.thread ≢ asleep held) × ((six_steps x).notified ≡ true)
change_forwarded {at} {held} {x} r holds changed calm on recent =
    let (le, near) = Holds-Recent x holds (Reach-Inv r) recent in
    let differs : same_word x.bumps held ≡ false = ground arith in
    let awake : x.thread ≢ asleep held = λ place.
      let i : At (asleep held) x = subst (λ pc. At pc x) place (Reach-Inv r) in
      ground (arith, calm, i) in
    (awake, forwarded x holds awake on differs)
