-- ===== src/Tokio/Bridge/Stops.antt =====
-- `RunningWait::stop` of src/tokio/bridge.rs: the thread that it joins ends.
use shmem_ipc.Base.{ℕ, suc, ◌-◌, ◌≤◌, ◌≡◌, refl, Bool, true, arith}
use shmem_ipc.Tokio.Bridge.{
  ThreadPc, check_stop, load_observed, raise, reload, enter, asleep, lower, load_current,
  lower_changed, notify_changed, check_again, notify_after, ended, Publisher, quiet, bumped, waking,
  StopPc, uncalled, bump, wake, notify, joining, TaskPc, load_first, subscribe, load_second,
  waiting, returned, System, task_step, thread_step, wake_thread, publisher_step, stop_step,
}

-- How many of the thread's accesses are left, at most, once `stop` is set.
rank : ThreadPc → ℕ
rank load_observed = 9
rank (raise at) = 8
rank (reload at) = 7
rank (enter at) = 6
rank (asleep at) = 5
rank (lower at) = 4
rank (load_current at) = 3
rank lower_changed = 3
rank notify_changed = 2
rank (check_again changed) = 2
rank notify_after = 2
rank check_stop = 1
rank ended = 0

-- From one state to another in `n` accesses of the thread, with any accesses of the others
-- between them. A sleep may be ended by its timeout only.
pub data Runs : (n : ℕ) → System → System → Type 0 where
  here : {x : System} → Runs 0 x x
  thread_moves : {n : ℕ} {x y : System} → Runs n (thread_step x) y → Runs (suc n) x y
  task_moves :
      {n : ℕ} {x y : System} (at : ℕ) (elapsed : Bool)
      → Runs n (task_step at elapsed x) y
      → Runs n x y
  publisher_moves : {n : ℕ} {x y : System} → Runs n (publisher_step x) y → Runs n x y
  stop_moves : {n : ℕ} {x y : System} → Runs n (stop_step x) y → Runs n x y

-- `stop` stays set, and the thread is within `n` accesses of its end.
abbrev Ending : ℕ → System → Type 0
Ending n x = (x.stop ≡ true) × (rank x.thread ≤ n)

thread_step-Ending :
    (n : ℕ) (pc : ThreadPc) (x : System)
    → Ending n (record x { thread = pc })
    → Ending (n - 1) (thread_step (record x { thread = pc }))
unfolding thread_step rank
thread_step-Ending n pc x e = ground arith

task_step-Ending :
    (n at : ℕ) (elapsed : Bool) (pc : TaskPc) (x : System)
    → Ending n x
    → Ending n (task_step at elapsed (record x { task = pc }))
unfolding task_step
task_step-Ending n at elapsed load_first x e = e
task_step-Ending n at elapsed subscribe x e = e
task_step-Ending n at elapsed load_second x e = e
task_step-Ending n at elapsed waiting x e = e
task_step-Ending n at elapsed returned x e = e

rank-wake_thread : (pc : ThreadPc) → rank (wake_thread pc) ≤ rank pc
unfolding rank wake_thread
rank-wake_thread pc = ground arith

publisher_step-Ending :
    (n : ℕ) (pc : Publisher) (x : System)
    → Ending n x
    → Ending n (publisher_step (record x { publisher = pc }))
unfolding publisher_step
publisher_step-Ending n quiet x e = e
publisher_step-Ending n bumped x e = e
publisher_step-Ending n waking x e = (e.0, omega (arith, rank-wake_thread x.thread))

stop_step-Ending :
    (n : ℕ) (pc : StopPc) (x : System)
    → Ending n x
    → Ending n (stop_step (record x { stopper = pc }))
unfolding stop_step
stop_step-Ending n uncalled x e = (refl, e.1)
stop_step-Ending n bump x e = e
stop_step-Ending n wake x e = (e.0, omega (arith, rank-wake_thread x.thread))
stop_step-Ending n notify x e = e
stop_step-Ending n joining x e = e

rank-eq-zero : (pc : ThreadPc) → rank pc ≤ 0 → pc ≡ ended
unfolding rank
rank-eq-zero pc h = ground arith

rank-le : (pc : ThreadPc) → rank pc ≤ 9
unfolding rank
rank-le pc = ground arith

Runs-ended :
    {n : ℕ} {x y : System} (left : ℕ) → Runs n x y → Ending left x → left ≤ n → y.thread ≡ ended
Runs-ended {x} left here e le = rank-eq-zero x.thread (omega arith)
Runs-ended {x} left (thread_moves r) e le =
    Runs-ended (left - 1) r (thread_step-Ending left x.thread x e) (omega arith)
Runs-ended {x} left (task_moves at elapsed r) e le =
    Runs-ended left r (task_step-Ending left at elapsed x.task x e) le
Runs-ended {x} left (publisher_moves r) e le =
    Runs-ended left r (publisher_step-Ending left x.publisher x e) le
Runs-ended {x} left (stop_moves r) e le = Runs-ended left r (stop_step-Ending left x.stopper x e) le

-- Once `stop` has set its flag, the thread ends with its ninth access at the latest, wherever it
-- stands and whatever the task, a publishing process and the rest of `stop` do in between; so
-- `join` returns. A sleep that nobody ends counts as one access, by its timeout.
pub stopped_thread_ends : {x y : System} → x.stop ≡ true → Runs 9 x y → y.thread ≡ ended
stopped_thread_ends {x} on r = Runs-ended 9 r (on, rank-le x.thread) (omega arith)
