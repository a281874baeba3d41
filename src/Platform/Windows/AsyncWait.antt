-- ===== src/Platform/Windows/AsyncWait.antt =====
-- A task that waits on Windows, an access at a time: `WaitChanged::poll` of src/tokio/bridge.rs
-- with `AsyncWaitState::poll` of src/platform/windows.rs, against the end of `publish_message` (or
-- of `commit_current_message`) in src/ring.rs with `wake_handle`, and the callbacks that the system
-- makes on its threads. Accesses are sequentially consistent.
pub mod Wakes
use shmem_ipc.Base.{ℕ, ◌+◌, ◌-◌, ◌≤◌, ◌<◌, ◌≡◌, ◌≢◌, ◌^◌, Bool, true, false, ◌==◌, if◌then◌else◌}
use shmem_ipc.Base.Words.{u32_of}

-- Where the task stands: in the loop of `poll`, in the poll of the wait handle, or in `disarm`.
-- `pending` is a poll that has returned Pending, and `ready` one that has returned.
pub data TaskPc : Type 0 where
  load_notify raise prepare first_swap store_waker second_swap pending : TaskPc
  clear_signaled clear_waker clear_parked ready : TaskPc

-- Where the other process stands: before it loads `parked`, before its call of `wake_handle`, or
-- elsewhere.
pub data Publisher : Type 0 where
  quiet bumped waking : Publisher

-- `event` is the state of the asynchronous event, `registered` says that the system waits on it.
-- Callbacks may overlap: `storing`, `reading` and `calling` count those before their store to
-- `signaled`, before their look at `waker`, and before their call of it. `woken` says that the
-- executor is to poll the task.
pub record System : Type 0 where
  pub task : TaskPc
  pub publisher : Publisher
  pub bumps : ℕ
  pub parked : ℕ
  pub armed : Bool
  pub registered : Bool
  pub event : Bool
  pub signaled : Bool
  pub waker : Bool
  pub storing : ℕ
  pub reading : ℕ
  pub calling : ℕ
  pub woken : Bool

-- The task's next access, for the `observed` word of the bumps `at`. In `pending` the executor
-- polls it.
unfoldable pub task_step : (at : ℕ) → System → System
task_step at x = elim x.task [
  | load_notify ↦ record x {
    task =
        if u32_of x.bumps == u32_of at
        then if x.armed then first_swap else raise
        else if x.armed
        then clear_signaled
        else ready;
  }
  | raise ↦ record x { task = prepare; parked = 1; armed = true }
  | prepare ↦ record x { task = load_notify; registered = true }
  | first_swap ↦ record x {
    task = if x.signaled then load_notify else store_waker;
    signaled = false;
  }
  | store_waker ↦ record x { task = second_swap; waker = true }
  | second_swap ↦ record x {
    task = if x.signaled then load_notify else pending;
    waker = if x.signaled then false else x.waker;
    signaled = false;
  }
  | pending ↦ record x { task = load_notify; woken = false }
  | clear_signaled ↦ record x { task = clear_waker; signaled = false }
  | clear_waker ↦ record x { task = clear_parked; waker = false }
  | clear_parked ↦ record x { task = ready; parked = 0; armed = false }
  | ready ↦ x
]

-- The other process's next access; from `quiet` it bumps the notify word.
unfoldable pub publisher_step : System → System
publisher_step x = elim x.publisher [
  | quiet ↦ record x { publisher = bumped; bumps = x.bumps + 1 }
  | bumped ↦ record x { publisher = if x.parked == 0 then quiet else waking }
  | waking ↦ record x { publisher = quiet; event = true }
]

-- The system takes the event's signal and starts a callback.
unfoldable pub fires : System → System
fires x = record x { event = false; storing = x.storing + 1 }

-- A callback's next access: the store to `signaled`, the look at `waker`, and the call.
unfoldable pub stores : System → System
stores x = record x { storing = x.storing - 1; reading = x.reading + 1; signaled = true }

unfoldable pub reads : System → System
reads x = record x {
  reading = x.reading - 1;
  calling = if x.waker then x.calling + 1 else x.calling;
}

unfoldable pub calls : System → System
calls x = record x { calling = x.calling - 1; woken = true }

-- `poll` is entered for the first time after a snapshot of `at` bumps. The wake-ups of earlier
-- waits may still be under way.
abbrev pub IsFresh : (at : ℕ) → System → Type 0
IsFresh at x = (x.task ≡ load_notify) × (x.armed ≡ false) × (at ≤ x.bumps)

-- Every interleaving. The task holds the lock of `waker` in `second_swap`, so that no callback
-- looks then; the notify word does not go all the way round.
pub data Reach (at : ℕ) : System → Type 0 where
  start : {x : System} → IsFresh at x → Reach at x
  by_task : {x : System} → Reach at x → x.bumps < at + 2 ^ 32 → Reach at (task_step at x)
  by_publisher : {x : System} → Reach at x → Reach at (publisher_step x)
  by_system : {x : System} → Reach at x → x.registered ≡ true → x.event ≡ true → Reach at (fires x)
  by_store : {x : System} → Reach at x → 0 < x.storing → Reach at (stores x)
  by_look : {x : System} → Reach at x → 0 < x.reading → x.task ≢ second_swap → Reach at (reads x)
  by_call : {x : System} → Reach at x → 0 < x.calling → Reach at (calls x)
