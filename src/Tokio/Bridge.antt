-- ===== src/Tokio/Bridge.antt =====
-- The bridge from waits to tasks on Unix, src/tokio/bridge.rs, an access at a time: a task in
-- `wait_changed`, the thread in `wait_loop`, the end of `publish_message` (or of
-- `commit_current_message`) in src/ring.rs, and `RunningWait::stop`. Accesses are sequentially
-- consistent.
pub mod Forwards
pub mod Stops
mod Tests
use shmem_ipc.Base.{ℕ, ◌+◌, ◌<◌, ◌^◌, ◌≡◌, Bool, true, false, not, ◌==◌, if◌then◌else◌}
use shmem_ipc.Base.Words.{u32_of}

-- Where the task stands in `wait_changed`; in `waiting` it is subscribed to `notify_waiters`.
pub data TaskPc : Type 0 where
  load_first subscribe load_second waiting returned : TaskPc

-- Where the thread stands in `wait_loop`. Its `observed` word is of the bumps `at`.
pub data ThreadPc : Type 0 where
  check_stop load_observed : ThreadPc
  raise reload enter asleep lower load_current : (at : ℕ) → ThreadPc
  lower_changed notify_changed : ThreadPc
  check_again : (changed : Bool) → ThreadPc
  notify_after ended : ThreadPc

-- Where the publishing process stands: before its look at `parked`, before its call of
-- `wake_handle`, or elsewhere.
pub data Publisher : Type 0 where
  quiet bumped waking : Publisher

-- Where `stop` stands: not called, before its bump of the notify word, before its call of
-- `wake_handle`, before `notify_waiters`, or in `join`.
pub data StopPc : Type 0 where
  uncalled bump wake notify joining : StopPc

pub record System : Type 0 where
  pub task : TaskPc
  pub thread : ThreadPc
  pub publisher : Publisher
  pub stopper : StopPc
  pub bumps : ℕ
  pub parked : ℕ
  pub stop : Bool
  pub notified : Bool

-- Whether the notify word is that of `at` bumps.
abbrev pub same_word : ℕ → ℕ → Bool
same_word bumps at = u32_of bumps == u32_of at

-- The task's next access, for the `observed` word of the bumps `at`; `elapsed` says whether the
-- quantum has passed.
unfoldable pub task_step : (at : ℕ) (elapsed : Bool) → System → System
task_step at elapsed x = elim x.task [
  | load_first ↦ record x { task = if same_word x.bumps at then subscribe else returned }
  | subscribe ↦ record x { task = load_second; notified = false }
  | load_second ↦ record x { task = if same_word x.bumps at then waiting else returned }
  | waiting ↦ record x {
    task = if x.notified then load_first else if elapsed then returned else waiting;
  }
  | returned ↦ x
]

-- The thread's next access. In `asleep` the sleep ends by its timeout.
unfoldable pub thread_step : System → System
thread_step x = elim x.thread [
  | check_stop ↦ record x { thread = if x.stop then ended else load_observed }
  | load_observed ↦ record x { thread = raise x.bumps }
  | raise at ↦ record x { thread = reload at; parked = 1 }
  | reload at ↦ record x { thread = if same_word x.bumps at then enter at else lower_changed }
  | lower_changed ↦ record x { thread = notify_changed; parked = 0 }
  | notify_changed ↦ record x { thread = check_stop; notified = true }
  | enter at ↦ record x { thread = if same_word x.bumps at then asleep at else lower at }
  | asleep at ↦ record x { thread = lower at }
  | lower at ↦ record x { thread = load_current at; parked = 0 }
  | load_current at ↦ record x { thread = check_again (not (same_word x.bumps at)) }
  | check_again changed ↦ record x {
    thread = if x.stop then ended else if changed then notify_after else check_stop;
  }
  | notify_after ↦ record x { thread = check_stop; notified = true }
  | ended ↦ x
]

wake_thread : ThreadPc → ThreadPc
wake_thread (asleep at) = lower at
wake_thread pc = pc

-- The publishing process's next access; from `quiet` it bumps the notify word.
unfoldable pub publisher_step : System → System
unfolding wake_thread
publisher_step x = elim x.publisher [
  | quiet ↦ record x { publisher = bumped; bumps = x.bumps + 1 }
  | bumped ↦ record x { publisher = if x.parked == 0 then quiet else waking }
  | waking ↦ record x { publisher = quiet; thread = wake_thread x.thread }
]

-- The next access of `stop`; it calls `wake_handle` without a look at `parked`.
unfoldable pub stop_step : System → System
unfolding wake_thread
stop_step x = elim x.stopper [
  | uncalled ↦ record x { stopper = bump; stop = true }
  | bump ↦ record x { stopper = wake; bumps = x.bumps + 1 }
  | wake ↦ record x { stopper = notify; thread = wake_thread x.thread }
  | notify ↦ record x { stopper = joining; notified = true }
  | joining ↦ x
]

-- The notify word has not gone all the way round since the thread's snapshot.
abbrev pub Recent : ThreadPc → ℕ → Type 0
Recent (raise at) bumps = bumps < at + 2 ^ 32
Recent (reload at) bumps = bumps < at + 2 ^ 32
Recent (enter at) bumps = bumps < at + 2 ^ 32
Recent (asleep at) bumps = bumps < at + 2 ^ 32
Recent (lower at) bumps = bumps < at + 2 ^ 32
Recent (load_current at) bumps = bumps < at + 2 ^ 32
Recent pc bumps = Unit

-- The thread has been spawned, and the task enters `wait_changed`.
abbrev pub started : (bumps : ℕ) → System
started bumps = record {
  task = load_first;
  thread = check_stop;
  publisher = quiet;
  stopper = uncalled;
  bumps = bumps;
  parked = 0;
  stop = false;
  notified = false;
}

-- Every interleaving, with the snapshot of the call of `wait_changed`; `again` is the next call.
pub data Reach : ℕ → System → Type 0 where
  start : (at bumps : ℕ) → Reach at (started bumps)
  again :
      {at : ℕ} {x : System} (next : ℕ) → Reach at x → Reach next (record x { task = load_first })
  by_task : {at : ℕ} {x : System} (elapsed : Bool) → Reach at x → Reach at (task_step at elapsed x)
  by_thread :
      {at : ℕ} {x : System} → Reach at x → Recent x.thread x.bumps → Reach at (thread_step x)
  by_publisher : {at : ℕ} {x : System} → Reach at x → Reach at (publisher_step x)
  by_stop : {at : ℕ} {x : System} → Reach at x → Reach at (stop_step x)
