-- ===== src/Wait/Steps.antt =====
-- One waiting process and the other one that wakes it, an access at a time: the second phase of
-- `SpinThenWait::wait_until` in src/wait.rs with the futex of src/platform/linux.rs, against the
-- end of `publish_message` (or of `commit_current_message`) in src/ring.rs. Accesses are
-- sequentially consistent, as the fence of `wait_until` makes them.
pub mod Wakes
use shmem_ipc.Base.{ℕ, ◌+◌, ◌%◌, ◌^◌, ◌≤◌, ◌<◌, ◌≡◌, Bool, leb, ◌==◌, if◌then◌else◌}
use shmem_ipc.Base.Words.{u32_of}

-- Where the waiting process stands. `at` counts the bumps of the notify word up to its snapshot.
pub data WaitPc : Type 0 where
  load_notify : WaitPc
  first_look measure raise second_look enter : (at : ℕ) → WaitPc
  asleep : WaitPc
  awake : WaitPc  -- before `parked` is cleared
  found : WaitPc
  late : WaitPc

-- Where the other process stands: before it bumps the notify word, before it loads `parked`,
-- before its call of `wake_handle`, or elsewhere.
pub data WakePc : Type 0 where
  quiet stored bumped waking : WakePc

-- `published` stands for the cursor that the condition reads, `bumps` for the notify word, which
-- is `bumps` modulo 2 ^ 32.
pub record System : Type 0 where
  pub waiter : WaitPc
  pub waker : WakePc
  pub published : ℕ
  pub bumps : ℕ
  pub parked : ℕ

abbrev pub word : ℕ → ℕ
word n = u32_of n

-- The waiting process's next access. The condition holds once `wanted` has been published, and
-- `expired` says whether the deadline has passed; a sleeping process is woken by its timeout.
unfoldable pub wait_step : (wanted : ℕ) (expired : Bool) → System → System
wait_step wanted expired x = elim x.waiter [
  | load_notify ↦ record x { waiter = first_look x.bumps }
  | first_look at ↦ record x { waiter = if leb wanted x.published then found else measure at }
  | measure at ↦ record x { waiter = if expired then late else raise at }
  | raise at ↦ record x { waiter = second_look at; parked = 1 }
  | second_look at ↦
      if leb wanted x.published
      then record x { waiter = found; parked = 0 }
      else record x { waiter = enter at }
  | enter at ↦ record x { waiter = if word x.bumps == word at then asleep else awake }
  | asleep ↦ record x { waiter = awake }
  | awake ↦ record x { waiter = load_notify; parked = 0 }
  | found ↦ x
  | late ↦ x
]

-- The store to the cursor.
unfoldable pub publishes : System → System
publishes x = record x { waker = stored; published = x.published + 1 }

wake_waiter : WaitPc → WaitPc
wake_waiter asleep = awake
wake_waiter pc = pc

-- The other process's next access after that store.
unfoldable pub wake_step : System → System
unfolding wake_waiter
wake_step x = elim x.waker [
  | quiet ↦ x
  | stored ↦ record x { waker = bumped; bumps = x.bumps + 1 }
  | bumped ↦ record x { waker = if x.parked == 0 then quiet else waking }
  | waking ↦ record x { waker = quiet; waiter = wake_waiter x.waiter }
]

abbrev pub started : System
started = record { waiter = load_notify; waker = quiet; published = 0; bumps = 0; parked = 0 }

-- The notify word has not gone all the way round since the snapshot.
abbrev pub Recent : WaitPc → ℕ → Type 0
Recent (enter at) bumps = bumps < at + 2 ^ 32
Recent pc bumps = Unit

-- Every interleaving.
pub data Reach (wanted : ℕ) : System → Type 0 where
  start : Reach wanted started
  waits :
      {x : System} (expired : Bool)
      → Reach wanted x
      → Recent x.waiter x.bumps
      → Reach wanted (wait_step wanted expired x)
  stores : {x : System} → Reach wanted x → x.waker ≡ quiet → Reach wanted (publishes x)
  wakes : {x : System} → Reach wanted x → Reach wanted (wake_step x)
