-- ===== src/Platform/Windows/Tests.antt =====
-- The theorems on src/platform/windows.rs at concrete inputs.
use shmem_ipc.Base.{ℕ, ◌+◌, ◌<◌, ◌≡◌, refl, Bool, true, false, [], ◌∷◌, some, arith, if◌then◌else◌}
use shmem_ipc.Error.{Error, IoError, ok, err}
use shmem_ipc.Platform.Windows.Handles.{
  Created, AllCreated, Balanced, new_wait_set, new_wait_set-Balanced,
}
use shmem_ipc.Platform.Windows.EventName.{
  ring_a_writer, async, stable_name_hash, event_name-injective,
}
use shmem_ipc.Platform.Windows.Timer.{
  Kernel, IsDocumented, Succeeds, ReturnsIdle, wait_object_0, wait_timeout, wait_on_handle,
  wait_on_handle-ReturnsIdle,
}
use shmem_ipc.Platform.Windows.AsyncWait
use shmem_ipc.Platform.Windows.AsyncWait.{
  TaskPc, load_notify, pending, quiet, task_step, publisher_step, Reach, start, by_task,
  by_publisher,
}
use shmem_ipc.Platform.Windows.AsyncWait.Wakes.{Alert, IsArmed, no_missed_async_wake}

abbrev three : ℕ → Created
three n = record { event = ok n; async_event = ok (n + 1); timeout_timer = ok (n + 2) }

-- The last timer cannot be made.
abbrev short_of_one : AllCreated
short_of_one = record {
  ring_a_writer = three 10;
  ring_a_reader = three 20;
  ring_b_writer = three 30;
  ring_b_reader = record {
    event = ok 40;
    async_event = ok 41;
    timeout_timer = err (Error.io (IoError.other 8));
  };
}

new_wait_set-Balanced_example : Balanced (λ _. 0) (new_wait_set short_of_one (λ _. 0))
new_wait_set-Balanced_example = new_wait_set-Balanced short_of_one (λ _. 0)

-- The hash of the name "a".
hash_a : stable_name_hash (97 ∷ []) ≡ 0xaf63dc4c8601ec8c
unfolding stable_name_hash
hash_a = refl

event_name-injective_example :
    (stable_name_hash (97 ∷ []) ≡ stable_name_hash (97 ∷ []))
    × (◌≡◌ {A = ℕ} 7 7)
    × (ring_a_writer ≡ ring_a_writer)
    × (async ≡ async)
event_name-injective_example =
    event_name-injective (97 ∷ []) (97 ∷ []) 7 7 ring_a_writer ring_a_writer async async refl

-- An event and a timer that fires as soon as a wait needs it.
record Objects : Type 0 where
  event : Bool
  running : Bool
  signaled : Bool

abbrev objects : Kernel
objects = record {
  State = Objects;
  wait_for_event =
      λ ms o. (if o.event then wait_object_0 else wait_timeout, record o { event = false });
  wait_for_timer =
      λ ms o. (if o.signaled then wait_object_0 else wait_timeout, record o { signaled = false });
  wait_for_either = λ o.
      if o.event
      then (wait_object_0, record o { event = false })
      else (wait_object_0 + 1, record o { running = false; signaled = false });
  set_timer = λ due o. (true, record o { running = true; signaled = false });
  cancel_timer = λ o. (true, record o { running = false });
  IsRunning = λ o. o.running ≡ true;
  IsSignaled = λ o. o.signaled ≡ true;
}

objects-IsDocumented : IsDocumented objects
objects-IsDocumented = record {
  cancelled = λ o e h. ground (arith, h);
  drained = λ o e still. ground (arith, still);
  consumed = λ o e. ground arith;
  apart = λ ms o still quiet. ground (arith, still, quiet);
}

objects-Succeeds : Succeeds objects
objects-Succeeds = record {
  sets = λ due o. refl;
  cancels = λ o. refl;
  event_status = λ ms o. ground arith;
  timer_status = λ o. ground arith;
  either_status = λ o. ground arith;
}

abbrev set_event : Objects
set_event = record { event = true; running = false; signaled = false }

wait_on_handle-ReturnsIdle_example :
    ReturnsIdle objects (wait_on_handle objects (some 150) set_event)
wait_on_handle-ReturnsIdle_example =
    wait_on_handle-ReturnsIdle objects objects-IsDocumented objects-Succeeds (some 150) set_event
      (λ e. cc, λ e. cc)

-- A task's first poll, and then a publication.
abbrev polled : AsyncWait.System
polled = record {
  task = load_notify;
  publisher = quiet;
  bumps = 4;
  parked = 0;
  armed = false;
  registered = false;
  event = false;
  signaled = false;
  waker = false;
  storing = 0;
  reading = 0;
  calling = 0;
  woken = false;
}

abbrev parked : AsyncWait.System
parked =
    task_step 4
      (task_step 4 (task_step 4 (task_step 4 (task_step 4 (task_step 4 (task_step 4 polled))))))

parked-Reach : Reach 4 parked
unfolding task_step
parked-Reach =
    by_task
      (by_task
        (by_task
          (by_task
            (by_task
              (by_task (by_task (start {x = polled} (refl, refl, omega arith)) (omega arith))
                (omega arith))
              (omega arith))
            (omega arith))
          (omega arith))
        (omega arith))
      (omega arith)

parked_pending : (publisher_step parked).task ≡ pending
unfolding task_step publisher_step
parked_pending = refl

parked_changed : 4 < (publisher_step parked).bumps
unfolding task_step publisher_step
parked_changed = omega arith

no_missed_async_wake_example :
    Alert (publisher_step parked)
    × IsArmed (publisher_step parked)
    × ((publisher_step parked).waker ≡ true)
no_missed_async_wake_example =
    no_missed_async_wake (by_publisher parked-Reach) parked_pending parked_changed
