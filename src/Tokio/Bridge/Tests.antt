-- ===== src/Tokio/Bridge/Tests.antt =====
-- The theorems on src/tokio/bridge.rs at concrete inputs, and a run in which a task is left to its
-- quantum.
use shmem_ipc.Base.{◌≡◌, ◌≢◌, ◌<◌, refl, true, false, arith}
use shmem_ipc.Tokio.Bridge.{
  enter, asleep, waiting, quiet, ended, System, task_step, thread_step, publisher_step, stop_step,
  started, Reach, start, by_task, by_thread, by_publisher,
}
use shmem_ipc.Tokio.Bridge.Forwards.{Busy, entering, six_steps, change_forwarded}
use shmem_ipc.Tokio.Bridge.Stops.{Runs, here, thread_moves, stopped_thread_ends}

-- The thread is about to sleep, and then one message is published.
abbrev entered : System
entered = thread_step (thread_step (thread_step (thread_step (started 0))))

abbrev changed : System
changed = publisher_step (publisher_step (publisher_step entered))

changed-Reach : Reach 0 changed
unfolding thread_step
changed-Reach = by_publisher (
    by_publisher (
      by_publisher (
        by_thread (by_thread (by_thread (by_thread (start 0 0) tt) tt) (omega arith))
          (omega arith))))

changed_thread : changed.thread ≡ enter 0
unfolding thread_step publisher_step
changed_thread = refl

changed_calm : ¬ Busy changed
unfolding thread_step publisher_step
changed_calm busy = ground (arith, busy)

change_forwarded_example : (changed.thread ≢ asleep 0) × ((six_steps changed).notified ≡ true)
unfolding thread_step publisher_step
change_forwarded_example =
    change_forwarded changed-Reach entering (omega arith) changed_calm refl (omega arith)

abbrev stopping : System
stopping = stop_step entered

stopping_on : stopping.stop ≡ true
unfolding stop_step thread_step
stopping_on = refl

nine_moves : Runs 9 stopping (
    thread_step (
      thread_step (
        thread_step (
          thread_step
            (thread_step (thread_step (thread_step (thread_step (thread_step stopping)))))))))
nine_moves = thread_moves (
    thread_moves (
      thread_moves (
        thread_moves
          (thread_moves (thread_moves (thread_moves (thread_moves (thread_moves here))))))))

stopped_thread_ends_example :
    (thread_step (
      thread_step (
        thread_step (
          thread_step (
            thread_step (thread_step (thread_step (thread_step (thread_step stopping))))))))).thread
    ≡ ended
stopped_thread_ends_example = stopped_thread_ends stopping_on nine_moves

-- A task waits for a change of the word 0. A message is published before the thread takes its
-- snapshot, and the thread then sleeps on the new word.
abbrev subscribed : System
subscribed = task_step 0 false (task_step 0 false (task_step 0 false (started 0)))

abbrev late : System
late = thread_step (
    thread_step
      (thread_step (thread_step (thread_step (publisher_step (publisher_step subscribed))))))

late-Reach : Reach 0 late
unfolding task_step thread_step publisher_step
late-Reach =
    by_thread
      (by_thread
        (by_thread
          (by_thread
            (by_thread
              (by_publisher
                (by_publisher (by_task false (by_task false (by_task false (start 0 0))))))
              tt)
            tt)
          (omega arith))
        (omega arith))
      (omega arith)

left_waiting :
    (late.task ≡ waiting)
    × (late.notified ≡ false)
    × (late.thread ≡ asleep 1)
    × (late.publisher ≡ quiet)
    × (0 < late.bumps)
unfolding task_step thread_step publisher_step
left_waiting = (refl, refl, refl, refl, omega arith)

-- Only the quantum ends the wait.
quantum_ends : (task_step 0 false late).task ≡ waiting
unfolding task_step thread_step publisher_step
quantum_ends = refl
