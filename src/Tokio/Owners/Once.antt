-- ===== src/Tokio/Owners/Once.antt =====
-- Every call of src/tokio/mod.rs keeps the clones balanced, so that SharedChannel is dropped once.
use shmem_ipc.Base.{◌≡◌, refl, List, [], ◌∷◌, some}
use shmem_ipc.Tokio.Owners.{World, clone_arc, new_wait, from_sync, new_channel}
use shmem_ipc.Tokio.Owners.Calls.{
  Held, Call, use_send, use_recv, convert, separate, drop_whole, drop_send, drop_recv, call,
  created, run,
}
use shmem_ipc.Tokio.Owners.Balanced.{
  wait_arcs, wait_threads, Live, Whole, whole_channel, whole_connection, whole_halves,
  whole_nothing, ends_arcs, ends_threads, arcs_of, threads_of, Balanced,
}
use shmem_ipc.Tokio.Owners.Drops.{fresh_wait}
use shmem_ipc.Tokio.Owners.Uses.{
  Ended, convert-Balanced, separate-Balanced, use_send-Balanced, use_recv-Balanced, drop-Balanced,
}

module _ {w : World} where
  convert_any : {h : Held} → Whole h → Live (arcs_of h) (threads_of h) w → Ended (call convert h w)
  unfolding call arcs_of threads_of
  convert_any (whole_channel s r) l = convert-Balanced s r l
  convert_any (whole_connection s r) l =
      (_, _, refl, record { whole = whole_connection s r; live = l })
  convert_any (whole_halves x y) l = (_, _, refl, record { whole = whole_halves x y; live = l })
  convert_any whole_nothing l = (_, _, refl, record { whole = whole_nothing; live = l })

  separate_any :
      {h : Held} → Whole h → Live (arcs_of h) (threads_of h) w → Ended (call separate h w)
  unfolding call arcs_of threads_of
  separate_any (whole_channel s r) l = (_, _, refl, record { whole = whole_channel s r; live = l })
  separate_any (whole_connection s r) l = separate-Balanced s r l
  separate_any (whole_halves x y) l = (_, _, refl, record { whole = whole_halves x y; live = l })
  separate_any whole_nothing l = (_, _, refl, record { whole = whole_nothing; live = l })

call-Balanced : (c : Call) {h : Held} {w : World} → Balanced h w → Ended (call c h w)
call-Balanced (use_send z) b = use_send-Balanced z b.whole b.live
call-Balanced (use_recv z) b = use_recv-Balanced z b.whole b.live
call-Balanced convert b = convert_any b.whole b.live
call-Balanced separate b = separate_any b.whole b.live
call-Balanced drop_whole b = (drop-Balanced b.whole b.live).0
call-Balanced drop_send b = (drop-Balanced b.whole b.live).1
call-Balanced drop_recv b = (drop-Balanced b.whole b.live).2

run-Balanced : (cs : List Call) {h : Held} {w : World} → Balanced h w → Ended (run cs h w)
unfolding run
run-Balanced [] b = (_, _, refl, b)
run-Balanced (c ∷ cs) b =
    let (h', w', one, b') = call-Balanced c b in
    let (h2, w2, rest, b2) = run-Balanced cs b' in (h2, w2, rw (one, run) rest, b2)

created-Balanced : Balanced created.0 created.1
unfolding created new_channel from_sync new_wait clone_arc arcs_of threads_of ends_arcs ends_threads
    wait_arcs wait_threads
created-Balanced = record {
  whole = whole_channel fresh_wait fresh_wait;
  live = record { clones = refl; bridges = refl; dropped_once = refl };
}

-- A program that creates or opens a Channel, and then uses both directions, turns the channel into
-- a connection, splits it, and drops what it has, in any order, never meets the panic of an
-- `expect`. At any time the strong count is the number of clones in what it holds, the threads that
-- run are those of the waits it holds, and SharedChannel has been dropped exactly once if it holds
-- nothing more, and not at all otherwise. The spawning of a thread may fail each time.
pub owned_once :
    (cs : List Call)
    → (h : Held) × (w : World) × (run cs created.0 created.1 ≡ some (h, w)) × Balanced h w
owned_once cs = run-Balanced cs created-Balanced
