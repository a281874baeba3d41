-- ===== src/Tokio/Owners/Tests.antt =====
-- A channel of src/tokio/mod.rs that is used, converted, split and dropped.
use shmem_ipc.Base.{List, [], ◌∷◌, some, none, ◌≡◌, refl}
use shmem_ipc.Error.{Error}
use shmem_ipc.Tokio.Owners.{
  World, started, not_spawned, clone_arc, drop_arc, new_wait, ensure_running, drop_wait,
  drop_some_wait, drop_inner, drop_half_inner, drop_ends, drop_half, from_sync, half_from_sync,
  new_channel, into_connection, split,
}
use shmem_ipc.Tokio.Owners.Calls.{
  Held, halves, Call, use_send, use_recv, convert, separate, drop_send, drop_recv, use_wait, call,
  created, run,
}
use shmem_ipc.Tokio.Owners.Balanced.{Balanced}
use shmem_ipc.Tokio.Owners.Once.{owned_once}

abbrev life : List Call
life =
    use_send started
    ∷ use_recv (not_spawned Error.timed_out)
    ∷ convert
    ∷ use_recv started
    ∷ separate
    ∷ use_send started
    ∷ drop_recv
    ∷ drop_send
    ∷ []

life_ends :
    run life created.0 created.1
    ≡ some (halves none none, record { strong = 0; dropped = 1; threads = 0 })
unfolding run call created use_wait ensure_running clone_arc drop_arc new_wait drop_wait
    drop_some_wait drop_inner drop_half_inner drop_ends drop_half from_sync half_from_sync
    new_channel into_connection split
life_ends = refl

owned_once_example :
    (h : Held) × (w : World) × (run life created.0 created.1 ≡ some (h, w)) × Balanced h w
owned_once_example = owned_once life
