-- ===== src/Connection/Tests.antt =====
-- The theorem on src/connection.rs at a concrete input, and a run.
use shmem_ipc.Base.{◌<◌, ◌^◌, ◌≡◌, refl, true, List, [], ◌∷◌, some, none, arith}
use shmem_ipc.Error.{ok}
use shmem_ipc.Ring.Queue
use shmem_ipc.Shared.State.{Role, Mapping}
use shmem_ipc.Channel.{ChannelConfig, validate_config, created}
use shmem_ipc.Channel.Config.{validate_config_iff}
use shmem_ipc.Connection.Duplex.{
  Call, sends, receives, sending, receiving, run, timed, offer, run_queues, sent_bytes,
}
use shmem_ipc.Connection.Duplex.Whole.{joined, connection-refines}

abbrev small : ChannelConfig
small = record { ring_size = 64; spin_count = 0; connect_timeout = 0 }

small_accepted : validate_config small ≡ ok tt
small_accepted = (validate_config_iff small).0.1 (omega arith, omega arith, 6, refl)

abbrev fresh : Mapping
fresh = created (record { pid = 4; birth = 40 }) 9 small (λ x. 0)

-- A request and its answer.
abbrev calls : List Call
calls =
    sends Role.client (ok true) (1 ∷ 2 ∷ 3 ∷ [])
    ∷ receives Role.server (ok true)
    ∷ sends Role.server (ok true) (7 ∷ [])
    ∷ receives Role.server (ok true)
    ∷ receives Role.client (ok true)
    ∷ []

few_bytes : (role : Role) → sent_bytes role calls < 2 ^ 64
few_bytes Role.server = omega arith
few_bytes Role.client = omega arith

connection-refines_example : run calls (joined small fresh) ≡ run_queues 64 calls (λ role. [])
unfolding created
connection-refines_example =
    connection-refines small fresh calls small_accepted (refl, refl) (refl, refl) few_bytes

answers :
    run_queues 64 calls (λ role. [])
    ≡ sending (some (ok tt))
      ∷ receiving (ok (some (1 ∷ 2 ∷ 3 ∷ [])))
      ∷ sending (some (ok tt))
      ∷ receiving (ok none)
      ∷ receiving (ok (some (7 ∷ [])))
      ∷ []
unfolding run_queues offer timed Queue.send_when Queue.send Queue.recv_when
answers = refl
