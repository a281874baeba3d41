-- ===== src/Platform/Names.antt =====
-- `listener_incarnation` of src/platform/mod.rs: the text that tells the listeners of a name
-- apart, also those of an earlier process.
use shmem_ipc.Base.{ℕ, List, ◌∷◌, ◌++◌}
use shmem_ipc.Base.Digits.{decimal, hex}
use shmem_ipc.Base.Words.{add64}
use shmem_ipc.Error.{Result, ok, err}
use shmem_ipc.Platform.{ProcessIdentity, ProcessStat, current_identity}

-- `format!("{}.{:x}.{:x}", …)`
unfoldable pub incarnation : ProcessIdentity → ℕ → List ℕ
unfolding decimal hex
incarnation identity next = decimal identity.pid ++ (46 ∷ (hex identity.birth ++ (46 ∷ hex next)))

-- In the process `pid`, with the static counter `next`, which comes back.
unfoldable pub listener_incarnation : ProcessStat → (pid next : ℕ) → Result (List ℕ) × ℕ
unfolding incarnation
listener_incarnation process_stat pid next = elim (current_identity process_stat pid) [
  | err error ↦ (err error, next)
  | ok identity ↦ (ok (incarnation identity next), add64 next 1)
]
