-- ===== src/Platform.antt =====
-- src/platform: process identities, and the Linux observer of a peer process of
-- src/platform/linux.rs. What the operating system says of a process is a parameter.
pub mod Proc
pub mod Names
pub mod Windows
mod Tests
use shmem_ipc.Base.{ℕ, Bool, false, ◌&&◌, ◌==◌, if◌then◌else◌}
use shmem_ipc.Error.{Error, Result, ok, err, ◌>>=◌}

pub record ProcessIdentity : Type 0 where
  pub pid : ℕ
  pub birth : ℕ

-- `process_stat` of a pid: the birth of the process that has it, and whether it is alive;
-- `peer_disconnected` if there is none.
abbrev pub ProcessStat : Type 0
ProcessStat = ℕ → Result (ℕ × Bool)

pub record ProcessMonitor : Type 0 where
  pub identity : ProcessIdentity

module _ (process_stat : ProcessStat) where
  alive_as : ℕ → Result (ℕ × Bool) → Result Bool
  alive_as birth (ok (found, alive)) = ok (alive && found == birth)
  alive_as birth (err Error.peer_disconnected) = ok false
  alive_as birth (err error) = err error

  -- `ProcessMonitor::is_alive`
  unfoldable pub is_alive : ProcessMonitor → Result Bool
  unfolding alive_as
  is_alive monitor = alive_as monitor.identity.birth (process_stat monitor.identity.pid)

  -- `ProcessMonitor::open`
  unfoldable pub open_monitor : ProcessIdentity → Result ProcessMonitor
  open_monitor identity = if identity.pid == 0 then err Error.invalid_header else do
    alive ← is_alive (record { identity = identity })
    if alive then ok (record { identity = identity }) else err Error.peer_disconnected

  -- `current_identity` of the process `pid`
  unfoldable pub current_identity : ℕ → Result ProcessIdentity
  current_identity pid = elim (process_stat pid) [
    | ok (birth, _) ↦ ok (record { pid = pid; birth = birth })
    | err Error.peer_disconnected ↦ err Error.unsupported_platform
    | err other ↦ err other
  ]
