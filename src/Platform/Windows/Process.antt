-- ===== src/Platform/Windows/Process.antt =====
-- The observer of a process in src/platform/windows.rs, `ProcessMonitor::open` and
-- `ProcessMonitor::is_alive`, on the answers of the system.
use shmem_ipc.Base.{
  ℕ, ◌+◌, ◌*◌, ◌-◌, ◌^◌, ◌<◌, ◌≡◌, refl, ◌↔◌, Bool, true, false, not, ◌||◌, arith, ltb, ◌==◌,
  if◌then◌else◌,
}
use shmem_ipc.Error.{Error, IoError, Result, ok, err, ◌>>=◌}
use shmem_ipc.Platform.{ProcessIdentity}
use shmem_ipc.Platform.Windows.Timer.{wait_object_0, wait_timeout}

-- `ERROR_INVALID_PARAMETER`
abbrev pub error_invalid_parameter : ℕ
error_invalid_parameter = 87

abbrev pub wait_failed : ℕ
wait_failed = 0xFFFFFFFF

-- What `OpenProcess` answers: a handle, or the code of the last error.
pub data OpenedProcess : Type 0 where
  process : (handle : ℕ) → OpenedProcess
  refused : (code : ℕ) → OpenedProcess

-- FILETIME, in two halves of 32 bits
pub record FileTime : Type 0 where
  pub low : ℕ
  pub high : ℕ

-- The system: opening a process by its pid, and of a handle its creation time and the status of a
-- wait of no length.
pub record System : Type 0 where
  pub open_process : (pid : ℕ) → OpenedProcess
  pub process_times : (handle : ℕ) → Result FileTime
  pub wait_status : (handle : ℕ) → ℕ
  pub last_os_error : IoError

-- `(high << 32) | low`: the halves share no bit.
unfoldable pub ticks_of : FileTime → ℕ
ticks_of time = time.high * 2 ^ 32 + time.low

module _ (sys : System) where
  unfoldable pub process_birth : (handle : ℕ) → Result ℕ
  unfolding ticks_of
  process_birth handle = do time ← sys.process_times handle; ok (ticks_of time)

  -- The match on the status.
  unfoldable pub handle_is_alive : (handle : ℕ) → Result Bool
  handle_is_alive handle =
      let status = sys.wait_status handle in
      if status == wait_timeout
      then ok true
      else if status == wait_object_0
      then ok false
      else if status == wait_failed
      then err (Error.io sys.last_os_error)
      else err (Error.io IoError.invalid_data)

  -- The `||` of two fallible tests: a different birth is not followed by the second.
  unfoldable pub check_process : ProcessIdentity → (handle : ℕ) → Result ℕ
  unfolding process_birth handle_is_alive
  check_process identity handle = do
    birth ← process_birth handle
    if not (birth == identity.birth) then err Error.peer_disconnected else do
      alive ← handle_is_alive handle
      if alive then ok handle else err Error.peer_disconnected

  -- `ProcessMonitor::open`; the observer is the handle.
  unfoldable pub open_by_handle : ProcessIdentity → Result ℕ
  unfolding check_process
  open_by_handle identity =
      if identity.pid == 0 || ltb (2 ^ 32 - 1) identity.pid || identity.birth == 0
      then err Error.invalid_header
      else elim (sys.open_process identity.pid) [
        | refused code ↦
            if code == error_invalid_parameter
            then err Error.peer_disconnected
            else err (Error.io (IoError.other code))
        | process handle ↦ check_process identity handle
      ]

  -- The conditions under which a peer is observed.
  pub record IsPeer (identity : ProcessIdentity) (handle : ℕ) : Type 0 where
    pub pid_pos : 0 < identity.pid
    pub pid_lt : identity.pid < 2 ^ 32
    pub birth_pos : 0 < identity.birth
    pub found : sys.open_process identity.pid ≡ process handle
    pub born : process_birth handle ≡ ok identity.birth
    pub alive : sys.wait_status handle ≡ wait_timeout

  check_process_iff :
      (identity : ProcessIdentity) (handle result : ℕ)
      → (check_process identity handle ≡ ok result) ↔ (
          (process_birth handle ≡ ok identity.birth)
          × (sys.wait_status handle ≡ wait_timeout)
          × (result ≡ handle))
  unfolding check_process handle_is_alive
  check_process_iff identity handle result = ground arith

  -- `ProcessMonitor::open` succeeds exactly for an identity whose pid is not zero and fits 32 bits
  -- and whose birth is not zero, if the system opens a process with this pid, that process has this
  -- birth, and it has not ended; and the observer then holds the handle of this process.
  pub open_by_handle_iff :
      (identity : ProcessIdentity) (handle : ℕ)
      → (open_by_handle identity ≡ ok handle) ↔ IsPeer identity handle
  unfolding open_by_handle
  open_by_handle_iff identity handle = by_opened (sys.open_process identity.pid) refl
    where
      by_opened :
          (o : OpenedProcess)
          → sys.open_process identity.pid ≡ o
          → (open_by_handle identity ≡ ok handle) ↔ IsPeer identity handle
      by_opened (refused code) e = ground (arith, e)
      by_opened (process h) e = ground (arith, e, check_process_iff identity h handle)
