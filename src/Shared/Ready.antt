-- ===== src/Shared/Ready.antt =====
-- `check_ready` of src/shared.rs: the loop that waits for the client's identity, and the observation
-- of the peer process. Every load of a word that others may write is an argument.
pub mod Loop
pub mod Probe
use shmem_ipc.Base.{
  ℕ, ◌+◌, ◌-◌, ◌^◌, min, Bool, true, false, List, [], ◌∷◌, Option, some, none, ◌==◌, ltb, leb,
  if◌then◌else◌,
}
use shmem_ipc.Error.{Error, IoError, Result, ok, err, ◌>>◌}
use shmem_ipc.Header.{
  ChannelState, init, server_ready, client_claimed, connected, closed, peer_disconnected, as_u32,
  from_u32,
}
use shmem_ipc.Platform.{ProcessIdentity, ProcessStat, ProcessMonitor, is_alive, open_monitor}
use shmem_ipc.Shared.State.{Role, Mapping, Observer, set_state, wake_all, terminal}
use shmem_ipc.Shared.Finish.{Attempt, finish}

abbrev pub probe_interval_ms : ℕ
probe_interval_ms = 100

-- One round of the loop: the state loaded, the time since the channel was made, and the state
-- that the `compare_exchange` meets.
pub record Round : Type 0 where
  pub at_load : ℕ
  pub elapsed : ℕ
  pub at_cas : ℕ

-- The match at the head of a round.
pub data Glance : Type 0 where
  ready : Glance
  refused : Error → Glance
  unready : Glance

unfoldable pub glance : Option ChannelState → Glance
glance (some connected) = ready
glance (some peer_disconnected) = refused Error.peer_disconnected
glance (some closed) = refused Error.channel_closed
glance (some init) = refused Error.invalid_header
glance none = refused Error.invalid_header
glance (some _) = unready

-- How the loop is left: by `break`, or by a `return`.
pub data Left : Type 0 where
  broke : Left
  returned : Result Bool → Left

-- `none` is a loop that has not ended after the given rounds.
unfoldable pub ready_loop : ℕ → List Round → Mapping → Option (Left × Mapping)
unfolding glance
ready_loop timeout [] m = none
ready_loop timeout (x ∷ rest) m =
    let loaded = set_state x.at_load m in
    let met = set_state x.at_cas m in
    let again = ready_loop timeout rest met in
    elim (glance (from_u32 x.at_load)) [
      | ready ↦ some (broke, loaded)
      | refused error ↦ some (returned (err error), loaded)
      | unready ↦
          if ltb x.elapsed timeout
          then some (returned (ok false), loaded)
          else if x.at_cas == x.at_load
          then some (returned (err Error.timed_out), wake_all (set_state (as_u32 closed) met))
          else again
    ]

-- The words of the peer that the role reads.
unfoldable pub peer_identity : Role → Mapping → ProcessIdentity
peer_identity Role.server m = record { pid = m.global.client_pid; birth = m.global.client_birth }
peer_identity Role.client m = record { pid = m.global.server_pid; birth = m.global.server_birth }

pub data Installed : Type 0 where
  watching : ProcessMonitor → Installed
  gone : Installed
  failed : Error → Installed

opened : Result ProcessMonitor → Installed
opened (ok monitor) = watching monitor
opened (err Error.peer_disconnected) = gone
opened (err error) = failed error

-- The observer, opened on first use.
unfoldable pub install : ProcessStat → Role → Mapping → Observer → Installed
unfolding opened
install process_stat role m o = elim o.peer [
  | some monitor ↦ watching monitor
  | none ↦ opened (open_monitor process_stat (peer_identity role m))
]

-- What one call meets: the probe time loaded before the lock is taken, whether the lock is
-- poisoned, the state loaded under the lock, the attempts of `finish`, and the last state loaded.
pub record Meets : Type 0 where
  pub first_look : ℕ
  pub poisoned : Bool
  pub at_probe : ℕ
  pub attempts : List Attempt
  pub at_end : ℕ

-- The last two lines: `self.terminal()?; Ok(true)`.
unfoldable pub last_look : ℕ → Mapping → Observer → Result Bool × Mapping × Observer
unfolding terminal
last_look at_end m o = let seen = set_state at_end m in (terminal seen >> ok true, seen, o)

unfoldable pub retire_peer : Meets → Mapping → Observer → Option (Result Bool × Mapping × Observer)
unfolding finish last_look
retire_peer x m o = elim (finish peer_disconnected x.attempts m) [
  | none ↦ none
  | some m' ↦ some (last_look x.at_end m' o)
]

-- `elapsed_ms.saturating_add(PROBE_INTERVAL_MS)` is the time of the next probe.
unfoldable pub rearmed : ℕ → ProcessMonitor → Observer
rearmed now monitor = record {
  peer = some monitor;
  next_probe_ms = min (now + probe_interval_ms) (2 ^ 64 - 1);
}

module _ (process_stat : ProcessStat) (role : Role) where
  -- The body under the lock, when the probe is due.
  unfoldable pub observe :
      ℕ → Meets → Mapping → Observer → Option (Result Bool × Mapping × Observer)
  unfolding terminal install last_look retire_peer rearmed
  observe now x before o =
      let m = set_state x.at_probe before in
      elim (terminal m) [
        | err error ↦ some (err error, m, o)
        | ok _ ↦ elim (install process_stat role m o) [
          | failed error ↦ some (err error, m, o)
          | gone ↦ retire_peer x m o
          | watching monitor ↦ elim (is_alive process_stat monitor) [
            | err error ↦ some (err error, m, record o { peer = some monitor })
            | ok true ↦ some (last_look x.at_end m (rearmed now monitor))
            | ok false ↦ retire_peer x m (rearmed now monitor)
          ]
        ]
      ]

  unfoldable pub probe : ℕ → Meets → Mapping → Observer → Option (Result Bool × Mapping × Observer)
  unfolding observe last_look
  probe now x m o =
      if leb x.first_look now
      then if x.poisoned
        then some (err (Error.io (IoError.other 0)), m, o)
        else if leb o.next_probe_ms now
        then observe now x m o
        else some (last_look x.at_end m o)
      else some (last_look x.at_end m o)

  -- `elapsed` is the time since the channel was made, in milliseconds.
  unfoldable pub check_ready :
      (timeout : ℕ)
      → List Round
      → (elapsed : ℕ) → Meets
      → Mapping
      → Observer
      → Option (Result Bool × Mapping × Observer)
  unfolding ready_loop probe
  check_ready timeout rounds elapsed x before o = elim (ready_loop timeout rounds before) [
    | none ↦ none
    | some (returned r, m) ↦ some (r, m, o)
    | some (broke, m) ↦ probe (min elapsed (2 ^ 64 - 1)) x m o
  ]
