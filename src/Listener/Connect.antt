-- ===== src/Listener/Connect.antt =====
-- The client's side of src/listener.rs: reaching the listener, reading the connection's name, and
-- opening that channel. What each attempt to reach the listener returns, and the time after it, are
-- given; a stream is the bytes that arrive on it.
use shmem_ipc.Base.{
  ℕ, ◌+◌, Bool, false, not, List, [], ◌∷◌, Option, some, none, ltb, leb, if◌then◌else◌,
}
use shmem_ipc.Error.{Error, Result, ok, err}
use shmem_ipc.Platform.{ProcessStat, ProcessMonitor, current_identity}
use shmem_ipc.Channel.{ChannelConfig, open_with_config}
use shmem_ipc.Listener.{read_conn_name}

-- The loop of `connect_to` on Unix.
unfoldable pub connect_loop : (deadline : ℕ) → List (Result (List ℕ) × ℕ) → Option (Result (List ℕ))
connect_loop deadline [] = none
connect_loop deadline ((reached, now) ∷ rest) =
    let again = connect_loop deadline rest in
    elim reached [
      | ok stream ↦ some (ok stream)
      | err e ↦ if ltb now deadline then again else some (err e)
    ]

-- `connect_pipe` on Windows; `none` is an invalid handle.
unfoldable pub connect_pipe : (deadline : ℕ) → List (Option (List ℕ) × ℕ) → Option (Result (List ℕ))
connect_pipe deadline [] = none
connect_pipe deadline ((reached, now) ∷ rest) =
    let again = connect_pipe deadline rest in
    elim reached [
      | some pipe ↦ some (ok pipe)
      | none ↦ if leb deadline now then some (err Error.timed_out) else again
    ]

-- What `open_with_config` meets for a name: the time, and its attempts.
pub record Opens : Type 0 where
  pub now : ℕ
  pub turns : List (Result (Option ProcessMonitor) × ℕ)

-- From the stream on: `read_conn_name`, or `recv_conn_name`, and `open_with_config`.
unfoldable pub open_named :
    (opening : List ℕ → Option (Result ProcessMonitor))
    → Option (Result (List ℕ))
    → Option (Result ProcessMonitor)
open_named opening none = none
open_named opening (some (err e)) = some (err e)
open_named opening (some (ok stream)) = elim (read_conn_name stream) [
  | err e ↦ some (err e)
  | ok name ↦ opening name
]

module _ (process_stat : ProcessStat) (pid now : ℕ) (config : ChannelConfig) where
  abbrev pub opener : (List ℕ → Opens) → List ℕ → Option (Result ProcessMonitor)
  opener opens name = open_with_config process_stat pid (opens name).now config (opens name).turns

  -- `connect` on Unix, started at `now` in the process `pid`.
  unfoldable pub connect :
      List (Result (List ℕ) × ℕ) → (List ℕ → Opens) → Option (Result ProcessMonitor)
  unfolding connect_loop open_named
  connect attempts opens = elim (current_identity process_stat pid) [
    | err e ↦ some (err e)
    | ok _ ↦ open_named (opener opens) (connect_loop (now + config.connect_timeout) attempts)
  ]

  -- `connect` on Windows.
  unfoldable pub connect_by_pipe :
      List (Option (List ℕ) × ℕ) → (List ℕ → Opens) → Option (Result ProcessMonitor)
  unfolding connect_pipe open_named
  connect_by_pipe attempts opens = elim (current_identity process_stat pid) [
    | err e ↦ some (err e)
    | ok _ ↦ open_named (opener opens) (connect_pipe (now + config.connect_timeout) attempts)
  ]

-- What `cancel_pending_accept` of the Windows listener does for the thread: whether it reaches the
-- thread's own pipe instance, and whether it joins the thread. The listener keeps no instance.
pub record Cancelled : Type 0 where
  pub reached : Bool
  pub joined : Bool
  pub pending : Option ℕ

-- `finished` and `finished_after` are the two answers of `is_finished`.
unfoldable pub cancel_pending_accept : (finished finished_after : Bool) → Option ℕ → Cancelled
cancel_pending_accept finished finished_after none = record {
  reached = false;
  joined = false;
  pending = none;
}
cancel_pending_accept finished finished_after (some pending) = record {
  reached = not finished;
  joined = finished_after;
  pending = none;
}
