-- ===== src/Tokio/Listener.antt =====
-- src/tokio/listener.rs, and `open_channel` of src/tokio/mod.rs: the asynchronous handshake. An
-- awaited operation is what it returns; the turns of a loop are given with the time after each.
use shmem_ipc.Base.{
  ℕ, ◌+◌, Bool, true, false, ◌&&◌, List, [], ◌∷◌, Option, some, none, ltb, leb, if◌then◌else◌,
}
use shmem_ipc.Base.Words.{add64}
use shmem_ipc.Error.{Error, IoError, Result, ok, err, ◌>>◌}
use shmem_ipc.Platform.{ProcessStat, ProcessMonitor, current_identity}
use shmem_ipc.Channel.{ChannelConfig, validate_config}
use shmem_ipc.Listener.{Listener, conn_name, send_conn_name}
use shmem_ipc.Listener.Connect.{Opens, open_named}

-- `finish_accept`: the connection, the listener, and what has been written. `create` is
-- `create_with_config`, by the name of the channel.
unfoldable pub finish_accept {ℓ} :
    {A : Type ℓ}
    → (create : List ℕ → Result A) → (written : Result (Unit {0})) → Listener
    → Result A × Listener × List ℕ
unfolding conn_name send_conn_name
finish_accept create written l =
    let name = conn_name l in
    let next = record l { counter = add64 l.counter 1 } in
    elim (create name) [
      | err e ↦ (err e, next, [])
      | ok channel ↦ elim written [
        | err e ↦ (err e, next, [])
        | ok _ ↦ (ok channel, next, send_conn_name name)
      ]
    ]

-- `accept_timeout` on Unix: `accepted` is what `accept` returns in time; `none` if it does not.
unfoldable pub accept_timeout {ℓ} :
    {A : Type ℓ}
    → (accepted : Option (Result (Unit {0}))) → (create : List ℕ → Result A)
    → (written : Result (Unit {0})) → Listener
    → Result A × Listener × List ℕ
unfolding finish_accept
accept_timeout none create written l = (err Error.timed_out, l, [])
accept_timeout (some (err e)) create written l = (err e, l, [])
accept_timeout (some (ok _)) create written l = finish_accept create written l

-- `wait_for_connection` on Windows, up to `finish_accept`: the pipe instance that has a client, and
-- the listener's `current` one. `next` is what `create_server` returns.
unfoldable pub wait_for_connection :
    (connected : Option (Result (Unit {0}))) → (next : Result ℕ) → (current : ℕ) → Result ℕ × ℕ
wait_for_connection none next current = (err Error.timed_out, current)
wait_for_connection (some (err e)) next current = (err e, current)
wait_for_connection (some (ok _)) (err e) current = (err e, current)
wait_for_connection (some (ok _)) (ok server) current = (ok current, server)

-- The errors after which `connect_to` tries again, on Unix and on Windows.
unfoldable pub refused_yet : Error → Bool
refused_yet (Error.io IoError.not_found) = true
refused_yet (Error.io IoError.connection_refused) = true
refused_yet _ = false

unfoldable pub busy_yet : Error → Bool
busy_yet (Error.io IoError.not_found) = true
busy_yet (Error.io IoError.pipe_busy) = true
busy_yet _ = false

-- The loop of `connect_to`.
unfoldable pub connect_loop_async :
    (yet : Error → Bool) (deadline : ℕ) → List (Result (List ℕ) × ℕ) → Option (Result (List ℕ))
connect_loop_async yet deadline [] = none
connect_loop_async yet deadline ((reached, now) ∷ rest) =
    let again = connect_loop_async yet deadline rest in
    elim reached [
      | ok stream ↦ some (ok stream)
      | err e ↦ if ltb now deadline && yet e then again else some (err e)
    ]

-- The loop of `open_channel`.
unfoldable pub open_channel_loop :
    (deadline : ℕ) → List (Result (Option ProcessMonitor) × ℕ) → Option (Result ProcessMonitor)
open_channel_loop deadline [] = none
open_channel_loop deadline ((opened, now) ∷ rest) =
    let again = open_channel_loop deadline rest in
    elim opened [
      | err e ↦ some (err e)
      | ok (some channel) ↦ some (ok channel)
      | ok none ↦ if leb deadline now then some (err Error.timed_out) else again
    ]

module _ (process_stat : ProcessStat) (pid : ℕ) (config : ChannelConfig) where
  unfoldable pub open_channel :
      (now : ℕ) → List (Result (Option ProcessMonitor) × ℕ) → Option (Result ProcessMonitor)
  unfolding open_channel_loop
  open_channel now turns = elim (validate_config config >> current_identity process_stat pid) [
    | err e ↦ some (err e)
    | ok _ ↦ open_channel_loop (now + config.connect_timeout) turns
  ]

  -- `connect`, started at `now`.
  unfoldable pub connect_async :
      (yet : Error → Bool) (now : ℕ)
      → List (Result (List ℕ) × ℕ)
      → (List ℕ → Opens)
      → Option (Result ProcessMonitor)
  unfolding connect_loop_async open_named open_channel
  connect_async yet now attempts opens = elim (current_identity process_stat pid) [
    | err e ↦ some (err e)
    | ok _ ↦
        open_named (λ name. open_channel (opens name).now (opens name).turns)
          (connect_loop_async yet (now + config.connect_timeout) attempts)
  ]
