-- ===== src/Channel.antt =====
-- src/channel.rs: the configuration of a channel, its creation by the server, the claim and the
-- connection of a client, and the rings that each role uses. What the file system and the wait
-- objects answer is an argument, and so is each load of the state word that another process may
-- have changed.
pub mod Config
pub mod Claim
pub mod Race
pub mod Open
pub mod Patience
pub mod Rings
mod Tests
use shmem_ipc.Base.{
  ℕ, ◌+◌, ◌*◌, ◌-◌, ◌^◌, not, ◌||◌, Bool, List, [], ◌∷◌, Option, some, none, ltb, leb, ◌==◌,
  if◌then◌else◌, count_ones,
}
use shmem_ipc.Base.Words.{u32_of}
use shmem_ipc.Error.{Error, IoError, Result, ok, err, ◌>>=◌, ◌>>◌}
use shmem_ipc.Header.{
  init, server_ready, client_claimed, connected, closed, peer_disconnected, as_u32, from_u32,
  ChannelState, magic_number, protocol_version, global_header_size, ring_offsets, validate,
  RingHeader,
}
use shmem_ipc.Memory.{Memory}
use shmem_ipc.Platform.{
  ProcessIdentity, ProcessStat, ProcessMonitor, open_monitor, current_identity,
}
use shmem_ipc.Ring.Area.{Area}
use shmem_ipc.Shared.State.{Role, RingWords, Mapping, set_state, wake_all}

-- Times are in nanoseconds.
pub record ChannelConfig : Type 0 where
  pub ring_size : ℕ
  pub spin_count : ℕ
  pub connect_timeout : ℕ

abbrev pub default_config : ChannelConfig
default_config = record {
  ring_size = 16 * 1024 * 1024;
  spin_count = 512;
  connect_timeout = 5_000_000_000;
}

-- `usize::is_power_of_two`: one bit is set.
unfoldable pub is_power_of_two : ℕ → Bool
is_power_of_two n = count_ones 64 n == 1

unfoldable pub validate_config : ChannelConfig → Result (Unit {0})
unfolding is_power_of_two
validate_config config =
    if ltb config.ring_size 64
      || not (is_power_of_two config.ring_size)
      || ltb (2 ^ 32 - 1) config.ring_size
    then err (Error.io IoError.invalid_input)
    else ok tt

-- The stores of `create_with_config` to a ring's header.
abbrev pub zeroed_header : RingHeader
zeroed_header = record {
  writer = record { write_cursor = 0; notify = 0; parked = 0 };
  reader = record { read_cursor = 0; notify = 0; parked = 0 };
}

abbrev pub zeroed_words : RingWords
zeroed_words = record { header = zeroed_header; writer_wakes = 0; reader_wakes = 0 }

-- The mapping that it publishes.
unfoldable pub created : ProcessIdentity → (wait_key : ℕ) → ChannelConfig → Memory → Mapping
created identity wait_key config mem = record {
  global = record {
    magic = magic_number;
    version = protocol_version;
    ring_data_size = u32_of config.ring_size;
    server_pid = identity.pid;
    server_birth = identity.birth;
    wait_key = wait_key;
    client_pid = 0;
    client_birth = 0;
    state = as_u32 server_ready;
  };
  mem = mem;
  ring_a = zeroed_words;
  ring_b = zeroed_words;
}

-- What the system answers when a client opens the file: whether it could be opened, its length,
-- the memory maps, and the wait objects.
pub record Opening : Type 0 where
  pub file : Result (Unit {0})
  pub length : Result ℕ
  pub wait_set : Result (Unit {0})

-- The state words that `try_open` meets: at its load, and at its two `compare_exchange`s.
pub record Met : Type 0 where
  pub at_load : ℕ
  pub at_claim : ℕ
  pub at_connect : ℕ

-- The match on the loaded state; `none` is `return Ok(None)`.
unfoldable pub published : Option ChannelState → Result (Option (Unit {0}))
published (some server_ready) = ok (some tt)
published (some init) = ok none
published (some peer_disconnected) = err Error.peer_disconnected
published none = err Error.invalid_header
published (some _) = err Error.channel_closed

-- `map_err` of a failed `compare_exchange`
unfoldable pub lost_to : ℕ → Error
lost_to state =
    if state == as_u32 peer_disconnected then Error.peer_disconnected else Error.channel_closed

-- From the first `compare_exchange` on.
unfoldable pub claim_and_connect : ProcessIdentity → Met → Mapping → Result (Unit {0}) × Mapping
unfolding lost_to
claim_and_connect identity met before =
    let found = set_state met.at_claim before in
    let claimed = set_state (as_u32 client_claimed) found in
    let named = record claimed {
      global = record (claimed.global) { client_pid = identity.pid; client_birth = identity.birth };
    } in
    let refound = set_state met.at_connect named in
    if met.at_claim == as_u32 server_ready
    then if met.at_connect == as_u32 client_claimed
      then (ok tt, wake_all (set_state (as_u32 connected) refound))
      else (err (lost_to met.at_connect), refound)
    else (err (lost_to met.at_claim), found)

module _ (process_stat : ProcessStat) where
  -- `create_with_config` in the process `pid`; `file` is the creation of the file and its map.
  unfoldable pub create_with_config :
      (pid wait_key : ℕ) (wait_set file : Result (Unit {0}))
      → ChannelConfig
      → Memory
      → Result Mapping
  unfolding validate_config created
  create_with_config pid wait_key wait_set file config mem = do
    _ ← validate_config config
    identity ← current_identity process_stat pid
    _ ← wait_set
    _ ← file
    ok (created identity wait_key config mem)

  -- What `try_open` checks before it claims the channel; `none` is `return Ok(None)`.
  unfoldable pub check_open :
      ChannelConfig → Opening → (at_load : ℕ) → Mapping → Result (Option ProcessMonitor)
  unfolding published validate
  check_open config opening at_load m = elim opening.file [
    | err (Error.io IoError.not_found) ↦ ok none
    | err error ↦ err error
    | ok _ ↦ do
      length ← opening.length
      if ltb length global_header_size then ok none else do
        ready ← published (from_u32 at_load)
        elim ready [
          | none ↦ ok none
          | some _ ↦ do
            _ ← validate m.global
            if not (m.global.ring_data_size == config.ring_size)
                  || not (length == (ring_offsets config.ring_size).total_size)
                then err Error.invalid_header
                else do
                  peer ←
                      open_monitor process_stat
                        (record { pid = m.global.server_pid; birth = m.global.server_birth })
                  _ ← opening.wait_set
                  ok (some peer)
        ]
  ]

  -- `try_open`: the observer of the server, if the client is connected, and the mapping.
  unfoldable pub try_open :
      ChannelConfig
      → ProcessIdentity
      → Opening
      → Met
      → Mapping
      → Result (Option ProcessMonitor) × Mapping
  unfolding check_open claim_and_connect
  try_open config identity opening met before =
      let loaded = set_state met.at_load before in
      elim (check_open config opening met.at_load loaded) [
        | err error ↦ (err error, loaded)
        | ok none ↦ (ok none, loaded)
        | ok (some peer) ↦
            let (connection, after) = claim_and_connect identity met loaded in
            (connection >> ok (some peer), after)
      ]

-- One half of `from_shared`: where a ring's header lies, and its data area.
pub record RingPlace : Type 0 where
  pub header_offset : ℕ
  pub area : Area

unfoldable pub ring_place : (header_at data_at size : ℕ) → RingPlace
ring_place header_at data_at size = record {
  header_offset = header_at;
  area = record { data_offset = data_at; ring_data_size = size; ring_mask = size - 1 };
}

-- `from_shared`: the rings of the sender and of the receiver.
unfoldable pub from_shared : Role → ChannelConfig → RingPlace × RingPlace
unfolding ring_offsets ring_place
from_shared role config =
    let o = ring_offsets config.ring_size in
    let ring_a = ring_place o.ring_a_header o.ring_a_data config.ring_size in
    let ring_b = ring_place o.ring_b_header o.ring_b_data config.ring_size in
    elim role [ Role.server ↦ (ring_a, ring_b) | Role.client ↦ (ring_b, ring_a) ]

-- The loop of `open_with_config`: what each `try_open` returns, and the time after it.
unfoldable pub open_loop :
    (deadline : ℕ) → List (Result (Option ProcessMonitor) × ℕ) → Option (Result ProcessMonitor)
open_loop deadline [] = none
open_loop deadline ((opened, now) ∷ rest) =
    let again = open_loop deadline rest in
    elim opened [
      | err error ↦ some (err error)
      | ok (some channel) ↦ some (ok channel)
      | ok none ↦ if leb deadline now then some (err Error.timed_out) else again
    ]

-- `open_with_config` in the process `pid`, started at `now`.
unfoldable pub open_with_config :
    ProcessStat
    → (pid now : ℕ) → ChannelConfig
    → List (Result (Option ProcessMonitor) × ℕ)
    → Option (Result ProcessMonitor)
unfolding open_loop
open_with_config process_stat pid now config turns =
    elim (validate_config config >> current_identity process_stat pid) [
      | err error ↦ some (err error)
      | ok _ ↦ open_loop (now + config.connect_timeout) turns
    ]

-- `cleanup`, by what removing the file returns.
unfoldable pub cleanup : Result (Unit {0}) → Result (Unit {0})
cleanup (ok _) = ok tt
cleanup (err (Error.io IoError.not_found)) = ok tt
cleanup (err error) = err error
