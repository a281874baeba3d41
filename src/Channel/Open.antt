-- ===== src/Channel/Open.antt =====
-- `create_with_config` and `try_open` of src/channel.rs fit together.
use shmem_ipc.Base.{ℕ, ◌^◌, ◌<◌, ◌≡◌, ◌≢◌, refl, true, some, arith}
use shmem_ipc.Error.{ok}
use shmem_ipc.Header.{server_ready, client_claimed, as_u32, from_u32, ring_offsets, validate}
use shmem_ipc.Memory.{Memory}
use shmem_ipc.Platform.{ProcessIdentity, ProcessStat, is_alive, open_monitor, current_identity}
use shmem_ipc.Channel.{
  ChannelConfig, Opening, Met, published, check_open, try_open, validate_config, created,
  create_with_config,
}
use shmem_ipc.Channel.Config.{validate_config_iff}
use shmem_ipc.Channel.Claim.{joined_by, try_open-joined}

-- Nobody else is at the state word.
abbrev pub undisturbed : Met
undisturbed = record {
  at_load = as_u32 server_ready;
  at_claim = as_u32 server_ready;
  at_connect = as_u32 client_claimed;
}

-- The system answers, and the file has the length of this ring size.
abbrev pub granted : ℕ → Opening
granted size = record { file = ok tt; length = ok (ring_offsets size).total_size; wait_set = ok tt }

module _ (process_stat : ProcessStat) where
  check_open-created :
      (identity : ProcessIdentity) (wait_key : ℕ) (config client_config : ChannelConfig)
      (mem : Memory)
      → let m = created identity wait_key config mem in
        client_config.ring_size ≡ config.ring_size
        → config.ring_size < 2 ^ 32
        → identity.pid ≢ 0
        → is_alive process_stat (record { identity = identity }) ≡ ok true
        → check_open process_stat client_config (granted config.ring_size) (as_u32 server_ready) m
          ≡ ok (some (record { identity = identity }))
  unfolding check_open created validate from_u32 published open_monitor ring_offsets
  check_open-created identity wait_key config client_config mem same small pid alive =
      ground (arith, alive, pid, same)

  alive_now :
      (pid birth : ℕ)
      → process_stat pid ≡ ok (birth, true)
      → is_alive process_stat (record { identity = record { pid = pid; birth = birth } }) ≡ ok true
  unfolding is_alive
  alive_now pid birth known = rw known (ground arith)

  create-created :
      (pid birth wait_key : ℕ) (config : ChannelConfig) (mem : Memory)
      → validate_config config ≡ ok tt
      → process_stat pid ≡ ok (birth, true)
      → create_with_config process_stat pid wait_key (ok tt) (ok tt) config mem
        ≡ ok (created (record { pid = pid; birth = birth }) wait_key config mem)
  unfolding create_with_config current_identity
  create-created pid birth wait_key config mem good known =
      let identity : current_identity process_stat pid ≡ ok (record { pid = pid; birth = birth }) =
        rw (known, current_identity) refl in
      rw (good, identity, create_with_config) refl

  -- With an accepted configuration, and where the system grants the file and the wait objects,
  -- `create_with_config` of a live server makes a channel which a client with the same ring size
  -- then opens by `try_open` at the first attempt, if nobody else is at the state word: the client
  -- holds the server's identity, and the mapping shows both identities, the state Connected and
  -- otherwise what the server has created, with all four sides woken once.
  pub create-try_open :
      (pid birth wait_key : ℕ) (config client_config : ChannelConfig) (client : ProcessIdentity)
      → (mem : Memory) → validate_config config ≡ ok tt
      → client_config.ring_size ≡ config.ring_size
      → pid ≢ 0
      → process_stat pid ≡ ok (birth, true)
      → let server : ProcessIdentity = record { pid = pid; birth = birth } in
        let m = created server wait_key config mem in
        (create_with_config process_stat pid wait_key (ok tt) (ok tt) config mem ≡ ok m)
        × (try_open process_stat client_config client (granted config.ring_size) undisturbed m
            ≡ (ok (some (record { identity = server })), joined_by client m))
  unfolding created
  create-try_open pid birth wait_key config client_config client mem good same real known =
      let server : ProcessIdentity = record { pid = pid; birth = birth } in
      let m = created server wait_key config mem in
      let (_, small, _, _) = (validate_config_iff config).0.0 good in
      let checked : check_open process_stat client_config (granted config.ring_size)
            (as_u32 server_ready) m
          ≡ ok (some (record { identity = server })) =
        check_open-created server wait_key config client_config mem same small real
          (alive_now pid birth known) in
      (
        create-created pid birth wait_key config mem good known,
        try_open-joined process_stat client_config client (granted config.ring_size) undisturbed m
            (record { identity = server }) checked refl refl,
      )
