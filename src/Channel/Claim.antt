-- ===== src/Channel/Claim.antt =====
-- How `try_open` of src/channel.rs claims and connects a channel.
use shmem_ipc.Base.{ℕ, ◌≡◌, ◌≢◌, refl, sym, ap, ◌∙◌, inl, inr, true, some, none, arith}
use native.Mathlib.Decide.{ℕ_discrete}
use mathlib.Core.Path.{subst}
use shmem_ipc.Error.{ok, err, Result-cases}
use shmem_ipc.Header.{
  server_ready, client_claimed, connected, as_u32, from_u32, ring_offsets, magic_number,
  protocol_version, validate,
}
use shmem_ipc.Platform.{ProcessIdentity, ProcessStat, ProcessMonitor, is_alive, open_monitor}
use shmem_ipc.Shared.State.{Mapping, set_state, wake_all}
use shmem_ipc.Channel.{
  ChannelConfig, Opening, Met, lost_to, published, claim_and_connect, check_open, try_open,
}

-- What a client leaves that has connected.
abbrev pub joined_by : ProcessIdentity → Mapping → Mapping
joined_by identity m = wake_all (record m {
  global = record (m.global) {
    client_pid = identity.pid;
    client_birth = identity.birth;
    state = as_u32 connected;
  };
})

module _ (identity : ProcessIdentity) (met : Met) (m : Mapping) where
  claim-joined :
      met.at_claim ≡ as_u32 server_ready
      → met.at_connect ≡ as_u32 client_claimed
      → claim_and_connect identity met m ≡ (ok tt, joined_by identity m)
  unfolding claim_and_connect
  claim-joined claim connect = ground (arith, claim, connect)

  claim-lost :
      met.at_claim ≢ as_u32 server_ready
      → claim_and_connect identity met m ≡ (err (lost_to met.at_claim), set_state met.at_claim m)
  unfolding claim_and_connect
  claim-lost lost = ground (arith, lost)

  claim-overtaken :
      met.at_claim ≡ as_u32 server_ready
      → met.at_connect ≢ as_u32 client_claimed
      → (m' : Mapping) × (claim_and_connect identity met m ≡ (err (lost_to met.at_connect), m'))
        × (m'.global.state ≡ met.at_connect)
  unfolding claim_and_connect
  claim-overtaken claim overtaken = (
    set_state met.at_connect (record m {
      global = record (m.global) { client_pid = identity.pid; client_birth = identity.birth };
    }),
    ground (arith, claim, overtaken),
    refl,
  )

-- What a mapping must show before a client claims its channel.
pub record IsOpenable (process_stat : ProcessStat) (config : ChannelConfig) (opening : Opening)
    (at_load : ℕ) (m : Mapping) (peer : ProcessMonitor) : Type 0 where
  pub loaded : at_load ≡ as_u32 server_ready
  pub magic : m.global.magic ≡ magic_number
  pub version : m.global.version ≡ protocol_version
  pub size : m.global.ring_data_size ≡ config.ring_size
  pub whole : opening.length ≡ ok (ring_offsets config.ring_size).total_size
  pub watches : peer.identity ≡ record { pid = m.global.server_pid; birth = m.global.server_birth }
  pub alive : is_alive process_stat peer ≡ ok true

module _ (process_stat : ProcessStat) where
  open_monitor_ok :
      (identity : ProcessIdentity) (peer : ProcessMonitor)
      → open_monitor process_stat identity ≡ ok peer
      → (peer.identity ≡ identity) × (is_alive process_stat peer ≡ ok true)
  unfolding open_monitor
  open_monitor_ok identity peer h =
      elim (Result-cases (is_alive process_stat (record { identity = identity }))) [
        | inl (b, seen) ↦ (ground (arith, seen, h), ground (arith, seen, h))
        | inr (e, seen) ↦ (ground (arith, seen, h), ground (arith, seen, h))
      ]

  check_open-IsOpenable :
      (config : ChannelConfig) (opening : Opening) (at_load : ℕ) (m : Mapping)
      (peer : ProcessMonitor)
      → check_open process_stat config opening at_load m ≡ ok (some peer)
      → IsOpenable process_stat config opening at_load m peer
  unfolding check_open published validate from_u32
  check_open-IsOpenable config opening at_load m peer h =
      let opened : open_monitor process_stat
            (record { pid = m.global.server_pid; birth = m.global.server_birth })
          ≡ ok peer =
        ground (arith, h) in
      let (named, breathes) = open_monitor_ok _ peer opened in
      record {
        loaded = ground (arith, h);
        magic = ground (arith, h);
        version = ground (arith, h);
        size = ground (arith, h);
        whole = ground (arith, h);
        watches = named;
        alive = breathes;
      }

  some_injective : {p q : ProcessMonitor} → ok (some p) ≡ ok (some q) → p ≡ q
  some_injective e = cc

  pub try_open-joined :
      (config : ChannelConfig) (identity : ProcessIdentity) (opening : Opening) (met : Met)
      → (before : Mapping) (peer : ProcessMonitor)
      → check_open process_stat config opening met.at_load (set_state met.at_load before)
        ≡ ok (some peer)
      → met.at_claim ≡ as_u32 server_ready
      → met.at_connect ≡ as_u32 client_claimed
      → try_open process_stat config identity opening met before
        ≡ (ok (some peer), joined_by identity before)
  unfolding try_open
  try_open-joined config identity opening met before peer seen claim connect =
      let run = claim-joined identity met (set_state met.at_load before) claim connect in
      rw (seen, run, try_open) refl

  -- If `try_open` returns a channel, then it has loaded ServerReady, the header is valid and of the
  -- configured size, as is the file, and the server that the header names was alive; its two
  -- `compare_exchange`s met ServerReady and ClientClaimed, so no other client had claimed the
  -- channel; and it leaves the mapping as it found it but for the client's whole identity, the
  -- state Connected and a wake-up of all four sides.
  pub try_open_joins :
      (config : ChannelConfig) (identity : ProcessIdentity) (opening : Opening) (met : Met)
      → (before m' : Mapping) (peer : ProcessMonitor)
      → try_open process_stat config identity opening met before ≡ (ok (some peer), m')
      → IsOpenable process_stat config opening met.at_load (set_state met.at_load before) peer
        × (met.at_claim ≡ as_u32 server_ready)
        × (met.at_connect ≡ as_u32 client_claimed)
        × (m' ≡ joined_by identity before)
  unfolding try_open
  try_open_joins config identity opening met before m' peer h =
      let loaded = set_state met.at_load before in
      elim (Result-cases (check_open process_stat config opening met.at_load loaded)) [
        | inr (e, seen) ↦ ground (arith, seen, h)
        | inl (none, seen) ↦ ground (arith, seen, h)
        | inl (some p, seen) ↦ elim (ℕ_discrete met.at_claim 1) [
          | no lost ↦ ground (arith, seen, h, claim-lost identity met loaded lost)
          | yes claim ↦ elim (ℕ_discrete met.at_connect 2) [
            | no overtaken ↦
                let (_, run, _) = claim-overtaken identity met loaded claim overtaken in
                ground (arith, seen, h, run)
            | yes connect ↦
                let run = try_open-joined config identity opening met before p seen claim connect in
                let same : p ≡ peer = some_injective (ap (λ r. r.0) (sym run ∙ h)) in
                (
                  subst (λ q. IsOpenable process_stat config opening met.at_load loaded q) same
                      (check_open-IsOpenable config opening met.at_load loaded p seen),
                  claim,
                  connect,
                  ap (λ r. r.1) (sym h ∙ run),
                )
          ]
        ]
      ]
