-- ===== src/Channel/Tests.antt =====
-- The theorems on src/channel.rs at concrete inputs.
use shmem_ipc.Base.{
  ℕ, ◌*◌, ◌≤◌, ◌≡◌, ◌≢◌, ◌↔◌, ◌⊎◌, refl, true, List, [], ◌∷◌, some, none, arith, length,
}
use shmem_ipc.Error.{Error, IoError, Result, ok, err, ◌>>◌}
use shmem_ipc.Header.{server_ready, client_claimed, as_u32}
use shmem_ipc.Memory.{Memory}
use shmem_ipc.Platform.{ProcessIdentity, ProcessStat, current_identity}
use shmem_ipc.Ring.Area.{IsArea, write_ring, read_ring}
use shmem_ipc.Shared.State.{Role, Mapping, set_state}
use shmem_ipc.Wait.Deadline.{Settles}
use shmem_ipc.Channel.{
  ChannelConfig, validate_config, created, create_with_config, try_open, from_shared,
  open_with_config,
}
use shmem_ipc.Channel.Config.{IsRingSize, validate_config_iff}
use shmem_ipc.Channel.Claim.{IsOpenable, joined_by, try_open_joins}
use shmem_ipc.Channel.Open.{undisturbed, granted, create-try_open}
use shmem_ipc.Channel.Rings.{from_shared_lem}
use shmem_ipc.Channel.Patience.{Attempts, results_of, here, there, open_with_config-Settles}

abbrev small : ChannelConfig
small = record { ring_size = 256; spin_count = 512; connect_timeout = 1000 }

small_size : IsRingSize small.ring_size
small_size = (omega arith, omega arith, 8, refl)

validate_config_iff_example :
    ((validate_config small ≡ ok tt) ↔ IsRingSize small.ring_size)
    × ((r : Result (Unit {0}))
        → validate_config small ≡ r
        → r ≢ ok tt
        → r ≡ err (Error.io IoError.invalid_input))
validate_config_iff_example = validate_config_iff small

small_ok : validate_config small ≡ ok tt
small_ok = validate_config_iff_example.0.1 small_size

from_shared_lem_example :
    let (outgoing, incoming) = from_shared Role.server small in
    (outgoing ≡ (from_shared Role.client small).1)
    × (incoming ≡ (from_shared Role.client small).0)
    × IsArea outgoing.area
    × IsArea incoming.area
    × ((c : ℕ) (bytes : List ℕ) (d n : ℕ) (mem : Memory)
        → length bytes ≤ outgoing.area.ring_data_size
        → n ≤ incoming.area.ring_data_size
        → read_ring incoming.area d n (write_ring outgoing.area c bytes mem)
          ≡ read_ring incoming.area d n mem)
from_shared_lem_example = from_shared_lem Role.server small small_ok

-- Every process is alive, with a birth of ten times its pid.
abbrev stat : ProcessStat
stat pid = ok (10 * pid, true)

abbrev server_side : ProcessIdentity
server_side = record { pid = 4; birth = 40 }

abbrev client_side : ProcessIdentity
client_side = record { pid = 7; birth = 70 }

abbrev pub channel : Mapping
channel = created server_side 1 small (λ _. 0)

create-try_open_example :
    (create_with_config stat 4 1 (ok tt) (ok tt) small (λ _. 0) ≡ ok channel)
    × (try_open stat small client_side (granted 256) undisturbed channel
        ≡ (ok (some (record { identity = server_side })), joined_by client_side channel))
create-try_open_example =
    create-try_open stat 4 40 1 small small client_side (λ _. 0) small_ok refl (omega arith) refl

try_open_joins_example :
    IsOpenable stat small (granted 256) 1 (set_state 1 channel) (record { identity = server_side })
    × (1 ≡ as_u32 server_ready)
    × (2 ≡ as_u32 client_claimed)
    × (joined_by client_side channel ≡ joined_by client_side channel)
try_open_joins_example =
    try_open_joins stat small client_side (granted 256) undisturbed channel
      (joined_by client_side channel) (record { identity = server_side }) create-try_open_example.1

-- The file is missing at first, and the server ready at the second attempt.
abbrev patient : Attempts
patient =
    (ok none, 300) ∷ (ok (some (record { identity = server_side })), 700) ∷ (ok none, 1200) ∷ []

open_with_config-Settles_example :
    Settles (results_of patient) (open_with_config stat 7 100 small patient)
    ⊎ ((e : Error) × (validate_config small >> current_identity stat 7 ≡ err e)
        × (open_with_config stat 7 100 small patient ≡ some (err e)))
open_with_config-Settles_example =
    open_with_config-Settles stat 7 100 small patient (there (there (here (omega arith))))
