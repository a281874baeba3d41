-- ===== src/Channel/Race.antt =====
-- Any number of clients in `try_open` of src/channel.rs on one mapping, an access at a time, among
-- processes that retire the channel by `finish` of src/shared.rs.
pub mod Moves
pub mod Owner
pub mod Alone
mod Tests
use native.Mathlib.Decide.{ℕ_discrete}
use mathlib.Core.Logic.{ite}
use shmem_ipc.Base.{ℕ, zero, suc, ◌≡◌, Option, some, none, ◌==◌, if◌then◌else◌}
use shmem_ipc.Error.{Error, Result, ok, err}
use shmem_ipc.Header.{ChannelState, server_ready, client_claimed, connected, as_u32, from_u32}
use shmem_ipc.Platform.{ProcessIdentity}
use shmem_ipc.Shared.State.{Mapping, set_state, wake_all}
use shmem_ipc.Shared.Protocol.{IsTerminal}
use shmem_ipc.Shared.Finish.{is_settled}
use shmem_ipc.Channel.{published, lost_to}

-- Where a client stands: before its load of the state word, before each access from the first
-- `compare_exchange` on, or back with a channel or an error.
pub data ClientPc : Type 0 where
  load_state compare_claim store_pid store_birth compare_connect wake : ClientPc
  joined : ClientPc
  refused : Error → ClientPc

-- After the load: a channel that is not published yet is tried again.
unfoldable pub after_load : Result (Option (Unit {0})) → Result (Unit {0}) → ClientPc
after_load (err e) checked = refused e
after_load (ok none) checked = load_state
after_load (ok (some _)) (err e) = refused e
after_load (ok (some _)) (ok _) = compare_claim

-- The client's next access. `checked` is what lies between the load and the first
-- `compare_exchange`, from `validate` to `ChannelWaitSet::new`.
unfoldable pub client_step :
    ProcessIdentity → (checked : Result (Unit {0})) → ClientPc → Mapping → ClientPc × Mapping
unfolding published lost_to after_load
client_step identity checked load_state m =
    (after_load (published (from_u32 m.global.state)) checked, m)
client_step identity checked compare_claim m =
    if m.global.state == as_u32 server_ready
    then (store_pid, set_state (as_u32 client_claimed) m)
    else (refused (lost_to m.global.state), m)
client_step identity checked store_pid m =
    (store_birth, record m { global = record (m.global) { client_pid = identity.pid } })
client_step identity checked store_birth m =
    (compare_connect, record m { global = record (m.global) { client_birth = identity.birth } })
client_step identity checked compare_connect m =
    if m.global.state == as_u32 client_claimed
    then (wake, set_state (as_u32 connected) m)
    else (refused (lost_to m.global.state), m)
client_step identity checked wake m = (joined, wake_all m)
client_step identity checked joined m = (joined, m)
client_step identity checked (refused e) m = (refused e, m)

-- The `compare_exchange_weak` of `finish` that succeeds, with what follows it.
unfoldable pub retire_step : ChannelState → Mapping → Mapping
unfolding is_settled
retire_step t m =
    if is_settled (from_u32 m.global.state) then m else wake_all (set_state (as_u32 t) m)

pub record System : Type 0 where
  pub mapping : Mapping
  pub pc : ℕ → ClientPc

abbrev pub put {ℓ} : {A : Type ℓ} → (ℕ → A) → ℕ → A → ℕ → A
put f i a j = ite (ℕ_discrete i j) a (f j)

-- Client `i` moves.
unfoldable pub turn_of : (ids : ℕ → ProcessIdentity) (i : ℕ) → Result (Unit {0}) → System → System
unfolding client_step
turn_of ids i checked x =
    let (pc, m) = client_step (ids i) checked (x.pc i) x.mapping in
    record { mapping = m; pc = put x.pc i pc }

-- What the server has published, before any client came.
pub record Fresh (m : Mapping) : Type 0 where
  pub ready : m.global.state ≡ as_u32 server_ready

-- Every interleaving.
pub data Reach (ids : ℕ → ProcessIdentity) (m : Mapping) : System → Type 0 where
  start : Reach ids m (record { mapping = m; pc = λ _. load_state })
  moves :
      {x : System} (i : ℕ) (checked : Result (Unit {0}))
      → Reach ids m x
      → Reach ids m (turn_of ids i checked x)
  retires :
      {x : System} (t : ChannelState)
      → IsTerminal t
      → Reach ids m x
      → Reach ids m (record x { mapping = retire_step t x.mapping })
