-- ===== src/Channel/Race/Moves.antt =====
-- The moves of one client that races for a channel of src/channel.rs, and what it knows.
use shmem_ipc.Base.{ℕ, ◌≤◌, ◌≡◌, ◌≢◌, ◌⊎◌, refl, Option, ◌==◌, arith, inl, inr, Bool-cases}
use shmem_ipc.Error.{Error, Result}
use shmem_ipc.Channel.{published}
use shmem_ipc.Header.{GlobalHeader, client_claimed, connected, as_u32, from_u32}
use shmem_ipc.Platform.{ProcessIdentity}
use shmem_ipc.Shared.State.{Mapping, set_state, wake_all}
use shmem_ipc.Channel.Race.{
  ClientPc, load_state, compare_claim, store_pid, store_birth, compare_connect, wake, joined,
  refused, after_load, client_step,
}

-- Has the client won the first `compare_exchange`, and not failed since?
unfoldable pub owns : ClientPc → ℕ
owns load_state = 0
owns compare_claim = 0
owns store_pid = 1
owns store_birth = 1
owns compare_connect = 1
owns wake = 1
owns joined = 1
owns (refused e) = 0

-- Claimed, and not connected yet.
abbrev pub Claimed : GlobalHeader → Type 0
Claimed g = (2 ≤ g.state) × (g.state ≢ 3)

abbrev pub Named : ProcessIdentity → GlobalHeader → Type 0
Named identity g = (g.client_pid ≡ identity.pid) × (g.client_birth ≡ identity.birth)

-- What a client that stands at `pc` knows of the header.
abbrev pub Knows : ProcessIdentity → GlobalHeader → ClientPc → Type 0
Knows identity g store_pid = Claimed g
Knows identity g store_birth = Claimed g × (g.client_pid ≡ identity.pid)
Knows identity g compare_connect = Claimed g × Named identity g
Knows identity g wake = (3 ≤ g.state) × Named identity g
Knows identity g joined = (3 ≤ g.state) × Named identity g
Knows identity g _ = Unit

pub record Inv (ids : ℕ → ProcessIdentity) (g : GlobalHeader) (pc : ℕ → ClientPc) : Type 0 where
  pub knows : (i : ℕ) → Knows (ids i) g (pc i)
  pub one : (i j : ℕ) → owns (pc i) ≡ 1 → owns (pc j) ≡ 1 → i ≡ j
  pub connected_by : g.state ≡ 3 → (i : ℕ) × (owns (pc i) ≡ 1) × Named (ids i) g

pub owner-Claimed :
    (identity : ProcessIdentity) (g : GlobalHeader) (pc : ClientPc)
    → Knows identity g pc
    → owns pc ≡ 1
    → 2 ≤ g.state
unfolding owns
owner-Claimed identity g pc k o = ground arith

pub owns-cases : (pc : ClientPc) → (owns pc ≡ 0) ⊎ (owns pc ≡ 1)
unfolding owns
owns-cases pc = ground arith

-- What a client that owns nothing knows does not depend on the header.
pub bystander :
    (identity : ProcessIdentity) (g : GlobalHeader) (pc : ClientPc)
    → owns pc ≢ 1
    → Knows identity g pc
unfolding owns
bystander identity g pc o = ground arith

-- The moves of a client, by what they do.
pub data Moved (identity : ProcessIdentity) (m : Mapping)
    : ClientPc → ClientPc → Mapping → Type 0 where
  idles : {p p' : ClientPc} → owns p ≡ 0 → owns p' ≡ 0 → Moved identity m p p' m
  claims :
      m.global.state ≡ 1
      → Moved identity m compare_claim store_pid (set_state (as_u32 client_claimed) m)
  names_pid :
      Moved identity m store_pid store_birth
        (record m { global = record (m.global) { client_pid = identity.pid } })
  names_birth :
      Moved identity m store_birth compare_connect
        (record m { global = record (m.global) { client_birth = identity.birth } })
  connects :
      m.global.state ≡ 2 → Moved identity m compare_connect wake (set_state (as_u32 connected) m)
  loses : {e : Error} → Moved identity m compare_connect (refused e) m
  wakes : Moved identity m wake joined (wake_all m)
  rests : Moved identity m joined joined m

after_load-owns :
    (seen : Result (Option (Unit {0}))) (checked : Result (Unit {0}))
    → owns (after_load seen checked) ≡ 0
unfolding after_load owns
after_load-owns seen checked = ground arith

pub client_step-Moved :
    (identity : ProcessIdentity) (checked : Result (Unit {0})) (pc : ClientPc) (m : Mapping)
    → let (pc', m') = client_step identity checked pc m in Moved identity m pc pc' m'
unfolding client_step owns
client_step-Moved identity checked load_state m =
    idles refl (after_load-owns (published (from_u32 m.global.state)) checked)
client_step-Moved identity checked compare_claim m = elim (Bool-cases (m.global.state == 1)) [
  | inl h ↦ rw h (claims (ground (arith, h)))
  | inr h ↦ rw h (idles refl refl)
]
client_step-Moved identity checked store_pid m = names_pid
client_step-Moved identity checked store_birth m = names_birth
client_step-Moved identity checked compare_connect m = elim (Bool-cases (m.global.state == 2)) [
  | inl h ↦ rw h (connects (ground (arith, h)))
  | inr h ↦ rw h (loses)
]
client_step-Moved identity checked wake m = wakes
client_step-Moved identity checked joined m = rests
client_step-Moved identity checked (refused e) m = idles refl refl
