-- ===== src/Shared/Dropped.antt =====
-- The end of a SharedChannel in src/shared.rs: `drop`, and whether the backing file is removed.
use shmem_ipc.Base.{
  ◌+◌, ◌<◌, ◌≡◌, refl, ◌⊎◌, inl, inr, Bool, true, false, not, ◌&&◌, ◌||◌, List, Option, some, none,
  arith,
}
use shmem_ipc.Error.{Result, ok, err}
use shmem_ipc.Header.{ChannelState, closed, as_u32}
use shmem_ipc.Platform.{ProcessStat, ProcessMonitor, is_alive}
use shmem_ipc.Shared.State.{Role, Mapping}
use shmem_ipc.Shared.Protocol.{rank, IsTerminal}
use shmem_ipc.Shared.Finish.{Attempt, finish}
use shmem_ipc.Shared.Finish.Ends.{Follows, genuine, Ended-state, finish_ends}

abbrev pub is_server : Role → Bool
is_server Role.server = true
is_server Role.client = false

-- `matches!(peer.is_alive(), Ok(false))`
abbrev pub found_dead : Result Bool → Bool
found_dead (ok alive) = not alive
found_dead (err _) = false

-- The observer, unless there is none or its lock is poisoned.
unfoldable pub has_seen_death : ProcessStat → (poisoned : Bool) → Option ProcessMonitor → Bool
has_seen_death process_stat poisoned none = false
has_seen_death process_stat poisoned (some monitor) =
    not poisoned && found_dead (is_alive process_stat monitor)

-- `remove_on_drop`, after `finish(Closed)`; `none` where that has not ended.
unfoldable pub drop_channel :
    ProcessStat
    → Role
    → (poisoned : Bool) → Option ProcessMonitor
    → List Attempt
    → Mapping
    → Option (Bool × Mapping)
unfolding has_seen_death
drop_channel process_stat role poisoned peer attempts m = elim (finish closed attempts m) [
  | none ↦ none
  | some m' ↦ some (is_server role || has_seen_death process_stat poisoned peer, m')
]

drop-finish :
    (process_stat : ProcessStat) (role : Role) (poisoned : Bool) (peer : Option ProcessMonitor)
    → (attempts : List Attempt) (m m' : Mapping) → finish closed attempts m ≡ some m'
    → drop_channel process_stat role poisoned peer attempts m
      ≡ some (is_server role || has_seen_death process_stat poisoned peer, m')
unfolding drop_channel
drop-finish process_stat role poisoned peer attempts m m' run = rw (run, drop_channel) refl

-- Who removes the file.
abbrev pub MayRemove : ProcessStat → Role → Option ProcessMonitor → Type 0
MayRemove process_stat role peer =
    (role ≡ Role.server)
    ⊎ ((monitor : ProcessMonitor) × (peer ≡ some monitor)
        × (is_alive process_stat monitor ≡ ok false))

may_remove :
    (process_stat : ProcessStat) (role : Role) (poisoned : Bool) (peer : Option ProcessMonitor)
    → (is_server role || has_seen_death process_stat poisoned peer) ≡ true
    → MayRemove process_stat role peer
unfolding has_seen_death
may_remove process_stat Role.server poisoned peer h = inl refl
may_remove process_stat Role.client poisoned none h = ground (arith, h)
may_remove process_stat Role.client poisoned (some monitor) h =
    inr (monitor, refl, ground (arith, h))

-- If the other processes move the state word by the protocol only, five attempts that do not fail
-- spuriously are enough for `drop` to retire the channel: the state is terminal afterwards. A
-- server then removes the backing file; a client removes it only if it holds an observer of the
-- server that finds the server dead.
pub drop_channel_ends :
    (process_stat : ProcessStat) (role : Role) (poisoned : Bool) (peer : Option ProcessMonitor)
    → (s : ChannelState) (attempts : List Attempt) (m : Mapping) → m.global.state ≡ as_u32 s
    → Follows s attempts
    → 4 < genuine attempts + rank s
    → (remove : Bool) × (m' : Mapping) × (u : ChannelState) × (drop_channel process_stat role
          poisoned peer attempts m
        ≡ some (remove, m'))
      × IsTerminal u
      × (m'.global.state ≡ as_u32 u)
      × (role ≡ Role.server → remove ≡ true)
      × (remove ≡ true → MayRemove process_stat role peer)
drop_channel_ends process_stat role poisoned peer s attempts m e f enough =
    let (m', run, ended) = finish_ends closed s attempts m e f enough in
    let (u, over, at) = Ended-state refl ended in
    (
      is_server role || has_seen_death process_stat poisoned peer,
      m',
      u,
      drop-finish process_stat role poisoned peer attempts m m' run,
      over,
      at,
      λ server. rw server refl,
      may_remove process_stat role poisoned peer,
    )
