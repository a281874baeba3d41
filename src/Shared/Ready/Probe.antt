-- ===== src/Shared/Ready/Probe.antt =====
-- The probe of `check_ready` in src/shared.rs turns the death of the peer process into the channel's
-- terminal state and into the caller's answer.
use shmem_ipc.Base.{
  ℕ, ◌-◌, ◌^◌, ◌≤◌, ◌<◌, min, ◌≡◌, ◌≢◌, refl, sym, ap, ◌∙◌, ◌⊎◌, inl, inr, Bool, false, List,
  Option, some, none, arith,
}
use shmem_ipc.Error.{Error, Result, ok, err}
use shmem_ipc.Header.{ChannelState, connected, peer_disconnected, as_u32}
use shmem_ipc.Header.States.{from_u32-as_u32}
use shmem_ipc.Platform.{ProcessIdentity, ProcessStat, ProcessMonitor, is_alive, open_monitor}
use shmem_ipc.Shared.State.{Role, Mapping, Observer, set_state, terminal_of, terminal}
use shmem_ipc.Shared.Protocol.{IsTerminal, Later, Later-IsTerminal}
use shmem_ipc.Shared.Finish.{Attempt, finish}
use shmem_ipc.Shared.Finish.Ends.{Follows, genuine, Ended, Ended-state, finish_ends}
use shmem_ipc.Shared.Ready.{
  Round, broke, ready_loop, peer_identity, watching, gone, install, Meets, last_look, retire_peer,
  rearmed, observe, probe, check_ready,
}
use shmem_ipc.Shared.Ready.Loop.{cause}

-- The process that the probe looks at.
abbrev pub watched : Role → Mapping → Observer → ProcessIdentity
watched role m o = elim o.peer [ some monitor ↦ monitor.identity | none ↦ peer_identity role m ]

-- The state word that the last load meets, after `finish`, follows the protocol as well.
abbrev pub EndFollows : Meets → Mapping → Type 0
EndFollows x m =
    (m' : Mapping) (v : ChannelState)
    → finish peer_disconnected x.attempts m ≡ some m'
    → m'.global.state ≡ as_u32 v
    → (u : ChannelState) × (x.at_end ≡ as_u32 u) × Later v u

-- A retired channel: every later wait answers the cause.
abbrev pub Retired : List Attempt → Mapping → Mapping → Result Bool → Type 0
Retired attempts m m' r =
    (u : ChannelState) × IsTerminal u
    × (m'.global.state ≡ as_u32 u)
    × (r ≡ err (cause u))
    × Ended peer_disconnected connected attempts m m'

terminal_over : (u : ChannelState) → IsTerminal u → terminal_of (some u) ≡ err (cause u)
unfolding terminal_of
terminal_over u h = ground arith

last_look_over :
    (u : ChannelState) (m : Mapping) (o : Observer)
    → IsTerminal u
    → last_look (as_u32 u) m o ≡ (err (cause u), set_state (as_u32 u) m, o)
unfolding last_look terminal
last_look_over u m o over = rw (from_u32-as_u32 u, terminal_over u over)

terminal_live : (m : Mapping) → m.global.state ≡ as_u32 connected → terminal m ≡ ok tt
unfolding terminal terminal_of
terminal_live m e = ground (arith, e, from_u32-as_u32 connected)

retire_peer-finish :
    (x : Meets) (m m' : Mapping) (o : Observer)
    → finish peer_disconnected x.attempts m ≡ some m'
    → retire_peer x m o ≡ some (last_look x.at_end m' o)
unfolding retire_peer
retire_peer-finish x m m' o run = rw (run, retire_peer)

retire_peer_lem :
    (x : Meets) (m : Mapping) (o : Observer)
    → m.global.state ≡ as_u32 connected
    → Follows connected x.attempts
    → 1 < genuine x.attempts
    → EndFollows x m
    → (r : Result Bool) × (m' : Mapping) × (retire_peer x m o ≡ some (r, m', o))
      × Retired x.attempts m m' r
retire_peer_lem x m o e f enough at_end =
    let (m', run, ended) = finish_ends peer_disconnected connected x.attempts m e f (omega arith) in
    let (u, over, at) = Ended-state refl ended in
    let (v, last, l) = at_end m' u run at in
    let same_state : x.at_end ≡ as_u32 u = last ∙ ap as_u32 (sym (Later-IsTerminal over l)) in
    let answered : last_look x.at_end m' o ≡ (err (cause u), m', o) =
      ap (λ n. last_look n m' o) same_state
      ∙ last_look_over u m' o over
      ∙ ap (λ n. (err (cause u), set_state n m', o)) (sym at) in
    (
      err (cause u),
      m',
      retire_peer-finish x m m' o run ∙ ap some answered,
      (u, over, at, refl, ended),
    )

module _ (process_stat : ProcessStat) (role : Role) where
  -- A dead process is found dead when its observer is opened, too.
  open_dead :
      (identity : ProcessIdentity)
      → identity.pid ≢ 0
      → is_alive process_stat (record { identity = identity }) ≡ ok false
      → open_monitor process_stat identity ≡ err Error.peer_disconnected
  unfolding open_monitor
  open_dead identity pid dead = ground (arith, pid, dead)

  install_dead :
      (m : Mapping) (peer : Option ProcessMonitor) (next : ℕ)
      → let o : Observer = record { peer = peer; next_probe_ms = next } in
        (watched role m o).pid ≢ 0
        → is_alive process_stat (record { identity = watched role m o }) ≡ ok false
        → (install process_stat role m o ≡ gone)
          ⊎ ((monitor : ProcessMonitor) × (install process_stat role m o ≡ watching monitor)
              × (is_alive process_stat monitor ≡ ok false))
  unfolding install
  install_dead m (some monitor) next pid dead = inr (monitor, refl, dead)
  install_dead m none next pid dead =
      let h = open_dead (peer_identity role m) pid dead in inl (ground (arith, h))

  -- Under the lock, on a connected channel: the three ways into `retire_peer`.
  observe-gone :
      (now : ℕ) (x : Meets) (before : Mapping) (o : Observer)
      → terminal (set_state x.at_probe before) ≡ ok tt
      → install process_stat role (set_state x.at_probe before) o ≡ gone
      → observe process_stat role now x before o ≡ retire_peer x (set_state x.at_probe before) o
  unfolding observe
  observe-gone now x before o live h = ground (arith, live, h)

  observe-ended :
      (now : ℕ) (x : Meets) (before : Mapping) (o : Observer) (monitor : ProcessMonitor)
      → terminal (set_state x.at_probe before) ≡ ok tt
      → install process_stat role (set_state x.at_probe before) o ≡ watching monitor
      → is_alive process_stat monitor ≡ ok false
      → observe process_stat role now x before o
        ≡ retire_peer x (set_state x.at_probe before) (rearmed now monitor)
  unfolding observe
  observe-ended now x before o monitor live h dead = ground (arith, live, h, dead)

  observe_dead :
      (now : ℕ) (x : Meets) (before : Mapping) (o : Observer)
      → x.at_probe ≡ as_u32 connected
      → (watched role (set_state x.at_probe before) o).pid ≢ 0
      → is_alive process_stat (record { identity = watched role (set_state x.at_probe before) o })
        ≡ ok false
      → Follows connected x.attempts
      → 1 < genuine x.attempts
      → EndFollows x (set_state x.at_probe before)
      → (r : Result Bool) × (m' : Mapping) × (o' : Observer) × (observe process_stat role now x
            before o
          ≡ some (r, m', o'))
        × Retired x.attempts (set_state x.at_probe before) m' r
  observe_dead now x before o e pid dead f enough at_end =
      let m = set_state x.at_probe before in
      let live : terminal m ≡ ok tt = terminal_live m e in
      elim (install_dead m o.peer o.next_probe_ms pid dead) [
        | inl absent ↦
            let (r, m', run, retired) = retire_peer_lem x m o e f enough at_end in
            (r, m', o, observe-gone now x before o live absent ∙ run, retired)
        | inr (monitor, found, over) ↦
            let (r, m', run, retired) =
              retire_peer_lem x m (rearmed now monitor) e f enough at_end in
            (
              r,
              m',
              rearmed now monitor,
              observe-ended now x before o monitor live found over ∙ run,
              retired,
            )
      ]

  probe_due :
      (now : ℕ) (x : Meets) (m : Mapping) (o : Observer)
      → x.first_look ≤ now
      → x.poisoned ≡ false
      → o.next_probe_ms ≤ now
      → probe process_stat role now x m o ≡ observe process_stat role now x m o
  unfolding probe
  probe_due now x m o first sound due = ground (arith, first, sound, due)

  check_ready-probe :
      (timeout : ℕ) (rounds : List Round) (elapsed : ℕ) (x : Meets) (before m : Mapping)
      (o : Observer)
      → ready_loop timeout rounds before ≡ some (broke, m)
      → check_ready process_stat role timeout rounds elapsed x before o
        ≡ probe process_stat role (min elapsed (2 ^ 64 - 1)) x m o
  unfolding check_ready
  check_ready-probe timeout rounds elapsed x before m o run = rw (run, check_ready)

  -- Where a probe is due on a connected channel and the process that it watches has died, or has
  -- another birth than the header says, `check_ready` answers an error, not `Ok`: it leaves the
  -- channel in a terminal state, answers that state's cause, and either it has itself published
  -- PeerDisconnected and woken all four sides, or another process had retired the channel, which
  -- it then leaves as it was. The watched identity is the open observer's, or else the peer's
  -- words in the header. The other processes move the state word by the protocol only, and two of
  -- the attempts of `finish` do not fail spuriously.
  pub check_ready_dead :
      (timeout : ℕ) (rounds : List Round) (elapsed : ℕ) (x : Meets) (before m : Mapping)
      (o : Observer)
      → ready_loop timeout rounds before ≡ some (broke, m)
      → x.first_look ≤ min elapsed (2 ^ 64 - 1)
      → x.poisoned ≡ false
      → o.next_probe_ms ≤ min elapsed (2 ^ 64 - 1)
      → x.at_probe ≡ as_u32 connected
      → (watched role (set_state x.at_probe m) o).pid ≢ 0
      → is_alive process_stat (record { identity = watched role (set_state x.at_probe m) o })
        ≡ ok false
      → Follows connected x.attempts
      → 1 < genuine x.attempts
      → EndFollows x (set_state x.at_probe m)
      → (r : Result Bool) × (m' : Mapping) × (o' : Observer) × (check_ready process_stat role
            timeout rounds elapsed x before o
          ≡ some (r, m', o'))
        × Retired x.attempts (set_state x.at_probe m) m' r
  check_ready_dead timeout rounds elapsed x before m o run first sound due e pid dead f enough
        at_end =
      let now = min elapsed (2 ^ 64 - 1) in
      let (r, m', o', seen, retired) = observe_dead now x m o e pid dead f enough at_end in
      (
        r,
        m',
        o',
        check_ready-probe timeout rounds elapsed x before m o run
            ∙ probe_due now x m o first sound due
            ∙ seen,
        retired,
      )
