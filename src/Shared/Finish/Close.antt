-- ===== src/Shared/Finish/Close.antt =====
-- What `close` of src/shared.rs answers and leaves.
use shmem_ipc.Base.{ℕ, ◌+◌, ◌<◌, ◌≡◌, refl, ap, List, some, arith}
use shmem_ipc.Error.{Error, Result, ok, err}
use shmem_ipc.Header.{ChannelState, closed, peer_disconnected, as_u32}
use shmem_ipc.Shared.State.{Mapping, set_state, wake_all, terminal}
use shmem_ipc.Shared.Protocol.{rank, IsTerminal}
use shmem_ipc.Shared.Finish.{Attempt, finish, close_result, close}
use shmem_ipc.Shared.Finish.Ends.{
  Follows, genuine, DecidedAt, Ended, won, lost, finish_ends, finish_over, Ended-state,
}

-- How `close` answers, by the state word at which its `finish` is decided: a live word it has closed
-- itself, and a terminal one it leaves.
pub data Answer (s : ChannelState) (attempts : List Attempt) (m m' : Mapping)
    : Result (Unit {0}) → Type 0 where
  closes :
      {u : ChannelState}
      → DecidedAt s attempts u
      → rank u < 4
      → m' ≡ wake_all (set_state (as_u32 closed) m)
      → Answer s attempts m m' (ok tt)
  was_closed :
      DecidedAt s attempts closed
      → m' ≡ set_state (as_u32 closed) m
      → Answer s attempts m m' (ok tt)
  was_dead :
      DecidedAt s attempts peer_disconnected
      → m' ≡ set_state (as_u32 peer_disconnected) m
      → Answer s attempts m m' (err Error.peer_disconnected)

closed_result : (m : Mapping) → m.global.state ≡ as_u32 closed → close_result (terminal m) ≡ ok tt
unfolding close_result terminal
closed_result m e = ground (arith, e)

dead_result :
    (m : Mapping)
    → m.global.state ≡ as_u32 peer_disconnected
    → close_result (terminal m) ≡ err Error.peer_disconnected
unfolding close_result terminal
dead_result m e = ground (arith, e)

state_at : {n : ℕ} (m : Mapping) {m' : Mapping} → m' ≡ set_state n m → m'.global.state ≡ n
state_at m e = ap (λ (x : Mapping). x.global.state) e

state_after :
    {n : ℕ} (m : Mapping) {m' : Mapping} → m' ≡ wake_all (set_state n m) → m'.global.state ≡ n
unfolding wake_all
state_after m e = ap (λ (x : Mapping). x.global.state) e

answer :
    {s : ChannelState} {attempts : List Attempt} {m m' : Mapping}
    → Ended closed s attempts m m'
    → Answer s attempts m m' (close_result (terminal m'))
answer {m} {m'} (won d live e) = rw (closed_result m' (state_after m e)) (closes d live e)
answer {s} {attempts} {m} {m'} (lost {u} d final e) = left u d final e
  where
    left :
        (u : ChannelState)
        → DecidedAt s attempts u
        → IsTerminal u
        → m' ≡ set_state (as_u32 u) m
        → Answer s attempts m m' (close_result (terminal m'))
    left closed d final e = rw (closed_result m' (state_at m e)) (was_closed d e)
    left peer_disconnected d final e = rw (dead_result m' (state_at m e)) (was_dead d e)
    left u d final e = absurd (omega (arith, final))

close-finish :
    (attempts : List Attempt) (m m' : Mapping)
    → finish closed attempts m ≡ some m'
    → close attempts m ≡ some (close_result (terminal m'), m')
unfolding close
close-finish attempts m m' run = rw (run, close)

-- If the other processes move the state word by the protocol only, five attempts that do not fail
-- spuriously are enough for `close` to return. It answers the peer's death exactly where the first
-- terminal word that it learns of, before a `compare_exchange_weak` of its own succeeds, is
-- PeerDisconnected, and leaves it; it answers `Ok` and wakes nobody where that word is Closed; and
-- otherwise it has replaced a live word, found unchanged, by Closed, has woken all four sides, and
-- answers `Ok`. A second call, whatever it meets, answers the same and changes nothing.
pub close_ends :
    (s : ChannelState) (attempts : List Attempt) (m : Mapping)
    → m.global.state ≡ as_u32 s
    → Follows s attempts
    → 4 < genuine attempts + rank s
    → (r : Result (Unit {0})) × (m' : Mapping) × (close attempts m ≡ some (r, m'))
      × Answer s attempts m m' r
      × ((again : List Attempt) → close again m' ≡ some (r, m'))
close_ends s attempts m e f enough =
    let (m', run, ended) = finish_ends closed s attempts m e f enough in
    let (u, over, at) = Ended-state refl ended in
    (
      close_result (terminal m'),
      m',
      close-finish attempts m m' run,
      answer ended,
      λ again. close-finish again m' m' (finish_over closed u again m' at over),
    )
