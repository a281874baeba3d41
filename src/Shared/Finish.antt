-- ===== src/Shared/Finish.antt =====
-- `finish` and `close` of src/shared.rs. Other processes may change the state word before each
-- `compare_exchange_weak`, and that operation may fail for no reason.
pub mod Ends
pub mod Close
use shmem_ipc.Base.{
  ℕ, ◌+◌, ◌≡◌, ◌&&◌, not, Bool, true, false, List, [], ◌∷◌, Option, some, none, ◌==◌, if◌then◌else◌,
}
use shmem_ipc.Error.{Error, Result, ok, err}
use shmem_ipc.Header.{ChannelState, closed, peer_disconnected, as_u32, from_u32}
use shmem_ipc.Shared.State.{Mapping, set_state, wake_all, terminal}

-- What one `compare_exchange_weak` meets.
pub record Attempt : Type 0 where
  pub now : ℕ
  pub spurious : Bool

-- The match at the head of the loop: is there nothing left to do?
unfoldable pub is_settled : Option ChannelState → Bool
is_settled none = true
is_settled (some closed) = true
is_settled (some peer_disconnected) = true
is_settled (some _) = false

-- `none` is a loop that has not ended after the given attempts.
unfoldable pub finish_loop : ChannelState → List Attempt → ℕ → Mapping → Option Mapping
unfolding is_settled
finish_loop t [] current m = if is_settled (from_u32 current) then some m else none
finish_loop t (x ∷ rest) current m =
    let changed = set_state x.now m in
    let retry = finish_loop t rest x.now changed in
    if is_settled (from_u32 current)
    then some m
    else if x.now == current && not x.spurious
    then some (wake_all (set_state (as_u32 t) changed))
    else retry

unfoldable pub finish : ChannelState → List Attempt → Mapping → Option Mapping
unfolding finish_loop
finish t attempts m = finish_loop t attempts m.global.state m

-- With nobody else at the state word.
unfoldable pub finish_alone : ChannelState → Mapping → Mapping
unfolding finish
finish_alone t m = elim (finish t (record { now = m.global.state; spurious = false } ∷ []) m) [
  | some m' ↦ m'
  | none ↦ m
]

-- What `close` makes of the terminal cause.
unfoldable pub close_result : Result (Unit {0}) → Result (Unit {0})
close_result (err Error.channel_closed) = ok tt
close_result other = other

unfoldable pub close : List Attempt → Mapping → Option (Result (Unit {0}) × Mapping)
unfolding finish close_result terminal
close attempts m = elim (finish closed attempts m) [
  | none ↦ none
  | some m' ↦ some (close_result (terminal m'), m')
]
