-- ===== src/Shared/Protocol.antt =====
-- The transitions of the channel state that src/header.rs draws and that src/channel.rs and
-- src/shared.rs make: Init → ServerReady → ClientClaimed → Connected, and from each of these
-- to Closed or PeerDisconnected.
use shmem_ipc.Base.{ℕ, ◌≤◌, ◌<◌, ◌≡◌, refl, ◌⊎◌, inl, inr, arith}
use shmem_ipc.Header.{
  ChannelState, init, server_ready, client_claimed, connected, closed, peer_disconnected,
}

abbrev pub rank : ChannelState → ℕ
rank init = 0
rank server_ready = 1
rank client_claimed = 2
rank connected = 3
rank closed = 4
rank peer_disconnected = 4

abbrev pub IsTerminal : ChannelState → Type 0
IsTerminal s = rank s ≡ 4

pub data Transition : ChannelState → ChannelState → Type 0 where
  publish : Transition init server_ready
  claim : Transition server_ready client_claimed
  connect : Transition client_claimed connected
  retire : {s t : ChannelState} → rank s < 4 → IsTerminal t → Transition s t

-- Any number of transitions.
pub data Later (s : ChannelState) : ChannelState → Type 0 where
  same : Later s s
  after : {t u : ChannelState} → Later s t → Transition t u → Later s u

Transition-lt : {s t : ChannelState} → Transition s t → rank s < rank t
Transition-lt publish = omega arith
Transition-lt claim = omega arith
Transition-lt connect = omega arith
Transition-lt (retire h e) = omega arith

-- The state only goes forward.
pub Later-cases : {s t : ChannelState} → Later s t → (s ≡ t) ⊎ (rank s < rank t)
Later-cases same = inl refl
Later-cases (after l step) = inr (ground (arith, Later-cases l, Transition-lt step))

pub Later-trans : {s t u : ChannelState} → Later s t → Later t u → Later s u
Later-trans l same = l
Later-trans l (after k step) = after (Later-trans l k) step

pub rank-le : (s : ChannelState) → rank s ≤ 4
rank-le init = omega arith
rank-le server_ready = omega arith
rank-le client_claimed = omega arith
rank-le connected = omega arith
rank-le closed = omega arith
rank-le peer_disconnected = omega arith

-- A terminal cause is never replaced.
pub Later-IsTerminal : {s t : ChannelState} → IsTerminal s → Later s t → s ≡ t
Later-IsTerminal {s} {t} e l = ground (arith, Later-cases l, rank-le t)
