-- ===== src/Header/States.antt =====
-- The channel states and their u32 codes.
use shmem_ipc.Base.{ℕ, ◌≡◌, ◌↔◌, ◌<◌, refl, none, some, arith}
use shmem_ipc.Header.{
  ChannelState, init, server_ready, client_claimed, connected, closed, peer_disconnected, as_u32,
  from_u32,
}

pub from_u32-as_u32 : (s : ChannelState) → from_u32 (as_u32 s) ≡ some s
unfolding from_u32
from_u32-as_u32 init = refl
from_u32-as_u32 server_ready = refl
from_u32-as_u32 client_claimed = refl
from_u32-as_u32 connected = refl
from_u32-as_u32 closed = refl
from_u32-as_u32 peer_disconnected = refl

pub as_u32_of_some : (v : ℕ) {s : ChannelState} → from_u32 v ≡ some s → v ≡ as_u32 s
unfolding from_u32
as_u32_of_some v h = ground arith

-- A raw word decodes to a state exactly when it is that state's code, and it decodes to none
-- exactly when it is above 5.
pub from_u32_iff :
    (v : ℕ) (s : ChannelState)
    → ((from_u32 v ≡ some s) ↔ (v ≡ as_u32 s)) × ((from_u32 v ≡ none) ↔ (5 < v))
unfolding from_u32
from_u32_iff v s =
    ((as_u32_of_some v, λ e. rw e (from_u32-as_u32 s)), (λ h. ground arith, λ h. ground arith))
