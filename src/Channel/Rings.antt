-- ===== src/Channel/Rings.antt =====
-- The rings that `from_shared` of src/channel.rs gives to the two roles.
use shmem_ipc.Base.{ℕ, ◌+◌, ◌%◌, ◌≤◌, ◌<◌, ◌≡◌, refl, ◌∙◌, sym, ◌⊎◌, inl, inr, List, length, arith}
use native.Mathlib.Nat.{mod-lt}
use shmem_ipc.Error.{ok}
use shmem_ipc.Header.{ring_offsets}
use shmem_ipc.Memory.{Memory}
use shmem_ipc.Ring.Area.{Area, IsArea, slot, write_ring, read_ring}
use shmem_ipc.Ring.Copy.{write_ring-outside}
use shmem_ipc.Ring.Window.{window-congr, read_ring-eq-window}
use shmem_ipc.Shared.State.{Role}
use shmem_ipc.Channel.{ChannelConfig, validate_config, ring_place, from_shared}
use shmem_ipc.Channel.Config.{ring_place-IsArea}

abbrev pub other : Role → Role
other Role.server = Role.client
other Role.client = Role.server

-- One area ends before the other begins.
abbrev pub Apart : Area → Area → Type 0
Apart a b =
    (a.data_offset + a.ring_data_size ≤ b.data_offset)
    ⊎ (b.data_offset + b.ring_data_size ≤ a.data_offset)

pub from_shared-Apart :
    (role : Role) (config : ChannelConfig)
    → Apart (from_shared role config).0.area (from_shared role config).1.area
unfolding from_shared ring_offsets ring_place
from_shared-Apart Role.server config = inl (omega arith)
from_shared-Apart Role.client config = inr (omega arith)

pub from_shared-IsArea :
    (role : Role) (config : ChannelConfig)
    → validate_config config ≡ ok tt
    → IsArea (from_shared role config).0.area × IsArea (from_shared role config).1.area
unfolding from_shared
from_shared-IsArea Role.server config h =
    let o = ring_offsets config.ring_size in
    (
      ring_place-IsArea o.ring_a_header o.ring_a_data config h,
      ring_place-IsArea o.ring_b_header o.ring_b_data config h,
    )
from_shared-IsArea Role.client config h =
    let o = ring_offsets config.ring_size in
    (
      ring_place-IsArea o.ring_b_header o.ring_b_data config h,
      ring_place-IsArea o.ring_a_header o.ring_a_data config h,
    )

pub crossed :
    (role : Role) (config : ChannelConfig)
    → ((from_shared role config).0 ≡ (from_shared (other role) config).1)
      × ((from_shared role config).1 ≡ (from_shared (other role) config).0)
unfolding from_shared
crossed Role.server config = (refl, refl)
crossed Role.client config = (refl, refl)

-- What is written in one area is not seen in another.
read_ring-Apart :
    {a b : Area}
    → IsArea a
    → IsArea b
    → Apart a b
    → (c : ℕ) (bytes : List ℕ) (d n : ℕ) (mem : Memory) → length bytes ≤ a.ring_data_size
    → n ≤ b.ring_data_size
    → read_ring b d n (write_ring a c bytes mem) ≡ read_ring b d n mem
read_ring-Apart {a} {b} va vb apart c bytes d n mem fits short =
    read_ring-eq-window vb _ d n short
    ∙ window-congr b _ mem d n same
    ∙ sym (read_ring-eq-window vb mem d n short)
  where
    same : (i : ℕ) → i < n → write_ring a c bytes mem (slot b (d + i)) ≡ mem (slot b (d + i))
    same i lt =
        let below : (d + i) % b.ring_data_size < b.ring_data_size =
          mod-lt (d + i) (omega (arith, vb.large)) in
        write_ring-outside va c bytes mem (slot b (d + i)) fits (ground (arith, apart, below))

-- With an accepted configuration, each role sends on the ring on which the other receives, header
-- and data; both data areas are valid ones; and whatever a role writes into the ring that it sends
-- on, the bytes of the ring that it receives on stay as they are.
pub from_shared_lem :
    (role : Role) (config : ChannelConfig)
    → validate_config config ≡ ok tt
    → let (outgoing, incoming) = from_shared role config in
      (outgoing ≡ (from_shared (other role) config).1)
      × (incoming ≡ (from_shared (other role) config).0)
      × IsArea outgoing.area
      × IsArea incoming.area
      × ((c : ℕ) (bytes : List ℕ) (d n : ℕ) (mem : Memory)
          → length bytes ≤ outgoing.area.ring_data_size
          → n ≤ incoming.area.ring_data_size
          → read_ring incoming.area d n (write_ring outgoing.area c bytes mem)
            ≡ read_ring incoming.area d n mem)
from_shared_lem role config h =
    let (out_area, in_area) = from_shared-IsArea role config h in
    (
      (crossed role config).0,
      (crossed role config).1,
      out_area,
      in_area,
      read_ring-Apart out_area in_area (from_shared-Apart role config),
    )
