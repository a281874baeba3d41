-- ===== src/Ring/Copy.antt =====
-- `write_ring` and `read_ring` against the byte-by-byte view of the area.
use shmem_ipc.Base.{
  ℕ, ◌+◌, ◌-◌, ◌%◌, ◌≤◌, ◌<◌, min, ◌≡◌, ◌⊎◌, List, arith, length, get_or, length-take, length-drop,
  get_or-take, get_or-drop,
}
use shmem_ipc.Memory.{Memory, copy_in}
use shmem_ipc.Ring.Area.{Area, IsArea, start-eq-mod, slot, write_ring, add-mod-cases}

module _ {a : Area} (v : IsArea a) (c : ℕ) (bytes : List ℕ) (mem : Memory) where
  abbrev first_len : ℕ
  first_len = min (length bytes) (a.ring_data_size - c % a.ring_data_size)

  abbrev round : ℕ → ℕ
  round i = c % a.ring_data_size + i - a.ring_data_size

  -- Byte `i` goes to the slot of cursor `c + i`.
  pub write_ring-inside :
      (i : ℕ)
      → length bytes ≤ a.ring_data_size
      → i < length bytes
      → write_ring a c bytes mem (slot a (c + i)) ≡ get_or bytes i 0
  unfolding write_ring copy_in
  write_ring-inside i fits h = ground (
    arith,
    start-eq-mod v c,
    add-mod-cases a.ring_data_size c i,
    length-take first_len bytes,
    length-drop first_len bytes,
    get_or-take first_len i bytes 0,
    get_or-drop first_len (round i) i bytes 0,
  )

  -- The rest of the round keeps its bytes.
  pub write_ring-keeps :
      (i : ℕ)
      → length bytes ≤ i
      → i < a.ring_data_size
      → write_ring a c bytes mem (slot a (c + i)) ≡ mem (slot a (c + i))
  unfolding write_ring copy_in
  write_ring-keeps i past h = ground (
    arith,
    start-eq-mod v c,
    add-mod-cases a.ring_data_size c i,
    length-take first_len bytes,
    length-drop first_len bytes,
  )

  -- No byte outside the area is touched.
  pub write_ring-outside :
      (x : ℕ)
      → length bytes ≤ a.ring_data_size
      → (x < a.data_offset) ⊎ (a.data_offset + a.ring_data_size ≤ x)
      → write_ring a c bytes mem x ≡ mem x
  unfolding write_ring copy_in
  write_ring-outside x fits out = ground (
    arith,
    start-eq-mod v c,
    add-mod-cases a.ring_data_size c 0,
    length-take first_len bytes,
    length-drop first_len bytes,
  )
