-- ===== src/Ring/Area.antt =====
-- A ring's data area: the fields `data_offset`, `ring_data_size` and `ring_mask` that RingSender
-- and RingReceiver of src/ring.rs both carry, and the two-part copies of `write_ring` and
-- `read_ring`, with the area's bytes as a cursor sees them.
use shmem_ipc.Base.{
  ℕ, zero, suc, ◌+◌, ◌-◌, ◌%◌, ◌^◌, ◌≤◌, ◌<◌, min, bit_and, ◌≡◌, ◌⊎◌, inl, inr, List, [], ◌∷◌, ◌++◌,
  arith, ltb, if◌then◌else◌, length, take, drop, bit_and_mask,
}
use native.Mathlib.Nat.{mod-add-mod, mod-eq_of_lt, mod-eq-sub-mod}
use native.Mathlib.Decide.{dec_lt}
use shmem_ipc.Memory.{Memory, copy_in, copy_out}

pub record Area : Type 0 where
  pub data_offset : ℕ
  pub ring_data_size : ℕ
  pub ring_mask : ℕ

unfoldable pub write_ring : Area → ℕ → List ℕ → Memory → Memory
write_ring a cursor bytes mem =
    let start = bit_and cursor a.ring_mask in
    let first_len = min (length bytes) (a.ring_data_size - start) in
    let head = copy_in mem (a.data_offset + start) (take first_len bytes) in
    if ltb first_len (length bytes) then copy_in head a.data_offset (drop first_len bytes) else head

-- The `n` bytes that fill the caller's buffer.
unfoldable pub read_ring : Area → ℕ → ℕ → Memory → List ℕ
read_ring a cursor n mem =
    let start = bit_and cursor a.ring_mask in
    let first_len = min n (a.ring_data_size - start) in
    let head = copy_out mem (a.data_offset + start) first_len in
    if ltb first_len n then head ++ copy_out mem a.data_offset (n - first_len) else head

-- What `RingSender::new` and `RingReceiver::new` are given: a power of two, with its mask.
pub record IsArea (a : Area) : Type 0 where
  pub log : ℕ
  pub power : a.ring_data_size ≡ 2 ^ log
  pub mask : a.ring_mask ≡ a.ring_data_size - 1
  pub large : 64 ≤ a.ring_data_size
  pub small : a.ring_data_size < 2 ^ 32

pub start-eq-mod : {a : Area} → IsArea a → (c : ℕ) → bit_and c a.ring_mask ≡ c % a.ring_data_size
start-eq-mod {a} v c = ground (arith, v.power, v.mask, bit_and_mask v.log c)

-- The offset of the byte at cursor `c`.
abbrev pub slot : Area → ℕ → ℕ
slot a c = a.data_offset + c % a.ring_data_size

-- The `n` bytes from cursor `c` on, byte by byte.
unfoldable pub window : Area → Memory → ℕ → ℕ → List ℕ
window a mem c zero = []
window a mem c (suc n) = mem (slot a c) ∷ window a mem (c + 1) n

-- A cursor less than one round ahead lies in this round or in the next.
pub add-mod-cases :
    (s c i : ℕ)
    → i < s
    → (c % s + i < s) × ((c + i) % s ≡ c % s + i) ⊎ (s ≤ c % s + i) × ((c + i) % s + s ≡ c % s + i)
add-mod-cases s c i h = elim (dec_lt (c % s + i) s) [
  | yes p ↦ inl (p, omega (arith, mod-add-mod c s i, mod-eq_of_lt p))
  | no p ↦ inr (
    omega arith,
    omega (
      arith,
      mod-add-mod c s i,
      mod-eq-sub-mod {n = c % s + i} {m = s} (omega arith),
      mod-eq_of_lt {n = c % s + i - s} {m = s} (omega arith),
    ),
  )
]
