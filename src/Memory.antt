-- ===== src/Memory.antt =====
-- The bytes of the mapped file, by offset from the base of the mapping (`mmap`, `base` in
-- src/shared.rs and src/ring.rs), and `std::ptr::copy_nonoverlapping` into and out of it.
use shmem_ipc.Base.{
  ℕ, zero, suc, ◌+◌, ◌-◌, ◌<◌, ◌≤◌, ◌≡◌, ◌⊎◌, ◌&&◌, List, [], ◌∷◌, arith, ltb, leb, if◌then◌else◌,
  length, get_or,
}

abbrev pub Memory : Type 0
Memory = ℕ → ℕ

-- The bytes are copied to `dst` and the offsets behind it.
unfoldable pub copy_in : Memory → ℕ → List ℕ → Memory
copy_in mem dst bytes x =
    if leb dst x && ltb x (dst + length bytes) then get_or bytes (x - dst) 0 else mem x

unfoldable pub copy_out : Memory → ℕ → ℕ → List ℕ
copy_out mem src zero = []
copy_out mem src (suc n) = mem src ∷ copy_out mem (src + 1) n

pub copy_in-inside :
    (mem : Memory) (dst i : ℕ) (bytes : List ℕ)
    → i < length bytes
    → copy_in mem dst bytes (dst + i) ≡ get_or bytes i 0
unfolding copy_in
copy_in-inside mem dst i bytes h = ground arith

pub copy_in-outside :
    (mem : Memory) (dst x : ℕ) (bytes : List ℕ)
    → (x < dst) ⊎ (dst + length bytes ≤ x)
    → copy_in mem dst bytes x ≡ mem x
unfolding copy_in
copy_in-outside mem dst x bytes h = ground arith
