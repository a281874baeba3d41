-- ===== src/Header/Layout.antt =====
-- Where `RingOffsets::new` puts the headers and data areas in the mapped file.
use shmem_ipc.Base.{ℕ, ◌+◌, ◌%◌, ◌≡◌, arith}
use shmem_ipc.Header.{RingOffsets, ring_offsets, global_header_size, ring_header_size}

-- The regions of the file, in order: each ends where the next begins, and the last at the end.
pub record IsPacked (size : ℕ) (o : RingOffsets) : Type 0 where
  pub after_global : o.ring_a_header ≡ global_header_size
  pub a_header : o.ring_a_header + ring_header_size ≡ o.ring_a_data
  pub a_data : o.ring_a_data + size ≡ o.ring_b_header
  pub b_header : o.ring_b_header + ring_header_size ≡ o.ring_b_data
  pub b_data : o.ring_b_data + size ≡ o.total_size

-- The global header, the two ring headers and the two data areas of the given size follow one
-- another without gap or overlap and fill the file; if the size is a multiple of 64, each starts
-- on a cache line of 64 bytes.
pub ring_offsets-IsPacked :
    (size : ℕ)
    → size % 64 ≡ 0
    → IsPacked size (ring_offsets size)
      × ((ring_offsets size).ring_a_header % 64 ≡ 0)
      × ((ring_offsets size).ring_a_data % 64 ≡ 0)
      × ((ring_offsets size).ring_b_header % 64 ≡ 0)
      × ((ring_offsets size).ring_b_data % 64 ≡ 0)
unfolding ring_offsets
ring_offsets-IsPacked size h = omega arith
