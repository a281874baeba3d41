-- ===== src/Header/Tests.antt =====
-- The theorems on src/header.rs at concrete inputs.
use shmem_ipc.Base.{◌%◌, ◌≡◌, refl}
use shmem_ipc.Header.{ring_offsets}
use shmem_ipc.Header.Layout.{IsPacked, ring_offsets-IsPacked}

ring_offsets-IsPacked_example :
    IsPacked 65536 (ring_offsets 65536)
    × ((ring_offsets 65536).ring_a_header % 64 ≡ 0)
    × ((ring_offsets 65536).ring_a_data % 64 ≡ 0)
    × ((ring_offsets 65536).ring_b_header % 64 ≡ 0)
    × ((ring_offsets 65536).ring_b_data % 64 ≡ 0)
ring_offsets-IsPacked_example = ring_offsets-IsPacked 65536 refl
