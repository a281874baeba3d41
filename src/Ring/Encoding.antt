-- ===== src/Ring/Encoding.antt =====
-- `u32::to_le_bytes` and `u32::from_le_bytes`, with which src/ring.rs writes and reads the length
-- and the sequence number of a message.
use shmem_ipc.Base.{ℕ, ◌+◌, ◌*◌, ◌/◌, ◌%◌, ◌^◌, ◌<◌, ◌≡◌, List, [], ◌∷◌, arith, get_or}

unfoldable pub to_le_bytes : ℕ → List ℕ
to_le_bytes n = (n % 256) ∷ (n / 256 % 256) ∷ (n / 65536 % 256) ∷ (n / 16777216 % 256) ∷ []

unfoldable pub from_le_bytes : ℕ → ℕ → ℕ → ℕ → ℕ
from_le_bytes b0 b1 b2 b3 = b0 + 256 * b1 + 65536 * b2 + 16777216 * b3

pub from_le_bytes-to_le_bytes :
    (n : ℕ)
    → n < 2 ^ 32
    → let b = to_le_bytes n in
      from_le_bytes (get_or b 0 0) (get_or b 1 0) (get_or b 2 0) (get_or b 3 0) ≡ n
unfolding to_le_bytes from_le_bytes
from_le_bytes-to_le_bytes n h = omega arith
