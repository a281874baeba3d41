-- ===== src/Ring/Window.antt =====
-- The bytes of a data area as a cursor sees them: what `read_ring` returns, and what a write of
-- `write_ring` makes of them.
use shmem_ipc.Base.{
  ℕ, zero, suc, ◌+◌, ◌-◌, ◌%◌, ◌≤◌, ◌<◌, ◌≡◌, refl, sym, ap, ◌∙◌, ◌⊎◌, List, [], ◌∷◌, ◌++◌, arith,
  length, get_or,
}
use native.Mathlib.Decide.{dec_lt}
use native.Mathlib.Nat.{add-mod_right, zero-add, add-zero}
use shmem_ipc.Memory.{Memory, copy_out}
use shmem_ipc.Ring.Area.{
  Area, IsArea, start-eq-mod, slot, window, write_ring, read_ring, add-mod-cases,
}
use shmem_ipc.Ring.Copy.{write_ring-inside, write_ring-keeps, write_ring-outside}

pub length-window : (a : Area) (mem : Memory) (c n : ℕ) → length (window a mem c n) ≡ n
unfolding window
length-window a mem c zero = refl
length-window a mem c (suc n) = omega (arith, length-window a mem (c + 1) n)

pub window-append :
    (a : Area) (mem : Memory) (c m n : ℕ)
    → window a mem c (m + n) ≡ window a mem c m ++ window a mem (c + m) n
unfolding window
window-append a mem c zero n = rw (zero-add, add-zero)
window-append a mem c (suc m) n =
    let e : suc m + n ≡ suc (m + n) = omega arith in
    let shift : c + suc m ≡ c + 1 + m = omega arith in
    rw (e, shift) (ap (λ l. mem (slot a c) ∷ l) (window-append a mem (c + 1) m n))

-- A window holds a list of bytes if each slot holds its byte.
pub window_of_bytes :
    (a : Area) (mem : Memory) (c : ℕ) (bytes : List ℕ)
    → ((i : ℕ) → i < length bytes → mem (slot a (c + i)) ≡ get_or bytes i 0)
    → window a mem c (length bytes) ≡ bytes
unfolding window
window_of_bytes a mem c [] h = refl
window_of_bytes a mem c (b ∷ bytes) h =
    let first : mem (slot a c) ≡ b = rw add-zero at (h 0 (omega arith)) in
    rw (first, window_of_bytes a mem (c + 1) bytes rest)
  where
    rest : (i : ℕ) → i < length bytes → mem (slot a (c + 1 + i)) ≡ get_or bytes i 0
    rest i lt = let e : c + 1 + i ≡ c + suc i = omega arith in rw e (h (suc i) (omega arith))

-- Two memories that agree on the slots agree on the window.
pub window-congr :
    (a : Area) (m1 m2 : Memory) (c n : ℕ)
    → ((i : ℕ) → i < n → m1 (slot a (c + i)) ≡ m2 (slot a (c + i)))
    → window a m1 c n ≡ window a m2 c n
unfolding window
window-congr a m1 m2 c zero h = refl
window-congr a m1 m2 c (suc n) h =
    let first : m1 (slot a c) ≡ m2 (slot a c) = rw add-zero at (h 0 (omega arith)) in
    rw (first, window-congr a m1 m2 (c + 1) n rest)
  where
    rest : (i : ℕ) → i < n → m1 (slot a (c + 1 + i)) ≡ m2 (slot a (c + 1 + i))
    rest i lt = let e : c + 1 + i ≡ c + suc i = omega arith in rw e (h (suc i) (omega arith))

module _ {a : Area} (v : IsArea a) where
  -- A straight copy that stays in the round.
  copy_out-eq-window :
      (mem : Memory) (c n : ℕ)
      → c % a.ring_data_size + n ≤ a.ring_data_size
      → copy_out mem (slot a c) n ≡ window a mem c n
  unfolding copy_out window
  copy_out-eq-window mem c zero h = refl
  copy_out-eq-window mem c (suc zero) h = refl
  copy_out-eq-window mem c (suc (suc n)) h =
      let next : slot a c + 1 ≡ slot a (c + 1) =
        ground (arith, v.large, add-mod-cases a.ring_data_size c 1) in
      ap (λ l. mem (slot a c) ∷ l)
        (rw next (
          copy_out-eq-window mem (c + 1) (suc n)
            (ground (arith, v.large, add-mod-cases a.ring_data_size c 1))))

  -- The two-part copy of `read_ring` reads the area byte by byte, going round at its end.
  pub read_ring-eq-window :
      (mem : Memory) (c n : ℕ) → n ≤ a.ring_data_size → read_ring a c n mem ≡ window a mem c n
  unfolding read_ring
  read_ring-eq-window mem c n h = elim (dec_lt room n) [
    | yes wraps ↦
        let to_start : a.data_offset ≡ slot a (c + room) =
          ground (arith, v.large, add-mod-cases a.ring_data_size c room) in
        let whole : n ≡ room + (n - room) = omega arith in
        let second : copy_out mem a.data_offset (n - room) ≡ window a mem (c + room) (n - room) =
          ap (λ x. copy_out mem x (n - room)) to_start
          ∙ copy_out-eq-window mem (c + room) (n - room)
              (ground (arith, v.large, add-mod-cases a.ring_data_size c room)) in
        let joined : window a mem c n ≡ window a mem c room ++ window a mem (c + room) (n - room) =
          ap (λ k. window a mem c k) whole ∙ window-append a mem c room (n - room) in
        ground (arith, start-eq-mod v c, copy_out-eq-window mem c room, second, joined)
    | no straight ↦ ground (arith, start-eq-mod v c, copy_out-eq-window mem c n)
  ]
    where
      room : ℕ
      room = a.ring_data_size - c % a.ring_data_size

  module _ (c : ℕ) (bytes : List ℕ) (mem : Memory) where
    -- What was written at a cursor is read back at it.
    pub window-write_ring :
        length bytes ≤ a.ring_data_size
        → window a (write_ring a c bytes mem) c (length bytes) ≡ bytes
    window-write_ring fits =
        window_of_bytes a _ c bytes (λ i lt. write_ring-inside v c bytes mem i fits lt)

    -- A write leaves alone the bytes before it that it does not reach from behind.
    pub window-write_ring_before :
        (d n : ℕ)
        → d + n ≤ c
        → c + length bytes ≤ d + a.ring_data_size
        → window a (write_ring a c bytes mem) d n ≡ window a mem d n
    window-write_ring_before d n before room = window-congr a _ mem d n same
      where
        same : (i : ℕ) → i < n → write_ring a c bytes mem (slot a (d + i)) ≡ mem (slot a (d + i))
        same i lt =
            let e : c + (d + i + a.ring_data_size - c) ≡ d + i + a.ring_data_size = omega arith in
            let here : slot a (d + i) ≡ slot a (c + (d + i + a.ring_data_size - c)) =
              rw (e, add-mod_right (d + i) a.ring_data_size) refl in
            rw here (
              write_ring-keeps v c bytes mem (d + i + a.ring_data_size - c) (omega arith)
                (omega arith))

    -- What `write_ring` writes at a cursor, up to the size of the area, `read_ring` returns at that
    -- cursor. The write leaves alone what `read_ring` returns from any stretch before it that it
    -- does not reach from behind, and every byte outside the area.
    pub read_ring-write_ring :
        length bytes ≤ a.ring_data_size
        → (read_ring a c (length bytes) (write_ring a c bytes mem) ≡ bytes)
          × ((d n : ℕ)
              → d + n ≤ c
              → c + length bytes ≤ d + a.ring_data_size
              → read_ring a d n (write_ring a c bytes mem) ≡ read_ring a d n mem)
          × ((x : ℕ)
              → (x < a.data_offset) ⊎ (a.data_offset + a.ring_data_size ≤ x)
              → write_ring a c bytes mem x ≡ mem x)
    read_ring-write_ring fits = (
      read_ring-eq-window _ c (length bytes) fits ∙ window-write_ring fits,
      λ d n before room.
          read_ring-eq-window _ d n (omega arith)
          ∙ window-write_ring_before d n before room
          ∙ sym (read_ring-eq-window mem d n (omega arith)),
      λ x out. write_ring-outside v c bytes mem x fits out,
    )
