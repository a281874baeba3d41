-- ===== src/Connection/Apart.antt =====
-- A ring end of src/ring.rs changes no byte outside its area.
use shmem_ipc.Base.{ℕ, ◌+◌, ◌%◌, ◌≤◌, ◌<◌, ◌≡◌, refl, ◌∙◌, ◌⊎◌, Bool, true, false, arith}
use native.Mathlib.Nat.{mod-lt}
use shmem_ipc.Error.{Result, ok, err}
use shmem_ipc.Memory.{Memory}
use shmem_ipc.Ring.Area.{Area, IsArea, slot}
use shmem_ipc.Ring.Copy.{write_ring-outside}
use shmem_ipc.Ring.Window.{window-congr}
use shmem_ipc.Ring.Encoding.{to_le_bytes}
use shmem_ipc.Ring.State.{RingShm, RingSender}
use shmem_ipc.Ring.Sender.{
  write_message, store_write_cursor, notify_reader, publish_message, send_sized, try_send_once,
}
use shmem_ipc.Ring.Framed.{Payload, frame_size, Agree}
use shmem_ipc.Ring.Send.{try_send_once-large, try_send_once-fits}
use shmem_ipc.Channel.Rings.{Apart}
use native.Mathlib.Decide.{dec_lt}

-- The bytes outside an area are as they were.
abbrev pub Outside : Area → Memory → Memory → Type 0
Outside a mem mem' =
    (x : ℕ) → (x < a.data_offset) ⊎ (a.data_offset + a.ring_data_size ≤ x) → mem' x ≡ mem x

module _ {a : Area} (v : IsArea a) where
  write_message-Outside :
      (s : RingSender) (wc : ℕ) (p : Payload) (mem : Memory)
      → frame_size p ≤ a.ring_data_size
      → Outside a mem (write_message a s wc p mem)
  unfolding write_message to_le_bytes
  write_message-Outside s wc p mem fits x out =
      write_ring-outside v _ p _ x (omega (arith, v.large)) out
      ∙ write_ring-outside v _ _ _ x (omega (arith, v.large)) out
      ∙ write_ring-outside v _ _ mem x (omega (arith, v.large)) out

  send_sized-Outside :
      (p : Payload) (s : RingSender) (m : RingShm)
      → frame_size p ≤ a.ring_data_size
      → Outside a m.mem (send_sized a (frame_size p) p s m).2.mem
  unfolding send_sized publish_message store_write_cursor notify_reader
  send_sized-Outside p s m fits x out =
      let fresh : RingSender = record s { cached_rc = m.header.reader.read_cursor } in
      ground (
        arith,
        write_message-Outside s s.cached_wc p m.mem fits x out,
        write_message-Outside fresh s.cached_wc p m.mem fits x out,
      )

  -- One attempt to send, on every branch.
  pub try_send_once-Outside :
      (check_ready : Result Bool) (p : Payload) (s : RingSender) (m : RingShm)
      → Outside a m.mem (try_send_once a check_ready p s m).2.mem
  unfolding try_send_once
  try_send_once-Outside (err e) p s m x out = refl
  try_send_once-Outside (ok false) p s m x out = refl
  try_send_once-Outside (ok true) p s m x out = elim (dec_lt a.ring_data_size (frame_size p)) [
    | yes large ↦ rw (try_send_once-large a p s m large) refl
    | no fits ↦
        rw (try_send_once-fits a p s m (omega arith)) (send_sized-Outside p s m (omega arith) x out)
  ]

-- What is queued in one area stays when another is written.
pub Apart-Agree :
    (a b : Area) {mem mem' : Memory}
    → IsArea b
    → Apart a b
    → Outside a mem mem'
    → (from to : ℕ) → Agree b mem mem' from to
Apart-Agree a b {mem} {mem'} v apart same from to d n lo hi = window-congr b mem' mem d n at_slot
  where
    at_slot : (i : ℕ) → i < n → mem' (slot b (d + i)) ≡ mem (slot b (d + i))
    at_slot i lt =
        let below : (d + i) % b.ring_data_size < b.ring_data_size =
          mod-lt (d + i) (omega (arith, v.large)) in
        same (slot b (d + i)) (ground (arith, apart, below))
