-- ===== src/Ring/Sender.antt =====
-- RingSender of src/ring.rs, one attempt to send. The first argument of `try_send_once` is what
-- `self.shared.check_ready()` returns (Shared.antt).
use shmem_ipc.Base.{ℕ, ◌+◌, ◌-◌, Bool, true, false, List, ltb, leb, ◌==◌, if◌then◌else◌, length}
use shmem_ipc.Base.Words.{add32, add64, sub64, u32_of}
use shmem_ipc.Error.{Error, Result, ok, err}
use shmem_ipc.Memory.{Memory}
use shmem_ipc.Ring.Area.{Area, write_ring}
use shmem_ipc.Ring.Encoding.{to_le_bytes}
use shmem_ipc.Ring.State.{RingShm, RingSender, TrySendResult, sent, full, msg_header_size}

module _ (a : Area) where
  -- A slice is shorter than 2 ^ 63, so the sum does not wrap.
  unfoldable pub message_size : ℕ → Result ℕ
  message_size payload_len =
      let msg_len = msg_header_size + payload_len in
      if ltb a.ring_data_size msg_len
      then err (Error.message_too_large payload_len (a.ring_data_size - msg_header_size))
      else ok msg_len

  unfoldable pub has_space : RingSender → ℕ → ℕ → Bool
  has_space s wc msg_len =
      let free = sub64 a.ring_data_size (sub64 wc s.cached_rc) in leb msg_len free

  -- The three `write_ring` calls of `publish_message`.
  unfoldable pub write_message : RingSender → ℕ → List ℕ → Memory → Memory
  write_message s wc payload mem =
      let len_bytes = to_le_bytes (u32_of (length payload)) in
      let seq_bytes = to_le_bytes s.next_seq in
      write_ring a (add64 wc msg_header_size) payload
        (write_ring a (add64 wc 4) seq_bytes (write_ring a wc len_bytes mem))

-- The store to `write_cursor`, and the sender's own fields.
unfoldable pub store_write_cursor : RingSender → ℕ → List ℕ → RingShm → RingSender × RingShm
store_write_cursor s wc payload m =
    let new_wc = add64 wc (msg_header_size + length payload) in
    (
      record s { cached_wc = new_wc; next_seq = add32 s.next_seq 1 },
      record m {
        header = record (m.header) { writer = record (m.header.writer) { write_cursor = new_wc } };
      },
    )

-- `notify.fetch_add(1)`, then `wake_handle` if the reader is parked.
unfoldable pub notify_reader : RingShm → RingShm
notify_reader m = record m {
  header = record (m.header) {
    writer = record (m.header.writer) { notify = add32 m.header.writer.notify 1 };
  };
  writer_wakes = if m.header.writer.parked == 0 then m.writer_wakes else m.writer_wakes + 1;
}

abbrev published : RingSender × RingShm → Result TrySendResult × RingSender × RingShm
published (s, m) = (ok sent, s, m)

module _ (a : Area) where
  unfoldable pub publish_message : RingSender → ℕ → List ℕ → RingShm → RingSender × RingShm
  unfolding write_message store_write_cursor notify_reader
  publish_message s wc payload m =
      let written = record m { mem = write_message a s wc payload m.mem } in
      let (s', stored) = store_write_cursor s wc payload written in (s', notify_reader stored)

  -- What follows the test of the message's size.
  unfoldable pub send_sized :
      ℕ → List ℕ → RingSender → RingShm → Result TrySendResult × RingSender × RingShm
  unfolding has_space publish_message
  send_sized msg_len payload s m =
      let wc = s.cached_wc in
      let fresh = record s { cached_rc = m.header.reader.read_cursor } in
      if has_space a s wc msg_len
      then published (publish_message s wc payload m)
      else if has_space a fresh wc msg_len
      then published (publish_message fresh wc payload m)
      else (ok full, fresh, m)

  unfoldable pub try_send_once :
      Result Bool → List ℕ → RingSender → RingShm → Result TrySendResult × RingSender × RingShm
  unfolding message_size send_sized
  try_send_once (err e) payload s m = (err e, s, m)
  try_send_once (ok false) payload s m = (ok full, s, m)
  try_send_once (ok true) payload s m = elim (message_size a (length payload)) [
    | err e ↦ (err e, s, m)
    | ok msg_len ↦ send_sized msg_len payload s m
  ]
