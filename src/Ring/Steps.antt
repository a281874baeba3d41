-- ===== src/Ring/Steps.antt =====
-- The two processes of one ring, a memory access at a time, for src/ring.rs's `try_send_once`
-- and `try_recv` on a channel that stays connected. Accesses are sequentially consistent.
pub mod Invariant
pub mod Sender
pub mod Receiver
pub mod Fifo
pub mod Alone
use shmem_ipc.Base.{
  ℕ, ◌+◌, ◌^◌, ◌≤◌, ◌<◌, ◌≡◌, Bool, List, [], ◌∷◌, ◌++◌, length, ltb, ◌||◌, if◌then◌else◌,
}
use shmem_ipc.Base.Words.{add64, u32_of}
use shmem_ipc.Error.{Error, Result, ok, err}
use shmem_ipc.Header.{RingHeader}
use shmem_ipc.Memory.{Memory}
use shmem_ipc.Ring.Area.{Area, write_ring, read_ring}
use shmem_ipc.Ring.Encoding.{to_le_bytes}
use shmem_ipc.Ring.State.{
  RingShm, RingSender, RingReceiver, PeekedMessage, TryPeekResult, empty, ready, new_sender,
  new_receiver, msg_header_size,
}
use shmem_ipc.Ring.Sender.{has_space, store_write_cursor, notify_reader}
use shmem_ipc.Ring.Receiver.{peek_below, validate_seq, store_read_cursor, notify_writer}
use shmem_ipc.Ring.Framed.{Payload, frame_size}

-- Where the sender stands.
pub data SendPc : Type 0 where
  idle : SendPc
  reload : Payload → SendPc  -- before the load of `read_cursor`
  put_len put_seq put_body : Payload → SendPc  -- before a `write_ring` of `publish_message`
  publish : Payload → SendPc  -- before the store of `write_cursor`
  notify : SendPc

-- Where the receiver stands.
pub data RecvPc : Type 0 where
  idle : RecvPc
  loaded : (wc : ℕ) → RecvPc  -- before the header is read
  peeked : PeekedMessage → RecvPc  -- before the payload is copied
  copied : PeekedMessage → List ℕ → RecvPc  -- before the commit
  notify : RecvPc
  failed : Error → RecvPc

pub record System : Type 0 where
  pub sender : RingSender
  pub send_pc : SendPc
  pub receiver : RingReceiver
  pub recv_pc : RecvPc
  pub shm : RingShm
  -- What has been published and what has been delivered so far.
  pub sent : List Payload
  pub delivered : List Payload

module _ (a : Area) where
  -- `try_send_once` up to its first access of shared memory.
  unfoldable pub begin_send : Payload → RingSender → SendPc
  begin_send p s =
      if ltb a.ring_data_size (frame_size p)
      then SendPc.idle
      else if has_space a s s.cached_wc (frame_size p)
      then put_len p
      else reload p

  -- The sender's next access, with the message that it publishes.
  unfoldable pub sender_step :
      SendPc → RingSender → RingShm → SendPc × RingSender × RingShm × List Payload
  sender_step SendPc.idle s m = (SendPc.idle, s, m, [])
  sender_step (reload p) s m =
      let s' = record s { cached_rc = m.header.reader.read_cursor } in
      (if has_space a s' s.cached_wc (frame_size p) then put_len p else SendPc.idle, s', m, [])
  sender_step (put_len p) s m =
      let bytes = to_le_bytes (u32_of (length p)) in
      (put_seq p, s, record m { mem = write_ring a s.cached_wc bytes m.mem }, [])
  sender_step (put_seq p) s m =
      let bytes = to_le_bytes s.next_seq in
      (put_body p, s, record m { mem = write_ring a (add64 s.cached_wc 4) bytes m.mem }, [])
  sender_step (put_body p) s m = (
    publish p,
    s,
    record m { mem = write_ring a (add64 s.cached_wc msg_header_size) p m.mem },
    [],
  )
  sender_step (publish p) s m =
      let (s', m') = store_write_cursor s s.cached_wc p m in (SendPc.notify, s', m', p ∷ [])
  sender_step SendPc.notify s m = (SendPc.idle, s, notify_reader m, [])

  after_peek : Result TryPeekResult → RecvPc
  after_peek (ok empty) = RecvPc.idle
  after_peek (ok (ready message)) = peeked message
  after_peek (err e) = failed e

  after_check :
      PeekedMessage
      → List ℕ
      → RingShm
      → Result (Unit {0}) × RingReceiver
      → RecvPc × RingReceiver × RingShm × List Payload
  after_check message buf m (err e, r) = (failed e, r, m, [])
  after_check message buf m (ok _, r) =
      let new_rc = add64 message.read_cursor (msg_header_size + message.payload_len) in
      let (r', m') = store_read_cursor new_rc r m in (RecvPc.notify, r', m', buf ∷ [])

  -- The receiver's next access, with the message that it delivers.
  unfoldable pub receiver_step :
      RecvPc → RingReceiver → RingShm → RecvPc × RingReceiver × RingShm × List Payload
  unfolding after_peek after_check
  receiver_step RecvPc.idle r m = (loaded m.header.writer.write_cursor, r, m, [])
  receiver_step (loaded wc) r m = (after_peek (peek_below a wc r m.mem), r, m, [])
  receiver_step (peeked message) r m =
      let buf = read_ring a (add64 message.read_cursor msg_header_size) message.payload_len m.mem in
      (copied message buf, r, m, [])
  receiver_step (copied message buf) r m = after_check message buf m (validate_seq message.seq r)
  receiver_step RecvPc.notify r m = (RecvPc.idle, r, notify_writer m, [])
  receiver_step (failed e) r m = (failed e, r, m, [])

-- A call of `try_send_once`, one access of the sender, one access of the receiver.
unfoldable pub call : Area → Payload → System → System
call a p x = record x { send_pc = begin_send a p x.sender }

unfoldable pub sends : Area → System → System
sends a x =
    let (pc, s, m, out) = sender_step a x.send_pc x.sender x.shm in
    record x { sender = s; send_pc = pc; shm = m; sent = x.sent ++ out }

unfoldable pub receives : Area → System → System
receives a x =
    let (pc, r, m, out) = receiver_step a x.recv_pc x.receiver x.shm in
    record x { receiver = r; recv_pc = pc; shm = m; delivered = x.delivered ++ out }

-- The cursors are 0, as `Channel::create_with_config` leaves them.
abbrev pub fresh_header : RingHeader
fresh_header = record {
  writer = record { write_cursor = 0; notify = 0; parked = 0 };
  reader = record { read_cursor = 0; notify = 0; parked = 0 };
}

abbrev pub start : Memory → System
start mem = record {
  sender = new_sender;
  send_pc = SendPc.idle;
  receiver = new_receiver;
  recv_pc = RecvPc.idle;
  shm = record { mem = mem; header = fresh_header; writer_wakes = 0; reader_wakes = 0 };
  sent = [];
  delivered = [];
}

-- Every interleaving of the two processes. A call is made by an idle sender, before 2 ^ 64 bytes
-- have been written.
pub data Reach (a : Area) : System → Type 0 where
  started : (mem : Memory) → Reach a (start mem)
  called :
      {x : System} (p : Payload)
      → Reach a x
      → x.send_pc ≡ SendPc.idle
      → x.sender.cached_wc + frame_size p < 2 ^ 64
      → Reach a (call a p x)
  sent : {x : System} → Reach a x → Reach a (sends a x)
  received : {x : System} → Reach a x → Reach a (receives a x)
