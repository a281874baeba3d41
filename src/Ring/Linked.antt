-- ===== src/Ring/Linked.antt =====
-- The invariant of one ring: sender, receiver and shared memory agree on the queued messages.
use shmem_ipc.Base.{ℕ, ◌+◌, ◌-◌, ◌^◌, ◌≤◌, ◌<◌, ◌≡◌, refl, List, [], ◌∷◌, ◌++◌, arith, leb}
use mathlib.Core.Path.{subst}
use shmem_ipc.Base.Words.{add32, add64, sub64}
use shmem_ipc.Memory.{Memory}
use shmem_ipc.Ring.Area.{Area, IsArea}
use shmem_ipc.Ring.State.{RingShm, RingSender, RingReceiver}
use shmem_ipc.Ring.Sender.{
  has_space, store_write_cursor, write_message, notify_reader, publish_message,
}
use shmem_ipc.Ring.Receiver.{store_read_cursor, notify_writer}
use shmem_ipc.Ring.Framed.{
  Payload, frame_size, IsFrame, Framed, Agree, Framed-end, Framed-cons, Framed-Agree, Framed-snoc,
  write_message-IsFrame, write_message-Agree,
}

-- The cursors count bytes since the start. `no_wrap` holds for the first 2 ^ 64 bytes.
pub record Linked (a : Area) (s : RingSender) (r : RingReceiver) (m : RingShm) (q : List Payload)
    : Type 0 where
  pub queued : Framed a m.mem s.cached_wc s.next_seq r.cached_rc r.expected_seq q
  pub wrote : m.header.writer.write_cursor ≡ s.cached_wc
  pub freed : m.header.reader.read_cursor ≡ r.cached_rc
  pub behind : s.cached_rc ≤ r.cached_rc
  pub room : s.cached_wc ≤ s.cached_rc + a.ring_data_size
  pub no_wrap : s.cached_wc < 2 ^ 64
  pub word : s.next_seq < 2 ^ 32

-- There is room for the message, and its bytes can still be counted.
pub record HasRoom (a : Area) (s : RingSender) (p : Payload) : Type 0 where
  pub fits : frame_size p ≤ a.ring_data_size
  pub free : s.cached_wc + frame_size p ≤ s.cached_rc + a.ring_data_size
  pub counted : s.cached_wc + frame_size p < 2 ^ 64

module _ {a : Area} (v : IsArea a) {s : RingSender} {r : RingReceiver} {m : RingShm}
    {q : List Payload} (l : Linked a s r m q) where
  -- The free space is computed without underflow.
  pub has_space_lem :
      (msg_len : ℕ)
      → has_space a s s.cached_wc msg_len
        ≡ leb msg_len (a.ring_data_size - (s.cached_wc - s.cached_rc))
  unfolding has_space
  has_space_lem msg_len =
      let used : sub64 s.cached_wc s.cached_rc ≡ s.cached_wc - s.cached_rc =
        omega (arith, Framed-end l.queued) in
      let free : sub64 a.ring_data_size (s.cached_wc - s.cached_rc)
          ≡ a.ring_data_size - (s.cached_wc - s.cached_rc) =
        omega (arith, v.small) in
      rw (used, free)

  -- Reloading the read cursor keeps the invariant.
  pub refresh-Linked : Linked a (record s { cached_rc = m.header.reader.read_cursor }) r m q
  refresh-Linked = record {
    queued = l.queued;
    wrote = l.wrote;
    freed = l.freed;
    behind = omega (arith, l.freed);
    room = omega (arith, l.freed, l.behind, l.room);
    no_wrap = l.no_wrap;
    word = l.word;
  }

  -- The invariant asks of the memory only the bytes between the cursors.
  pub Agree-Linked :
      (mem : Memory)
      → Agree a m.mem mem r.cached_rc s.cached_wc
      → Linked a s r (record m { mem = mem }) q
  Agree-Linked mem same = record {
    queued = Framed-Agree same l.queued;
    wrote = l.wrote;
    freed = l.freed;
    behind = l.behind;
    room = l.room;
    no_wrap = l.no_wrap;
    word = l.word;
  }

  -- The store to the write cursor appends the message whose frame lies there.
  pub store_write_cursor-Linked :
      (p : Payload)
      → HasRoom a s p
      → IsFrame a m.mem s.cached_wc s.next_seq p
      → let (s', m') = store_write_cursor s s.cached_wc p m in Linked a s' r m' (q ++ (p ∷ []))
  unfolding store_write_cursor
  store_write_cursor-Linked p h f =
      let new : s.cached_wc + frame_size p ≡ add64 s.cached_wc (frame_size p) =
        omega (arith, h.counted) in
      record {
        queued =
            subst
              (λ c.
                Framed a m.mem c (add32 s.next_seq 1) r.cached_rc r.expected_seq (q ++ (p ∷ [])))
              new (Framed-snoc l.queued f);
        wrote = refl;
        freed = l.freed;
        behind = l.behind;
        room = omega (arith, h.free);
        no_wrap = omega arith;
        word = omega arith;
      }

-- The words `notify` and the wake-ups are no part of the invariant.
pub notify_reader-Linked :
    {a : Area} {s : RingSender} {r : RingReceiver} {m : RingShm} {q : List Payload}
    → Linked a s r m q
    → Linked a s r (notify_reader m) q
unfolding notify_reader
notify_reader-Linked l = record {
  queued = l.queued;
  wrote = l.wrote;
  freed = l.freed;
  behind = l.behind;
  room = l.room;
  no_wrap = l.no_wrap;
  word = l.word;
}

pub notify_writer-Linked :
    {a : Area} {s : RingSender} {r : RingReceiver} {m : RingShm} {q : List Payload}
    → Linked a s r m q
    → Linked a s r (notify_writer m) q
unfolding notify_writer
notify_writer-Linked l = record {
  queued = l.queued;
  wrote = l.wrote;
  freed = l.freed;
  behind = l.behind;
  room = l.room;
  no_wrap = l.no_wrap;
  word = l.word;
}

-- The store to the read cursor, after the check of the sequence number, takes the oldest message
-- from the queue.
pub store_read_cursor-Linked :
    {a : Area} {s : RingSender} {r : RingReceiver} {m : RingShm} {p : Payload} {q : List Payload}
    → IsArea a
    → Linked a s r m (p ∷ q)
    → let (r', m') =
        store_read_cursor
          (add64 r.cached_rc (frame_size p))
          (record r { expected_seq = add32 r.expected_seq 1 })
          m in
      Linked a s r' m' q
unfolding store_read_cursor
store_read_cursor-Linked {a} {s} {r} {m} {p} {q} v l =
    let (f, rest) = Framed-cons l.queued in
    let after : r.cached_rc + frame_size p ≡ add64 r.cached_rc (frame_size p) =
      omega (arith, Framed-end rest, l.no_wrap) in
    record {
      queued =
          subst (λ c. Framed a m.mem s.cached_wc s.next_seq c (add32 r.expected_seq 1) q) after
            rest;
      wrote = l.wrote;
      freed = refl;
      behind = omega (arith, l.behind, Framed-end rest);
      room = l.room;
      no_wrap = l.no_wrap;
      word = l.word;
    }

module _ {a : Area} (v : IsArea a) {s : RingSender} {r : RingReceiver} {m : RingShm}
    {q : List Payload} (l : Linked a s r m q) where
  -- Publishing a message for which there is room appends it to the queue.
  pub publish_message-Linked :
      (p : Payload)
      → HasRoom a s p
      → let (s', m') = publish_message a s s.cached_wc p m in Linked a s' r m' (q ++ (p ∷ []))
  unfolding publish_message
  publish_message-Linked p h =
      let same : Agree a m.mem (write_message a s s.cached_wc p m.mem) r.cached_rc s.cached_wc =
        write_message-Agree v s s.cached_wc p m.mem h.fits h.counted r.cached_rc
          (omega (arith, l.behind, h.free)) in
      notify_reader-Linked (
        store_write_cursor-Linked v (Agree-Linked v l _ same) p h
          (write_message-IsFrame v s s.cached_wc p m.mem h.fits h.counted l.word))
