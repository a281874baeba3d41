-- ===== src/Ring/Recv.antt =====
-- `try_peek_message`, `copy_current_message`, `commit_current_message` and `try_recv` of
-- src/ring.rs against the queue of messages.
use shmem_ipc.Base.{
  ℕ, ◌+◌, ◌^◌, ◌≤◌, ◌<◌, ◌≡◌, ◌∙◌, List, [], ◌∷◌, ◌++◌, arith, length, ltb, drop, take, drop_all,
  length-take, if◌then◌else◌,
}
use mathlib.Core.Path.{subst, ap₂}
use mathlib.Core.List.{append-nil}
use shmem_ipc.Base.Words.{add32, add64, sub64}
use shmem_ipc.Error.{Error, ok, err}
use shmem_ipc.Memory.{Memory}
use shmem_ipc.Ring.Area.{Area, IsArea, read_ring}
use shmem_ipc.Ring.Window.{read_ring-eq-window}
use shmem_ipc.Ring.Encoding.{to_le_bytes, from_le_bytes}
use shmem_ipc.Ring.State.{RingShm, RingReceiver, PeekedMessage, empty, ready}
use shmem_ipc.Ring.Receiver.{
  notify_writer, take_message_into, length-zeroed, read_msg_header, peek_below, try_peek_message,
  copy_current_message, commit_current_message, zeroed, take_message, validate_seq,
}
use shmem_ipc.Ring.Framed.{
  Payload, IsFrame, Framed, Framed-nil, Framed-cons, frame_size, Framed-end,
}
use shmem_ipc.Ring.Queue.{Queue}

-- The receiver's half of the invariant: what it reads of shared memory.
pub record Unread (a : Area) (r : RingReceiver) (m : RingShm) (next : ℕ) (q : Queue) : Type 0 where
  pub queued : Framed a m.mem m.header.writer.write_cursor next r.cached_rc r.expected_seq q
  pub room : m.header.writer.write_cursor ≤ r.cached_rc + a.ring_data_size
  pub no_wrap : m.header.writer.write_cursor < 2 ^ 64

abbrev pub peeked : RingReceiver → Payload → PeekedMessage
peeked r p = record { read_cursor = r.cached_rc; payload_len = length p; seq = r.expected_seq }

-- The two sides after the commit of a message that was due.
abbrev pub committed : RingReceiver → Payload → RingReceiver
committed r p = record {
  expected_seq = add32 r.expected_seq 1;
  cached_rc = add64 r.cached_rc (frame_size p);
}

abbrev pub released : RingReceiver → Payload → RingShm → RingShm
released r p m = notify_writer (record m {
  header = record (m.header) {
    reader = record (m.header.reader) { read_cursor = add64 r.cached_rc (frame_size p) };
  };
})

pub validate_seq-due :
    (r : RingReceiver)
    → validate_seq r.expected_seq r ≡ (ok tt, record r { expected_seq = add32 r.expected_seq 1 })
unfolding validate_seq
validate_seq-due r = ground arith

commit_current_message-due :
    (r : RingReceiver) (p : Payload) (m : RingShm)
    → commit_current_message (peeked r p) r m ≡ (ok tt, committed r p, released r p m)
unfolding commit_current_message
commit_current_message-due r p m = rw (validate_seq-due r)

module _ {a : Area} (v : IsArea a) where
  -- A frame's header reads back as the length and the sequence number.
  pub read_msg_header_lem :
      {mem : Memory} {c seq : ℕ} {p : Payload}
      → IsFrame a mem c seq p
      → read_msg_header a c mem ≡ (length p, seq)
  unfolding read_msg_header to_le_bytes from_le_bytes
  read_msg_header_lem {mem} {c} {seq} {p} f =
      let bytes : read_ring a c 8 mem ≡ to_le_bytes (length p) ++ to_le_bytes seq =
        read_ring-eq-window v mem c 8 (omega (arith, v.large)) ∙ f.head in
      rw bytes (ap₂ (λ n k. (n, k)) (omega (arith, f.fits, v.small)) (omega (arith, f.word)))

  pub peek_below-empty :
      (wc : ℕ) (r : RingReceiver) (mem : Memory)
      → sub64 wc r.cached_rc ≡ 0
      → peek_below a wc r mem ≡ ok empty
  unfolding peek_below
  peek_below-empty wc r mem caught_up = rw caught_up

  pub peek_below-ready :
      (wc : ℕ) {r : RingReceiver} {mem : Memory} {p : Payload}
      → IsFrame a mem r.cached_rc r.expected_seq p
      → frame_size p ≤ sub64 wc r.cached_rc
      → peek_below a wc r mem ≡ ok (ready (peeked r p))
  unfolding peek_below
  peek_below-ready wc {p} f enough = rw (read_msg_header_lem f) (ground (arith, f.fits))

  module _ {r : RingReceiver} {m : RingShm} {next : ℕ} where
    pub try_peek_message-empty : Unread a r m next [] → try_peek_message a r m ≡ ok empty
    unfolding try_peek_message
    try_peek_message-empty u =
        peek_below-empty m.header.writer.write_cursor r m.mem
          (omega (arith, Framed-nil u.queued, u.no_wrap))

    pub try_peek_message-ready :
        {p : Payload} {q : Queue}
        → Unread a r m next (p ∷ q)
        → try_peek_message a r m ≡ ok (ready (peeked r p))
    unfolding try_peek_message
    try_peek_message-ready {p} {q} u =
        let (f, rest) = Framed-cons u.queued in
        peek_below-ready m.header.writer.write_cursor f
          (omega (arith, Framed-end rest, v.small, u.room, u.no_wrap))

  module _ {r : RingReceiver} {m : RingShm} {next : ℕ} {p : Payload} {q : Queue}
      (u : Unread a r m next (p ∷ q)) where
    -- The copy fills a buffer that is long enough with the payload, and keeps the rest of it.
    pub copy_current_message_lem :
        (buf : List ℕ)
        → length p ≤ length buf
        → copy_current_message a (peeked r p) buf m ≡ (ok (length p), p ++ drop (length p) buf)
    unfolding copy_current_message
    copy_current_message_lem buf enough =
        let (f, rest) = Framed-cons u.queued in
        let after : add64 r.cached_rc 8 ≡ r.cached_rc + 8 =
          omega (arith, Framed-end rest, u.no_wrap) in
        let body : read_ring a (r.cached_rc + 8) (length p) m.mem ≡ p =
          read_ring-eq-window v m.mem (r.cached_rc + 8) (length p) (omega (arith, f.fits))
          ∙ f.body in
        rw (after, body) (ground arith)

    -- The commit hands the frame's bytes back: the rest of the queue is left.
    pub commit_current_message-Unread :
        commit_current_message (peeked r p) r m ≡ (ok tt, committed r p, released r p m)
        × Unread a (committed r p) (released r p m) next q
    unfolding notify_writer
    commit_current_message-Unread =
        let (f, rest) = Framed-cons u.queued in
        let after : r.cached_rc + frame_size p ≡ add64 r.cached_rc (frame_size p) =
          omega (arith, Framed-end rest, u.no_wrap) in
        (
          commit_current_message-due r p m,
          record {
            queued =
                subst
                  (λ c.
                    Framed a m.mem m.header.writer.write_cursor next c (add32 r.expected_seq 1) q)
                  after rest;
            room = omega (arith, u.room, Framed-end rest);
            no_wrap = u.no_wrap;
          },
        )

    pub take_message_lem : take_message a (peeked r p) r m ≡ (ok p, committed r p, released r p m)
    unfolding take_message
    take_message_lem = ground (
      arith,
      length-zeroed (length p),
      copy_current_message_lem (zeroed (length p)),
      commit_current_message-due r p m,
      drop_all (length p) (zeroed (length p)),
      append-nil p,
    )

    -- `recv_into` on a queued message: if the caller's buffer is too short, it keeps the buffer,
    -- reports both sizes, and commits, and so drops, the message; otherwise it puts the payload at
    -- the front of the buffer, keeps the rest of it, commits, and returns the payload's length.
    pub take_message_into_lem :
        (buf : List ℕ)
        → take_message_into a (peeked r p) buf r m ≡ (
            if ltb (length buf) (length p)
            then (
              buf,
              (
                err (Error.message_too_large (length p) (length buf)),
                committed r p,
                released r p m,
              ),
            )
            else (p ++ drop (length p) buf, (ok (length p), committed r p, released r p m)))
    unfolding take_message_into
    take_message_into_lem buf = ground (
      arith,
      length-take (length p) buf,
      drop_all (length p) (take (length p) buf),
      copy_current_message_lem (take (length p) buf),
      commit_current_message-due r p m,
      append-nil p,
    )
