-- ===== src/Ring/Steps/Sender.antt =====
-- Every access of the sender keeps the invariant.
use shmem_ipc.Base.{
  ℕ, ◌+◌, ◌-◌, ◌^◌, ◌≤◌, ◌<◌, ◌≡◌, ◌∙◌, true, inl, inr, List, [], ◌++◌, arith, length, Bool-cases,
}
use mathlib.Core.Path.{ap₂}
use mathlib.Core.List.{append-nil}
use native.Mathlib.Decide.{dec_lt}
use shmem_ipc.Base.Words.{add64, u32_of}
use shmem_ipc.Ring.Area.{Area, IsArea, window, write_ring}
use shmem_ipc.Ring.Window.{window-append, window-write_ring, window-write_ring_before}
use shmem_ipc.Ring.Encoding.{to_le_bytes}
use shmem_ipc.Ring.State.{RingSender, RingReceiver, RingShm}
use shmem_ipc.Ring.Sender.{has_space}
use shmem_ipc.Ring.Framed.{Payload, IsFrame, frame_size, Framed-end}
use shmem_ipc.Ring.Queue.{Queue}
use shmem_ipc.Ring.Linked.{
  Linked, HasRoom, has_space_lem, refresh-Linked, Agree-Linked, store_write_cursor-Linked,
  notify_reader-Linked,
}
use shmem_ipc.Ring.Steps.{
  SendPc, reload, put_len, put_seq, put_body, publish, sender_step, begin_send,
}
use shmem_ipc.Ring.Steps.Invariant.{SendInv}

pub record SenderKeeps (a : Area) (r : RingReceiver) (q : Queue)
    (out : SendPc × RingSender × RingShm × List Payload) : Type 0 where
  pub linked : Linked a out.1 r out.2 (q ++ out.3)
  pub at_send : SendInv a out.0 out.1 out.2.mem

-- A step that publishes nothing.
unpublished :
    {a : Area} {r : RingReceiver} {q : Queue} {pc : SendPc} {s : RingSender} {m : RingShm}
    → Linked a s r m q
    → SendInv a pc s m.mem
    → SenderKeeps a r q (pc, s, m, [])
unpublished {q} l h = record { linked = rw (append-nil q) l; at_send = h }

module _ {a : Area} (v : IsArea a) {s : RingSender} {r : RingReceiver} {m : RingShm} {q : Queue}
    (l : Linked a s r m q) (p : Payload) where
  -- The test for room is right, whichever read cursor the sender last saw.
  has_space-HasRoom :
      frame_size p ≤ a.ring_data_size
      → s.cached_wc + frame_size p < 2 ^ 64
      → has_space a s s.cached_wc (frame_size p) ≡ true
      → HasRoom a s p
  has_space-HasRoom fits fit64 e =
      let free : frame_size p ≤ a.ring_data_size - (s.cached_wc - s.cached_rc) =
        ground (arith, has_space_lem v l (frame_size p)) in
      record {
        fits = fits;
        free = omega (arith, Framed-end l.queued, l.behind, l.room);
        counted = fit64;
      }

module _ {a : Area} (v : IsArea a) {s : RingSender} {r : RingReceiver} {m : RingShm} {q : Queue}
    (l : Linked a s r m q) (p : Payload) where
  pub begin_send-SendInv :
      s.cached_wc + frame_size p < 2 ^ 64 → SendInv a (begin_send a p s) s m.mem
  unfolding begin_send
  begin_send-SendInv fit64 = elim (dec_lt a.ring_data_size (frame_size p)) [
    | yes large ↦ ground arith
    | no fits ↦ elim (Bool-cases (has_space a s s.cached_wc (frame_size p))) [
      | inl room ↦ ground (arith, has_space-HasRoom v l p (omega arith) fit64 room)
      | inr tight ↦ ground arith
    ]
  ]

  module _ (h : HasRoom a s p) where
    -- Bytes written in the message's frame are not yet the reader's.
    frame-Linked :
        (c : ℕ) (bytes : List ℕ)
        → s.cached_wc ≤ c
        → c + length bytes ≤ s.cached_wc + frame_size p
        → Linked a s r (record m { mem = write_ring a c bytes m.mem }) q
    frame-Linked c bytes from to = Agree-Linked v l _ (λ d n lo hi.
        window-write_ring_before v c bytes m.mem d n (omega arith)
          (omega (arith, l.behind, h.free)))

    four : add64 s.cached_wc 4 ≡ s.cached_wc + 4
    four = omega (arith, h.counted)

    eight : add64 s.cached_wc 8 ≡ s.cached_wc + 8
    eight = omega (arith, h.counted)

    put_len-keeps : SenderKeeps a r q (sender_step a (put_len p) s m)
    unfolding sender_step to_le_bytes
    put_len-keeps =
        let len : u32_of (length p) ≡ length p = omega (arith, h.fits, v.small) in
        rw len (
          unpublished
            (frame-Linked s.cached_wc (to_le_bytes (length p)) (omega arith) (omega arith))
            (
              h,
              window-write_ring v s.cached_wc (to_le_bytes (length p)) m.mem
                  (omega (arith, v.large)),
            ))

    put_seq-keeps :
        window a m.mem s.cached_wc 4 ≡ to_le_bytes (length p)
        → SenderKeeps a r q (sender_step a (put_seq p) s m)
    unfolding sender_step to_le_bytes
    put_seq-keeps len =
        let bytes = to_le_bytes s.next_seq in
        let mem = write_ring a (s.cached_wc + 4) bytes m.mem in
        rw four (
          unpublished (frame-Linked (s.cached_wc + 4) bytes (omega arith) (omega arith)) (
            h,
            window-append a mem s.cached_wc 4 4
                ∙ ap₂ ◌++◌
                    (window-write_ring_before v (s.cached_wc + 4) bytes m.mem s.cached_wc 4
                        (omega arith) (omega (arith, v.large))
                      ∙ len)
                    (window-write_ring v (s.cached_wc + 4) bytes m.mem (omega (arith, v.large))),
          ))

    put_body-keeps :
        window a m.mem s.cached_wc 8 ≡ to_le_bytes (length p) ++ to_le_bytes s.next_seq
        → SenderKeeps a r q (sender_step a (put_body p) s m)
    unfolding sender_step
    put_body-keeps head = rw eight (
        unpublished (frame-Linked (s.cached_wc + 8) p (omega arith) (omega arith)) (
          h,
          record {
            head =
                window-write_ring_before v (s.cached_wc + 8) p m.mem s.cached_wc 8 (omega arith)
                  (omega (arith, h.fits))
                ∙ head;
            body = window-write_ring v (s.cached_wc + 8) p m.mem (omega (arith, h.fits));
            fits = h.fits;
            word = l.word;
          },
        ))

    publish-keeps :
        IsFrame a m.mem s.cached_wc s.next_seq p → SenderKeeps a r q (sender_step a (publish p) s m)
    unfolding sender_step
    publish-keeps f = record { linked = store_write_cursor-Linked v l p h f; at_send = tt }

  reload-keeps :
      frame_size p ≤ a.ring_data_size
      → s.cached_wc + frame_size p < 2 ^ 64
      → SenderKeeps a r q (sender_step a (reload p) s m)
  unfolding sender_step
  reload-keeps fits fit64 =
      let l' : Linked a fresh r m q = refresh-Linked v l in
      elim (Bool-cases (has_space a fresh s.cached_wc (frame_size p))) [
        | inl room ↦ rw room (unpublished l' (has_space-HasRoom v l' p fits fit64 room))
        | inr tight ↦ rw tight (unpublished l' tt)
      ]
    where
      fresh : RingSender
      fresh = record s { cached_rc = m.header.reader.read_cursor }

-- Whatever the sender does next, the queue grows by what it publishes, and by nothing else.
pub sender_step-keeps :
    {a : Area} {s : RingSender} {r : RingReceiver} {m : RingShm} {q : Queue} (pc : SendPc)
    → IsArea a
    → Linked a s r m q
    → SendInv a pc s m.mem
    → SenderKeeps a r q (sender_step a pc s m)
unfolding sender_step
sender_step-keeps SendPc.idle v l h = unpublished l tt
sender_step-keeps (reload p) v l h = reload-keeps v l p h.0 h.1
sender_step-keeps (put_len p) v l h = put_len-keeps v l p h
sender_step-keeps (put_seq p) v l h = put_seq-keeps v l p h.0 h.1
sender_step-keeps (put_body p) v l h = put_body-keeps v l p h.0 h.1
sender_step-keeps (publish p) v l h = publish-keeps v l p h.0 h.1
sender_step-keeps SendPc.notify v l h = unpublished (notify_reader-Linked l) tt
