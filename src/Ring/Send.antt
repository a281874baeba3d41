-- ===== src/Ring/Send.antt =====
-- `try_send_once` and `publish_message` of src/ring.rs against the queue of messages.
use shmem_ipc.Base.{
  ℕ, ◌+◌, ◌-◌, ◌^◌, ◌≤◌, ◌<◌, ◌≡◌, refl, inl, inr, Bool, true, false, arith, length, Bool-cases,
}
use native.Mathlib.Decide.{dec_lt}
use shmem_ipc.Error.{Error, Result, ok, err}
use shmem_ipc.Ring.Area.{Area, IsArea}
use shmem_ipc.Ring.State.{RingShm, RingSender, RingReceiver, TrySendResult}
use shmem_ipc.Ring.Sender.{has_space, message_size, send_sized, try_send_once}
use shmem_ipc.Ring.Framed.{Payload, frame_size, Framed-end}
use shmem_ipc.Ring.Queue
use shmem_ipc.Ring.Queue.{Queue}
use shmem_ipc.Ring.Linked.{Linked, has_space_lem, refresh-Linked, publish_message-Linked}

-- A call's outcome is the specification's, and the new states hold the new queue.
pub record SendsAs (a : Area) (r : RingReceiver) (out : Result TrySendResult × RingSender × RingShm)
    (spec : Result TrySendResult × Queue) : Type 0 where
  pub result : out.0 ≡ spec.0
  pub linked : Linked a out.1 r out.2 spec.1

-- The test of the message's size.
pub try_send_once-large :
    (a : Area) (p : Payload) (s : RingSender) (m : RingShm)
    → a.ring_data_size < frame_size p
    → try_send_once a (ok true) p s m
      ≡ (err (Error.message_too_large (length p) (a.ring_data_size - 8)), s, m)
unfolding try_send_once
try_send_once-large a p s m large = ground arith

pub try_send_once-fits :
    (a : Area) (p : Payload) (s : RingSender) (m : RingShm)
    → frame_size p ≤ a.ring_data_size
    → try_send_once a (ok true) p s m ≡ send_sized a (frame_size p) p s m
unfolding message_size try_send_once
try_send_once-fits a p s m fits =
    let size : message_size a (length p) ≡ ok (frame_size p) = ground arith in
    rw (size, try_send_once)

module _ {a : Area} (v : IsArea a) {s : RingSender} {r : RingReceiver} {m : RingShm} {q : Queue}
    (l : Linked a s r m q) (p : Payload) where
  abbrev fresh : RingSender
  fresh = record s { cached_rc = m.header.reader.read_cursor }

  send_sized-refines :
      frame_size p ≤ a.ring_data_size
      → s.cached_wc + frame_size p < 2 ^ 64
      → SendsAs a r (send_sized a (frame_size p) p s m) (Queue.send a.ring_data_size p q)
  unfolding send_sized
  send_sized-refines fits fit64 = elim (Bool-cases (has_space a s s.cached_wc (frame_size p))) [
    | inl here ↦
        let free : frame_size p ≤ a.ring_data_size - (s.cached_wc - s.cached_rc) =
          ground (arith, has_space_lem v l (frame_size p)) in
        rw (here, Queue.send_sent a.ring_data_size p q (omega (arith, Framed-end l.queued)))
          (record {
            result = refl;
            linked =
                publish_message-Linked v l p
                  (record { fits = fits; free = omega arith; counted = fit64 });
          })
    | inr stale ↦
        let l' : Linked a fresh r m q = refresh-Linked v l in
        elim (Bool-cases (has_space a fresh s.cached_wc (frame_size p))) [
          | inl there ↦
              let free : frame_size p
                  ≤ a.ring_data_size - (s.cached_wc - m.header.reader.read_cursor) =
                ground (arith, has_space_lem v l' (frame_size p)) in
              rw
                (
                  stale,
                  there,
                  Queue.send_sent a.ring_data_size p q
                      (omega (arith, Framed-end l'.queued, l.freed)),
                )
                (record {
                  result = refl;
                  linked =
                      publish_message-Linked v l' p
                        (record { fits = fits; free = omega arith; counted = fit64 });
                })
          | inr none_left ↦
              let none_free : a.ring_data_size - (s.cached_wc - m.header.reader.read_cursor)
                  < frame_size p =
                ground (arith, has_space_lem v l' (frame_size p)) in
              rw
                (
                  stale,
                  none_left,
                  Queue.send_full a.ring_data_size p q fits
                      (omega (arith, Framed-end l'.queued, l.freed)),
                )
                (record { result = refl; linked = l' })
        ]
  ]

  -- Whatever `check_ready` returns, `try_send_once` fails, refuses, reports a full ring or sends
  -- exactly as the bounded queue does, and leaves the ring holding the queue that the
  -- specification leaves, if the write cursor stays below 2 ^ 64.
  pub try_send_once-refines :
      (check_ready : Result Bool)
      → s.cached_wc + frame_size p < 2 ^ 64
      → SendsAs a r
          (try_send_once a check_ready p s m)
          (Queue.send_when check_ready a.ring_data_size p q)
  unfolding try_send_once Queue.send_when
  try_send_once-refines (err e) fit64 = record { result = refl; linked = l }
  try_send_once-refines (ok false) fit64 = record { result = refl; linked = l }
  try_send_once-refines (ok true) fit64 = elim (dec_lt a.ring_data_size (frame_size p)) [
    | yes large ↦
        rw (try_send_once-large a p s m large, Queue.send_too_large a.ring_data_size p q large)
          (record { result = refl; linked = l })
    | no fits ↦
        rw (try_send_once-fits a p s m (omega arith)) (send_sized-refines (omega arith) fit64)
  ]

cached_wc-send_sized :
    (a : Area) (msg_len : ℕ) (p : Payload) (s : RingSender) (m : RingShm)
    → (send_sized a msg_len p s m).1.cached_wc ≤ s.cached_wc + frame_size p
unfolding send_sized
cached_wc-send_sized a msg_len p s m = ground arith

-- One call writes at most one frame.
pub cached_wc-try_send_once :
    (a : Area) (check_ready : Result Bool) (p : Payload) (s : RingSender) (m : RingShm)
    → (try_send_once a check_ready p s m).1.cached_wc ≤ s.cached_wc + frame_size p
unfolding message_size try_send_once
cached_wc-try_send_once a (err e) p s m = omega arith
cached_wc-try_send_once a (ok false) p s m = omega arith
cached_wc-try_send_once a (ok true) p s m =
    ground (arith, cached_wc-send_sized a (frame_size p) p s m)
