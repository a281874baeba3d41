-- ===== src/Ring/Steps/Alone.antt =====
-- The sender's accesses, made one after another with no step of the receiver between, are the
-- call of src/ring.rs's `try_send_once`.
use shmem_ipc.Base.{
  ℕ, zero, suc, ◌+◌, ◌^◌, ◌≤◌, ◌<◌, ◌≡◌, refl, true, inl, inr, arith, Bool-cases, if◌then◌else◌,
}
use native.Mathlib.Decide.{dec_lt}
use shmem_ipc.Error.{ok}
use mathlib.Core.Path.{subst⁻¹}
use shmem_ipc.Ring.Area.{Area, IsArea}
use shmem_ipc.Ring.Linked.{Linked}
use shmem_ipc.Ring.Queue
use shmem_ipc.Ring.Queue.{Queue}
use shmem_ipc.Ring.State.{RingSender, RingReceiver, RingShm}
use shmem_ipc.Ring.Sender.{has_space, write_message, publish_message, send_sized, try_send_once}
use shmem_ipc.Ring.Framed.{Payload, frame_size}
use shmem_ipc.Ring.Send.{try_send_once-large, try_send_once-fits, try_send_once-refines}
use shmem_ipc.Ring.Steps.{SendPc, reload, put_len, begin_send, sender_step}

unfoldable pub sender_steps :
    Area → ℕ → SendPc → RingSender → RingShm → SendPc × RingSender × RingShm
sender_steps a zero pc s m = (pc, s, m)
sender_steps a (suc n) pc s m =
    let (pc', s', m', _) = sender_step a pc s m in sender_steps a n pc' s' m'

-- An idle sender stays where it is.
idle_alone :
    (a : Area) (n : ℕ) (s : RingSender) (m : RingShm)
    → sender_steps a n SendPc.idle s m ≡ (SendPc.idle, s, m)
unfolding sender_steps sender_step
idle_alone a zero s m = refl
idle_alone a (suc n) s m = idle_alone a n s m

abbrev pub finished : {A : Type 0} → A × RingSender × RingShm → SendPc × RingSender × RingShm
finished (_, s, m) = (SendPc.idle, s, m)

module _ (a : Area) (p : Payload) (s : RingSender) (m : RingShm) where
  abbrev fresh : RingSender
  fresh = record s { cached_rc = m.header.reader.read_cursor }

  publish_alone :
      sender_steps a 5 (put_len p) s m
      ≡ (let (s', m') = publish_message a s s.cached_wc p m in (SendPc.idle, s', m'))
  unfolding sender_steps sender_step publish_message write_message
  publish_alone = refl

  publish_alone_idle :
      sender_steps a 6 (put_len p) s m
      ≡ (let (s', m') = publish_message a s s.cached_wc p m in (SendPc.idle, s', m'))
  unfolding sender_steps sender_step publish_message write_message
  publish_alone_idle = refl

  reload_alone :
      sender_steps a 6 (reload p) s m
      ≡ sender_steps a 5
          (if has_space a fresh s.cached_wc (frame_size p) then put_len p else SendPc.idle)
          fresh
          m
  unfolding sender_steps sender_step
  reload_alone = refl

  begin_send-large : a.ring_data_size < frame_size p → begin_send a p s ≡ SendPc.idle
  unfolding begin_send
  begin_send-large large = ground arith

  begin_send-fits :
      frame_size p ≤ a.ring_data_size
      → begin_send a p s
        ≡ (if has_space a s s.cached_wc (frame_size p) then put_len p else reload p)
  unfolding begin_send
  begin_send-fits fits = ground arith

module _ (a : Area) (p : Payload) (s : RingSender) (m : RingShm) where
  sized_alone :
      frame_size p ≤ a.ring_data_size
      → sender_steps a 6 (begin_send a p s) s m ≡ finished (send_sized a (frame_size p) p s m)
  unfolding send_sized
  sized_alone fits = elim (Bool-cases (has_space a s s.cached_wc (frame_size p))) [
    | inl here ↦ rw (begin_send-fits a p s m fits, here) (publish_alone_idle a p s m)
    | inr tight ↦ elim (Bool-cases (has_space a (fresh a p s m) s.cached_wc (frame_size p))) [
      | inl there ↦
          rw (begin_send-fits a p s m fits, tight, reload_alone a p s m, there)
            (publish_alone a p (fresh a p s m) m)
      | inr none_left ↦
          rw (begin_send-fits a p s m fits, tight, reload_alone a p s m, none_left)
            (idle_alone a 5 (fresh a p s m) m)
    ]
  ]

  -- The two translations of `try_send_once`, as a call and as its accesses, agree.
  try_send_once_alone :
      sender_steps a 6 (begin_send a p s) s m ≡ finished (try_send_once a (ok true) p s m)
  try_send_once_alone = elim (dec_lt a.ring_data_size (frame_size p)) [
    | yes large ↦
        rw (begin_send-large a p s m large, try_send_once-large a p s m large) (idle_alone a 6 s m)
    | no fits ↦ rw (try_send_once-fits a p s m (omega arith)) (sized_alone (omega arith))
  ]

-- From the start of a call on a ready channel, six accesses of the sender with nothing between them
-- end the call, and leave the shared memory, for the receiver, holding what the bounded queue holds
-- after the call: the message at the end if it fits and there is room, and what was there otherwise.
-- The write cursor stays below 2 ^ 64.
pub sender_steps-Linked :
    {a : Area} (v : IsArea a) {s : RingSender} {r : RingReceiver} {m : RingShm} {q : Queue}
    → Linked a s r m q
    → (p : Payload) → s.cached_wc + frame_size p < 2 ^ 64
    → let (pc, s', m') = sender_steps a 6 (begin_send a p s) s m in
      (pc ≡ SendPc.idle) × Linked a s' r m' (Queue.send_when (ok true) a.ring_data_size p q).1
sender_steps-Linked {a} v {s} {r} {m} {q} l p fit64 =
    let after = (try_send_once-refines v l p (ok true) fit64).linked in
    subst⁻¹
      (λ out.
        (out.0 ≡ SendPc.idle)
        × Linked a out.1 r out.2 (Queue.send_when (ok true) a.ring_data_size p q).1)
      (try_send_once_alone a p s m) (refl, after)
