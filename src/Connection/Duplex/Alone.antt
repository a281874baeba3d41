-- ===== src/Connection/Duplex/Alone.antt =====
-- One call on one ring of a connection (src/connection.rs), and what it leaves of the other ring.
use mathlib.Core.Path.{subst⁻¹}
use shmem_ipc.Base.{
  ℕ, ◌+◌, ◌-◌, ◌≤◌, ◌<◌, ◌^◌, ◌≡◌, ◌≢◌, refl, ◌∙◌, ap, sym, inl, inr, Bool, true, false, List, [],
  ◌∷◌, some, arith, ltb, ◌==◌, length, Bool-cases,
}
use native.Mathlib.Decide.{dec_lt}
use shmem_ipc.Error.{Error, Result, ok, err}
use shmem_ipc.Header.{global_header_size}
use shmem_ipc.Ring.Area.{Area, IsArea}
use shmem_ipc.Ring.State.{RingShm, RingSender, RingReceiver, TrySendResult, sent, full}
use shmem_ipc.Ring.Sender.{message_size, try_send_once}
use shmem_ipc.Ring.Receiver.{try_recv, notify_writer}
use shmem_ipc.Ring.Framed.{Payload, frame_size}
use shmem_ipc.Ring.Queue.{Queue}
use shmem_ipc.Ring.Linked.{Linked, Agree-Linked}
use shmem_ipc.Ring.Send.{try_send_once-refines, cached_wc-try_send_once}
use shmem_ipc.Ring.Racing.{try_recv-queued, try_recv-empty, try_recv_over}
use shmem_ipc.Ring.Run.{steady, Linked-Unread}
use shmem_ipc.Ring.Blocking
use shmem_ipc.Ring.Blocking.{SendTurn, after_attempt, send_loop}
use shmem_ipc.Ring.Blocking.Waits.{send-sized}
use shmem_ipc.Shared.State.{Mapping}
use shmem_ipc.Channel.{RingPlace}
use shmem_ipc.Channel.Rings.{Apart}
use shmem_ipc.Connection.{seen, stored}
use shmem_ipc.Connection.Apart.{Outside, try_send_once-Outside, Apart-Agree}
use shmem_ipc.Connection.Duplex.{alone, timed, offer}

-- A send on one ring, alone.
pub record Offers (a : Area) (r : RingReceiver) (m : RingShm) (wc size : ℕ) (out : Blocking.Sent)
    (spec : Result (Unit {0}) × Queue) : Type 0 where
  pub result : out.0 ≡ some spec.0
  pub linked : Linked a out.1 r out.2 spec.1
  pub outside : Outside a m.mem out.2.mem
  pub grown : out.1.cached_wc ≤ wc + size

after_attempt_alone :
    (next : RingSender → RingShm → Blocking.Sent)
    (out : Result TrySendResult × RingSender × RingShm)
    → after_attempt (err Error.timed_out) next out ≡ (some (timed out.0), out.1, out.2)
unfolding after_attempt timed
after_attempt_alone next (err e, s, m) = refl
after_attempt_alone next (ok sent, s, m) = refl
after_attempt_alone next (ok full, s, m) = refl

module _ {a : Area} (v : IsArea a) {s : RingSender} {r : RingReceiver} {m : RingShm} {q : Queue}
    (l : Linked a s r m q) where
  send_large :
      (p : Payload) (turns : List SendTurn)
      → a.ring_data_size < frame_size p
      → Blocking.send a p turns s m
        ≡ (some (err (Error.message_too_large (length p) (a.ring_data_size - 8))), s, m)
  unfolding Blocking.send message_size
  send_large p turns large = ground arith

  send_fits :
      (ready : Result Bool) (p : Payload)
      → frame_size p ≤ a.ring_data_size
      → let out = try_send_once a ready p s m in
        Blocking.send a p (alone ready m ∷ []) s m ≡ (some (timed out.0), out.1, out.2)
  unfolding send_loop
  send_fits ready p fits =
      send-sized a p s (alone ready m ∷ []) m fits
      ∙ after_attempt_alone (λ s' m'. send_loop a p [] s' m') (try_send_once a ready p s m)

  pub send-alone :
      (ready : Result Bool) (p : Payload)
      → s.cached_wc + frame_size p < 2 ^ 64
      → Offers a r m s.cached_wc
          (frame_size p)
          (Blocking.send a p (alone ready m ∷ []) s m)
          (offer ready a.ring_data_size p q)
  unfolding offer
  send-alone ready p fit64 =
      let spec : Result (Unit {0}) × Queue = offer ready a.ring_data_size p q in
      elim (dec_lt a.ring_data_size (frame_size p)) [
        | yes large ↦
            let big : ltb a.ring_data_size (frame_size p) ≡ true = ground arith in
            subst⁻¹ (λ o. Offers a r m s.cached_wc (frame_size p) o spec)
              (send_large p (alone ready m ∷ []) large)
              (rw big (record {
                result = refl;
                linked = l;
                outside = λ x out. refl;
                grown = omega arith;
              }))
        | no fits ↦
            let small : ltb a.ring_data_size (frame_size p) ≡ false = ground arith in
            let sends = try_send_once-refines v l p ready fit64 in
            subst⁻¹ (λ o. Offers a r m s.cached_wc (frame_size p) o spec)
              (send_fits ready p (omega arith))
              (rw small (record {
                result = ap (λ x. some (timed x)) sends.result;
                linked = sends.linked;
                outside = try_send_once-Outside v ready p s m;
                grown = cached_wc-try_send_once a ready p s m;
              }))
      ]

  pub mem-try_recv : (ready : Result Bool) → (try_recv a ready r (steady m)).2.mem ≡ m.mem
  unfolding notify_writer
  mem-try_recv ready = by_queue q l ready
    where
      by_queue :
          (k : Queue)
          → Linked a s r m k
          → (b : Result Bool) → (try_recv a b r (steady m)).2.mem ≡ m.mem
      by_queue (p ∷ k) l' b =
          ap (λ o. o.2.mem) (try_recv-queued v (steady m) b (Linked-Unread l') (Linked-Unread l'))
      by_queue [] l' (ok b) = ap (λ o. o.2.mem) (try_recv-empty v (steady m) b (Linked-Unread l'))
      by_queue [] l' (err e) =
          ap (λ o. o.2.mem) (try_recv_over v (steady m) e (Linked-Unread l') (Linked-Unread l'))

-- The two places have their headers and areas apart.
pub record Across (p q : RingPlace) : Type 0 where
  pub headers : (p.header_offset == global_header_size) ≢ (q.header_offset == global_header_size)
  pub areas : Apart p.area q.area
  pub areas_back : Apart q.area p.area
  pub valid : IsArea p.area
  pub valid_other : IsArea q.area

seen-stored : (p : RingPlace) (shm : RingShm) (m : Mapping) → seen p (stored p shm m) ≡ shm
seen-stored p shm m = elim (Bool-cases (p.header_offset == global_header_size)) [
  | inl first ↦ rw first refl
  | inr second ↦ rw second refl
]

seen-stored_other :
    (p q : RingPlace) (shm : RingShm) (m : Mapping)
    → Across p q
    → seen q (stored p shm m) ≡ record (seen q m) { mem = shm.mem }
seen-stored_other p q shm m across = elim (Bool-cases (p.header_offset == global_header_size)) [
  | inl first ↦ elim (Bool-cases (q.header_offset == global_header_size)) [
    | inl same ↦ absurd (across.headers (first ∙ sym same))
    | inr second ↦ rw (first, second) refl
  ]
  | inr second ↦ elim (Bool-cases (q.header_offset == global_header_size)) [
    | inl first ↦ rw (second, first) refl
    | inr same ↦ absurd (across.headers (second ∙ sym same))
  ]
]

-- What is queued on the one ring stays there when the other is used.
pub other-Linked :
    (p q : RingPlace) (shm : RingShm) (m : Mapping) {s : RingSender} {r : RingReceiver} {k : Queue}
    → Across p q
    → Outside p.area m.mem shm.mem
    → Linked q.area s r (seen q m) k
    → Linked q.area s r (seen q (stored p shm m)) k
other-Linked p q shm m {s} {r} {k} across same l =
    subst⁻¹ (λ x. Linked q.area s r x k) (seen-stored_other p q shm m across)
      (Agree-Linked across.valid_other l shm.mem
        (Apart-Agree p.area q.area across.valid_other across.areas same r.cached_rc s.cached_wc))

pub self-Linked :
    (p : RingPlace) (shm : RingShm) (m : Mapping) {s : RingSender} {r : RingReceiver} {k : Queue}
    → Linked p.area s r shm k
    → Linked p.area s r (seen p (stored p shm m)) k
self-Linked p shm m {s} {r} {k} l = subst⁻¹ (λ x. Linked p.area s r x k) (seen-stored p shm m) l
