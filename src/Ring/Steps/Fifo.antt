-- ===== src/Ring/Steps/Fifo.antt =====
-- The two processes of a ring of src/ring.rs, interleaved in any order.
use shmem_ipc.Base.{◌+◌, ◌≤◌, ◌<◌, ◌^◌, ◌≡◌, ◌≢◌, refl, sym, ap, ◌∙◌, [], ◌++◌, arith}
use mathlib.Core.Path.{subst, subst⁻¹}
use mathlib.Core.List.{append_assoc}
use shmem_ipc.Error.{Error}
use shmem_ipc.Memory.{Memory}
use shmem_ipc.Ring.Area.{Area, IsArea}
use shmem_ipc.Ring.State.{RingReceiver}
use shmem_ipc.Ring.Framed.{Payload, done, frame_size, frame_sizes, Framed-end}
use shmem_ipc.Ring.Queue.{Queue}
use shmem_ipc.Ring.Steps.{
  RecvPc, loaded, peeked, copied, failed, System, sender_step, receiver_step, call, sends, receives,
  start, Reach, started, called, sent, received,
}
use shmem_ipc.Ring.Steps.Invariant.{SendInv, RecvInv, Inv}
use shmem_ipc.Ring.Steps.Sender.{sender_step-keeps, begin_send-SendInv}
use shmem_ipc.Ring.Steps.Receiver.{receiver_step-keeps}

-- New messages at the back do not concern what the receiver has seen.
RecvInv-append :
    (pc : RecvPc) (r : RingReceiver) (q q' : Queue) → RecvInv pc r q → RecvInv pc r (q ++ q')
RecvInv-append RecvPc.idle r q q' h = tt
RecvInv-append RecvPc.notify r q q' h = tt
RecvInv-append (loaded wc) r q q' (seen, more, e, at) =
    (seen, more ++ q', ap (λ q. q ++ q') e ∙ append_assoc seen more q', at)
RecvInv-append (peeked message) r q q' (p, rest, e, e') = (p, rest ++ q', ap (λ q. q ++ q') e, e')
RecvInv-append (copied message buf) r q q' (rest, e, e') = (rest ++ q', ap (λ q. q ++ q') e, e')
RecvInv-append (failed e) r q q' h = h

start-Inv : {a : Area} → IsArea a → (mem : Memory) → Inv a (start mem)
start-Inv v mem = record {
  queue = [];
  linked = record {
    queued = done refl refl;
    wrote = refl;
    freed = refl;
    behind = omega arith;
    room = omega arith;
    no_wrap = omega arith;
    word = omega arith;
  };
  at_send = tt;
  at_recv = tt;
  fifo = refl;
}

module _ {a : Area} (v : IsArea a) {x : System} (i : Inv a x) where
  call-Inv : (p : Payload) → x.sender.cached_wc + frame_size p < 2 ^ 64 → Inv a (call a p x)
  unfolding call
  call-Inv p fit64 = record {
    queue = i.queue;
    linked = i.linked;
    at_send = begin_send-SendInv v i.linked p fit64;
    at_recv = i.at_recv;
    fifo = i.fifo;
  }

  sends-Inv : Inv a (sends a x)
  unfolding sends
  sends-Inv =
      let k = sender_step-keeps x.send_pc v i.linked i.at_send in
      let out = (sender_step a x.send_pc x.sender x.shm).3 in
      record {
        queue = i.queue ++ out;
        linked = k.linked;
        at_send = k.at_send;
        at_recv = RecvInv-append x.recv_pc x.receiver i.queue out i.at_recv;
        fifo = ap (λ q. q ++ out) i.fifo ∙ append_assoc x.delivered i.queue out;
      }

  receives-Inv : Inv a (receives a x)
  unfolding receives
  receives-Inv =
      let k = receiver_step-keeps x.recv_pc v i.linked i.at_recv in
      let out = (receiver_step a x.recv_pc x.receiver x.shm).3 in
      record {
        queue = k.rest;
        linked = k.linked;
        at_send = subst⁻¹ (λ mem. SendInv a x.send_pc x.sender mem) k.same i.at_send;
        at_recv = k.at_recv;
        fifo =
            i.fifo ∙ ap (λ q. x.delivered ++ q) k.taken ∙ sym (append_assoc x.delivered out k.rest);
      }

pub Reach-Inv : {a : Area} {x : System} → IsArea a → Reach a x → Inv a x
Reach-Inv v (started mem) = start-Inv v mem
Reach-Inv v (called p r e fit64) = call-Inv v (Reach-Inv v r) p fit64
Reach-Inv v (sent r) = sends-Inv v (Reach-Inv v r)
Reach-Inv v (received r) = receives-Inv v (Reach-Inv v r)

-- In every interleaving of the single memory accesses of the two processes, what has been
-- delivered is the first part of what has been published, message for message, byte for byte and
-- in order; the frames of the rest fit the data area; and the receiver has met no error.
pub delivered_in_order :
    {a : Area} {x : System}
    → IsArea a
    → Reach a x
    → (q : Queue) × (x.sent ≡ x.delivered ++ q)
      × (frame_sizes q ≤ a.ring_data_size)
      × ((e : Error) → x.recv_pc ≢ failed e)
delivered_in_order {a} {x} v r =
    let i = Reach-Inv v r in
    (
      i.queue,
      i.fifo,
      omega (arith, Framed-end i.linked.queued, i.linked.behind, i.linked.room),
      λ e at. subst (λ pc. RecvInv pc x.receiver i.queue) at i.at_recv,
    )
