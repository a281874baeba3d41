-- ===== src/Ring/Steps/Receiver.antt =====
-- Every access of the receiver keeps the invariant.
use shmem_ipc.Base.{ℕ, ◌+◌, ◌≡◌, refl, sym, ◌∙◌, List, [], ◌∷◌, ◌++◌, arith, length}
use mathlib.Core.Path.{subst, subst⁻¹}
use mathlib.Core.List.{append-nil}
use shmem_ipc.Base.Words.{add64}
use shmem_ipc.Memory.{Memory}
use shmem_ipc.Ring.Area.{Area, IsArea, read_ring}
use shmem_ipc.Ring.Window.{read_ring-eq-window}
use shmem_ipc.Ring.State.{RingSender, RingReceiver, RingShm}
use shmem_ipc.Ring.Receiver.{notify_writer, store_read_cursor}
use shmem_ipc.Ring.Framed.{Payload, Framed, frame_sizes, Framed-end, Framed-cons}
use shmem_ipc.Ring.Queue.{Queue}
use shmem_ipc.Ring.Linked.{Linked, notify_writer-Linked, store_read_cursor-Linked}
use shmem_ipc.Ring.Recv
use shmem_ipc.Ring.Recv.{validate_seq-due, peek_below-empty, peek_below-ready}
use shmem_ipc.Ring.Steps.{RecvPc, loaded, peeked, copied, failed, receiver_step}
use shmem_ipc.Ring.Steps.Invariant.{RecvInv}

frame_sizes-append : (q q' : Queue) → frame_sizes (q ++ q') ≡ frame_sizes q + frame_sizes q'
frame_sizes-append [] q' = omega arith
frame_sizes-append (p ∷ q) q' = omega (arith, frame_sizes-append q q')

-- The queue gives up from its front what the receiver delivers.
pub record ReceiverKeeps (a : Area) (s : RingSender) (mem : Memory) (q : Queue)
    (out : RecvPc × RingReceiver × RingShm × List Payload) : Type 0 where
  pub rest : Queue
  pub taken : q ≡ out.3 ++ rest
  pub linked : Linked a s out.1 out.2 rest
  pub at_recv : RecvInv out.0 out.1 rest
  pub same : out.2.mem ≡ mem

module _ {a : Area} (v : IsArea a) {s : RingSender} {r : RingReceiver} {m : RingShm} {q : Queue}
    (l : Linked a s r m q) where
  front :
      {p : Payload} {rest : Queue}
      → q ≡ p ∷ rest
      → Framed a m.mem s.cached_wc s.next_seq r.cached_rc r.expected_seq (p ∷ rest)
  front e =
      subst (λ q. Framed a m.mem s.cached_wc s.next_seq r.cached_rc r.expected_seq q) e l.queued

  loaded-keeps :
      (wc : ℕ)
      → RecvInv (loaded wc) r q
      → ReceiverKeeps a s m.mem q (receiver_step a (loaded wc) r m)
  unfolding receiver_step
  loaded-keeps wc ([], more, e, at) =
      rw (peek_below-empty v wc r m.mem (omega (arith, l.no_wrap, Framed-end l.queued)))
        (record { rest = q; taken = refl; linked = l; at_recv = tt; same = refl })
  loaded-keeps wc (p ∷ seen, more, e, at) =
      let (f, rest) = Framed-cons (front e) in
      rw
        (peek_below-ready v wc f (
          omega (
            arith,
            l.no_wrap,
            v.small,
            l.behind,
            l.room,
            Framed-end rest,
            frame_sizes-append seen more,
          )))
        (record {
          rest = q;
          taken = refl;
          linked = l;
          at_recv = (p, seen ++ more, e, refl);
          same = refl;
        })

  peeked-keeps :
      (p : Payload) (rest : Queue)
      → q ≡ p ∷ rest
      → ReceiverKeeps a s m.mem q (receiver_step a (peeked (Recv.peeked r p)) r m)
  unfolding receiver_step
  peeked-keeps p rest e =
      let (f, more) = Framed-cons (front e) in
      let after : add64 r.cached_rc 8 ≡ r.cached_rc + 8 =
        omega (arith, Framed-end more, l.no_wrap) in
      let body : read_ring a (r.cached_rc + 8) (length p) m.mem ≡ p =
        read_ring-eq-window v m.mem (r.cached_rc + 8) (length p) (omega (arith, f.fits)) ∙ f.body in
      rw (after, body)
        (record { rest = q; taken = refl; linked = l; at_recv = (rest, e, refl); same = refl })

  copied-keeps :
      (p : Payload) (rest : Queue)
      → q ≡ p ∷ rest
      → ReceiverKeeps a s m.mem q (receiver_step a (copied (Recv.peeked r p) p) r m)
  unfolding receiver_step store_read_cursor
  copied-keeps p rest e = rw (validate_seq-due r) (record {
    rest = rest;
    taken = e;
    linked = store_read_cursor-Linked v (subst (λ q. Linked a s r m q) e l);
    at_recv = tt;
    same = refl;
  })

-- Whatever the receiver does next, it takes from the front of the queue what it delivers, and
-- writes nothing to the data area.
pub receiver_step-keeps :
    {a : Area} {s : RingSender} {r : RingReceiver} {m : RingShm} {q : Queue} (pc : RecvPc)
    → IsArea a
    → Linked a s r m q
    → RecvInv pc r q
    → ReceiverKeeps a s m.mem q (receiver_step a pc r m)
unfolding receiver_step notify_writer
receiver_step-keeps {q} RecvPc.idle v l h = record {
  rest = q;
  taken = refl;
  linked = l;
  at_recv = (q, [], sym (append-nil q), omega (arith, l.wrote, Framed-end l.queued));
  same = refl;
}
receiver_step-keeps (loaded wc) v l h = loaded-keeps v l wc h
receiver_step-keeps {a} {s} {r} {m} {q} (peeked message) v l (p, rest, e, e') =
    subst⁻¹ (λ x. ReceiverKeeps a s m.mem q (receiver_step a (peeked x) r m)) e'
      (peeked-keeps v l p rest e)
receiver_step-keeps {a} {s} {r} {m} {q} (copied message buf) v l (rest, e, e') =
    subst⁻¹ (λ x. ReceiverKeeps a s m.mem q (receiver_step a (copied x buf) r m)) e'
      (copied-keeps v l buf rest e)
receiver_step-keeps {q} RecvPc.notify v l h = record {
  rest = q;
  taken = refl;
  linked = notify_writer-Linked l;
  at_recv = tt;
  same = refl;
}
receiver_step-keeps (failed error) v l h = absurd h
