-- ===== src/Ring/Run.antt =====
-- One ring used from both ends, call by call: the whole of src/ring.rs's non-blocking interface
-- against the bounded queue.
use shmem_ipc.Base.{ℕ, ◌+◌, ◌^◌, ◌<◌, ◌≡◌, refl, sym, Bool, List, [], ◌∷◌, Option, arith}
use mathlib.Core.Path.{subst, ap₂}
use shmem_ipc.Error.{Result, ok, err}
use shmem_ipc.Ring.Area.{Area, IsArea}
use shmem_ipc.Ring.State.{RingShm, RingSender, RingReceiver, TrySendResult}
use shmem_ipc.Ring.Sender.{try_send_once}
use shmem_ipc.Ring.Receiver.{store_read_cursor, Views, try_recv}
use shmem_ipc.Ring.Framed.{Payload, Framed, frame_size}
use shmem_ipc.Ring.Queue
use shmem_ipc.Ring.Queue.{Queue}
use shmem_ipc.Ring.Linked.{Linked, notify_writer-Linked, store_read_cursor-Linked}
use shmem_ipc.Ring.Send.{try_send_once-refines, cached_wc-try_send_once}
use shmem_ipc.Ring.Recv.{Unread, committed, released}
use shmem_ipc.Ring.Racing.{try_recv-queued, try_recv-empty, try_recv_over}

-- One process's call, with what `check_ready` returns in it.
pub data Call : Type 0 where
  send : Result Bool → Payload → Call
  recv : Result Bool → Call

pub data Reply : Type 0 where
  sending : Result TrySendResult → Reply
  receiving : Result (Option Payload) → Reply

pub record Ring : Type 0 where
  pub sender : RingSender
  pub receiver : RingReceiver
  pub shm : RingShm

-- All looks of a call see the same state.
abbrev pub steady : RingShm → Views
steady m = record { first = m; again = m; last = m }

unfoldable pub run : Area → List Call → Ring → List Reply
run a [] x = []
run a (send check_ready p ∷ calls) x =
    let (result, s, m) = try_send_once a check_ready p x.sender x.shm in
    sending result ∷ run a calls (record { sender = s; receiver = x.receiver; shm = m })
run a (recv check_ready ∷ calls) x =
    let (result, r, m) = try_recv a check_ready x.receiver (steady x.shm) in
    receiving result ∷ run a calls (record { sender = x.sender; receiver = r; shm = m })

unfoldable pub run_queue : ℕ → List Call → Queue → List Reply
run_queue size [] q = []
run_queue size (send check_ready p ∷ calls) q =
    let (result, q') = Queue.send_when check_ready size p q in
    sending result ∷ run_queue size calls q'
run_queue size (recv check_ready ∷ calls) q =
    let (result, q') = Queue.recv_when check_ready q in receiving result ∷ run_queue size calls q'

-- The bytes that the calls can write.
abbrev pub sent_bytes : List Call → ℕ
sent_bytes [] = 0
sent_bytes (send _ p ∷ calls) = frame_size p + sent_bytes calls
sent_bytes (recv _ ∷ calls) = sent_bytes calls

pub Linked-Unread :
    {a : Area} {s : RingSender} {r : RingReceiver} {m : RingShm} {q : Queue}
    → Linked a s r m q
    → Unread a r m s.next_seq q
Linked-Unread {a} {s} {r} {m} {q} l = record {
  queued =
      subst (λ c. Framed a m.mem c s.next_seq r.cached_rc r.expected_seq q) (sym l.wrote) l.queued;
  room = omega (arith, l.wrote, l.behind, l.room);
  no_wrap = omega (arith, l.wrote, l.no_wrap);
}

committed-Linked :
    {a : Area} {s : RingSender} {r : RingReceiver} {m : RingShm} {p : Payload} {q : Queue}
    → IsArea a
    → Linked a s r m (p ∷ q)
    → Linked a s (committed r p) (released r p m) q
unfolding store_read_cursor
committed-Linked v l = notify_writer-Linked (store_read_cursor-Linked v l)

-- A receiving call on a ring that nobody touches meanwhile.
pub record RecvsAt (a : Area) (s : RingSender)
    (out : Result (Option Payload) × RingReceiver × RingShm)
    (spec : Result (Option Payload) × Queue) : Type 0 where
  pub result : out.0 ≡ spec.0
  pub linked : Linked a s out.1 out.2 spec.1

pub try_recv-refines :
    {a : Area} {s : RingSender} {r : RingReceiver} {m : RingShm} {q : Queue}
    (check_ready : Result Bool)
    → IsArea a
    → Linked a s r m q
    → RecvsAt a s (try_recv a check_ready r (steady m)) (Queue.recv_when check_ready q)
unfolding Queue.recv_when
try_recv-refines {q = p ∷ q} check_ready v l =
    rw (try_recv-queued v (steady _) check_ready (Linked-Unread l) (Linked-Unread l))
      (record { result = refl; linked = committed-Linked v l })
try_recv-refines {q = []} (ok b) v l =
    rw (try_recv-empty v (steady _) b (Linked-Unread l)) (record { result = refl; linked = l })
try_recv-refines {q = []} (err e) v l =
    rw (try_recv_over v (steady _) e (Linked-Unread l) (Linked-Unread l))
      (record { result = refl; linked = l })

-- Whatever calls the two ends make, one after another, they get the answers of the bounded queue
-- of whole messages: every message arrives once, whole and in order, and a send fails only when
-- the queue is full or the message too large. The bytes written must stay below 2 ^ 64.
pub run-refines :
    {a : Area} (calls : List Call) {x : Ring} {q : Queue}
    → IsArea a
    → Linked a x.sender x.receiver x.shm q
    → x.sender.cached_wc + sent_bytes calls < 2 ^ 64
    → run a calls x ≡ run_queue a.ring_data_size calls q
unfolding run run_queue
run-refines [] v l h = refl
run-refines {a} (send check_ready p ∷ calls) {x} {q} v l h =
    let s = try_send_once-refines v l p check_ready (omega arith) in
    ap₂ (λ r rs. sending r ∷ rs) s.result
      (run-refines calls v s.linked
        (omega (arith, cached_wc-try_send_once a check_ready p x.sender x.shm)))
run-refines {a} (recv check_ready ∷ calls) {x} v l h =
    let s = try_recv-refines check_ready v l in
    ap₂ (λ r rs. receiving r ∷ rs) s.result (run-refines calls v s.linked h)
