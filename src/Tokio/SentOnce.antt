-- ===== src/Tokio/SentOnce.antt =====
-- `spin_send` and `send_async` of src/tokio/mod.rs, whose attempts find the ring as the receiver
-- has left it.
pub mod Spins
pub mod Async
mod Tests
use shmem_ipc.Base.{
  ℕ, ◌+◌, ◌^◌, ◌<◌, ◌≤◌, ◌≡◌, refl, sym, inl, inr, ap, ◌∙◌, Bool-cases, Bool, true, false, List, [],
  ◌∷◌, ◌++◌, map, Option, some, none, arith, length,
}
use mathlib.Core.Path.{subst, subst⁻¹}
use mathlib.Core.List.{append_assoc, Memᴰ}
use mathlib.Core.List.Memᴰ
use shmem_ipc.Error.{Error, Result, ok, err}
use shmem_ipc.Ring.Area.{Area, IsArea}
use shmem_ipc.Ring.State.{RingShm, RingSender, RingReceiver, TrySendResult, sent, full}
use shmem_ipc.Ring.Sender.{has_space, send_sized, try_send_once}
use native.Mathlib.Decide.{dec_lt}
use shmem_ipc.Ring.Framed.{Payload, frame_size}
use shmem_ipc.Ring.Queue
use shmem_ipc.Ring.Queue.{Queue}
use shmem_ipc.Ring.Linked.{Linked}
use shmem_ipc.Ring.Send.{SendsAs, try_send_once-large, try_send_once-fits, try_send_once-refines}
use shmem_ipc.Tokio.{SendAttempt, SendTurn, spin_send, send_async}

-- Every attempt that is made finds the ring holding some queue, for the sender as the attempt
-- before has left it.
pub data Finds (a : Area) (p : Payload) : RingSender → List SendAttempt → Type 0 where
  no_more : {s : RingSender} → Finds a p s []
  finds :
      {s : RingSender} {x : SendAttempt} {rest : List SendAttempt} {r : RingReceiver} {q : Queue}
      → Linked a s r x.shm q
      → ((try_send_once a x.ready p s x.shm).0 ≡ ok full
          → Finds a p (try_send_once a x.ready p s x.shm).1 rest)
      → Finds a p s (x ∷ rest)

unfoldable pub attempts_of : List SendTurn → List SendAttempt
attempts_of [] = []
attempts_of (x ∷ rest) = x.attempts ++ (x.again ++ attempts_of rest)

-- The shared memory as the call, or one of the attempts `xs`, found it.
pub data FoundIn (m : RingShm) (xs : List SendAttempt) : RingShm → Type 0 where
  by_call : FoundIn m xs m
  by_attempt : {x : SendAttempt} → Memᴰ x xs → FoundIn m xs (SendAttempt.shm x)

-- The message was appended to the queue that one of the attempts `xs` found; or nothing was
-- written, and of the sender only the copy of the read cursor has changed.
pub data Once (a : Area) (p : Payload) (s : RingSender) (m : RingShm) (xs : List SendAttempt)
    : Bool → RingSender → RingShm → Type 0 where
  placed :
      {rc : ℕ} {x : SendAttempt} {r : RingReceiver} {q : Queue} {s' : RingSender} {m' : RingShm}
      → Memᴰ x xs
      → Linked a (record s { cached_rc = rc }) r x.shm q
      → Linked a s' r m' (q ++ (p ∷ []))
      → Once a p s m xs true s' m'
  kept :
      (rc : ℕ) {m' : RingShm}
      → FoundIn m xs m'
      → Once a p s m xs false (record s { cached_rc = rc }) m'

unfoldable pub went : Result TrySendResult → Bool
went (ok sent) = true
went (ok full) = false
went (err e) = false

-- What one attempt does to the sender and to the shared memory.
data Attempted (s : RingSender) (m : RingShm)
    : Result TrySendResult × RingSender × RingShm → Type 0 where
  did : {s' : RingSender} {m' : RingShm} → Attempted s m (ok sent, s', m')
  is_full : (rc : ℕ) → Attempted s m (ok full, record s { cached_rc = rc }, m)
  failed : (e : Error) (rc : ℕ) → Attempted s m (err e, record s { cached_rc = rc }, m)

module _ (a : Area) (p : Payload) (s : RingSender) (m : RingShm) where
  send_sized-Attempted : (msg_len : ℕ) → Attempted s m (send_sized a msg_len p s m)
  unfolding send_sized
  send_sized-Attempted msg_len = elim (Bool-cases (has_space a s s.cached_wc msg_len)) [
    | inl h ↦ rw h did
    | inr tight ↦
        let fresh : RingSender = record s { cached_rc = m.header.reader.read_cursor } in
        elim (Bool-cases (has_space a fresh s.cached_wc msg_len)) [
          | inl h ↦ rw (tight, h) did
          | inr h ↦ rw (tight, h) (is_full m.header.reader.read_cursor)
        ]
  ]

  try_send_once-Attempted :
      (check_ready : Result Bool) → Attempted s m (try_send_once a check_ready p s m)
  unfolding try_send_once
  try_send_once-Attempted (err e) = failed e s.cached_rc
  try_send_once-Attempted (ok false) = is_full s.cached_rc
  try_send_once-Attempted (ok true) = elim (dec_lt a.ring_data_size (frame_size p)) [
    | yes large ↦ rw (try_send_once-large a p s m large) (failed _ s.cached_rc)
    | no fits ↦ rw (try_send_once-fits a p s m (omega arith)) (send_sized-Attempted (frame_size p))
  ]

sent-queue :
    (check_ready : Result Bool) (size : ℕ) (p : Payload) (q : Queue)
    → (Queue.send_when check_ready size p q).0 ≡ ok sent
    → (Queue.send_when check_ready size p q).1 ≡ q ++ (p ∷ [])
unfolding Queue.send_when Queue.send
sent-queue (err e) size p q h = ground (arith, h)
sent-queue (ok false) size p q h = ground (arith, h)
sent-queue (ok true) size p q h = ground (arith, h)

found_further :
    {m m1 m' : RingShm} {xs ys : List SendAttempt}
    → FoundIn m xs m1
    → FoundIn m1 ys m'
    → FoundIn m (xs ++ ys) m'
found_further by_call by_call = by_call
found_further {ys} (by_attempt i) by_call = by_attempt (Memᴰ.append_left ys i)
found_further {xs} f (by_attempt i) = by_attempt (Memᴰ.append_right xs i)

-- The attempts `ys` come after the attempts `xs` that sent nothing.
pub Once-then :
    {a : Area} {p : Payload} {s s' : RingSender} {m m1 m' : RingShm} {xs ys : List SendAttempt}
    → {rc : ℕ} {done : Bool} → FoundIn m xs m1
    → Once a p (record s { cached_rc = rc }) m1 ys done s' m'
    → Once a p s m (xs ++ ys) done s' m'
Once-then {xs} f (placed i l l') = placed (Memᴰ.append_right xs i) l l'
Once-then f (kept rc g) = kept rc (found_further f g)

-- More attempts are given than are made.
pub Once-more :
    {a : Area} {p : Payload} {s s' : RingSender} {m m' : RingShm} {xs : List SendAttempt}
    → {done : Bool} (ys : List SendAttempt) → Once a p s m xs done s' m'
    → Once a p s m (xs ++ ys) done s' m'
Once-more ys (placed i l l') = placed (Memᴰ.append_left ys i) l l'
Once-more ys (kept rc f) = kept rc (found_further f by_call)

module _ {a : Area} (v : IsArea a) (p : Payload) where
  Attempted-Once :
      {s : RingSender} {m : RingShm} {r : RingReceiver} {q : Queue} (x : SendAttempt)
      → {out : Result TrySendResult × RingSender × RingShm} → Linked a s r x.shm q
      → Attempted s x.shm out
      → SendsAs a r out (Queue.send_when x.ready a.ring_data_size p q)
      → Once a p s m (x ∷ []) (went out.0) out.1 out.2
  unfolding went
  Attempted-Once {r} {q} x l (did {s'} {m'}) sends = placed (Memᴰ.head refl) l (
      subst (λ q'. Linked a s' r m' q') (sent-queue x.ready a.ring_data_size p q (sym sends.result))
        sends.linked)
  Attempted-Once x l (is_full rc) sends = kept rc (by_attempt (Memᴰ.head refl))
  Attempted-Once x l (failed e rc) sends = kept rc (by_attempt (Memᴰ.head refl))

  attempt-Once :
      {s : RingSender} {m : RingShm} {r : RingReceiver} {q : Queue} (x : SendAttempt)
      → Linked a s r x.shm q
      → s.cached_wc + frame_size p < 2 ^ 64
      → let (result, s', m') = try_send_once a x.ready p s x.shm in
        Once a p s m (x ∷ []) (went result) s' m'
  attempt-Once {s} x l fit64 =
      Attempted-Once x l (try_send_once-Attempted a p s x.shm x.ready)
        (try_send_once-refines v l p x.ready fit64)
