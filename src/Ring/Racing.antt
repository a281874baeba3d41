-- ===== src/Ring/Racing.antt =====
-- `try_recv` of src/ring.rs while the sender goes on: what is published before the channel's end
-- is still delivered.
use shmem_ipc.Base.{
  ℕ, ◌≡◌, refl, Bool, [], ◌∷◌, ◌++◌, Option, none, some, arith, if◌then◌else◌, Bool-cases, inl, inr,
}
use shmem_ipc.Error.{Error, Result, ok, err}
use shmem_ipc.Ring.Area.{Area, IsArea}
use shmem_ipc.Ring.State.{RingShm, RingReceiver}
use shmem_ipc.Ring.Receiver.{
  look_again, empty_or_closed, Views, try_peek_or_closed, take_peeked, try_recv,
}
use shmem_ipc.Ring.Framed.{Payload}
use shmem_ipc.Ring.Queue
use shmem_ipc.Ring.Queue.{Queue}
use shmem_ipc.Ring.Recv.{
  Unread, committed, released, peeked, try_peek_message-empty, try_peek_message-ready,
  take_message_lem, commit_current_message-Unread,
}

-- A call's outcome is the specification's, and the ring is left with its queue.
pub record RecvsAs (a : Area) (next : ℕ) (out : Result (Option Payload) × RingReceiver × RingShm)
    (spec : Result (Option Payload) × Queue) : Type 0 where
  pub result : out.0 ≡ spec.0
  pub unread : Unread a out.1 out.2 next spec.1

module _ {a : Area} (v : IsArea a) {r : RingReceiver} {m : RingShm} {next : ℕ} {q : Queue} where
  take_peeked-some :
      {p : Payload}
      → Unread a r m next (p ∷ q)
      → RecvsAs a next (take_peeked a (ok (some (peeked r p))) r m) (ok (some p), q)
  unfolding take_peeked
  take_peeked-some u =
      rw (take_message_lem v u)
        (record { result = refl; unread = (commit_current_message-Unread v u).1 })

  take_peeked-none : Unread a r m next q → RecvsAs a next (take_peeked a (ok none) r m) (ok none, q)
  unfolding take_peeked
  take_peeked-none u = record { result = refl; unread = u }

  take_peeked-err :
      (e : Error) → Unread a r m next q → RecvsAs a next (take_peeked a (err e) r m) (err e, q)
  unfolding take_peeked
  take_peeked-err e u = record { result = refl; unread = u }

pub empty_or_closed-ok :
    (a : Area) (b : Bool) (r : RingReceiver) (m : RingShm) → empty_or_closed a (ok b) r m ≡ ok none
unfolding empty_or_closed
empty_or_closed-ok a b r m = refl

module _ {a : Area} (v : IsArea a) {r : RingReceiver} (w : Views) where
  pub peek-first :
      {next : ℕ} (check_ready : Result Bool) {p : Payload} {q : Queue}
      → Unread a r w.first next (p ∷ q)
      → try_peek_or_closed a check_ready r w ≡ ok (some (peeked r p))
  unfolding try_peek_or_closed
  peek-first check_ready u = rw (try_peek_message-ready v u)

  pub peek-again :
      {next : ℕ} (check_ready : Result Bool)
      → Unread a r w.first next []
      → try_peek_or_closed a check_ready r w ≡ empty_or_closed a check_ready r w.again
  unfolding try_peek_or_closed
  peek-again check_ready u = rw (try_peek_message-empty v u)

  look_again-ready :
      {next : ℕ} (e : Error) {p : Payload} {q : Queue}
      → Unread a r w.again next (p ∷ q)
      → look_again a r w.again e ≡ ok (some (peeked r p))
  unfolding look_again
  look_again-ready e u = rw (try_peek_message-ready v u)

  look_again-empty :
      {next : ℕ} (e : Error) → Unread a r w.again next [] → look_again a r w.again e ≡ err e
  unfolding look_again
  look_again-empty e u = rw (try_peek_message-empty v u)

  empty_or_closed-empty :
      {next : ℕ} (e : Error)
      → Unread a r w.again next []
      → empty_or_closed a (err e) r w.again ≡ err e
  unfolding empty_or_closed
  empty_or_closed-empty e u = ground (arith, look_again-empty e u)

  empty_or_closed-ready :
      {next : ℕ} (e : Error) {p : Payload} {q : Queue}
      → Unread a r w.again next (p ∷ q)
      → empty_or_closed a (err e) r w.again
        ≡ (if Queue.is_end e then ok (some (peeked r p)) else err e)
  unfolding empty_or_closed Queue.is_end
  empty_or_closed-ready e u = ground (arith, look_again-ready e u)

  -- `try_recv` delivers the oldest message published before its first look, or before its second
  -- if the channel was found closed or its peer gone in between; otherwise it reports emptiness or
  -- the error. The messages left are those published up to the end of the call, in order.
  pub try_recv-racing :
      {n1 n2 next : ℕ} (check_ready : Result Bool) (seen more late : Queue)
      → Unread a r w.first n1 seen
      → Unread a r w.again n2 (seen ++ more)
      → Unread a r w.last next ((seen ++ more) ++ late)
      → RecvsAs a next (try_recv a check_ready r w) (Queue.recv_racing check_ready seen more late)
  unfolding try_recv Queue.recv_racing
  try_recv-racing check_ready (p ∷ seen) more late u1 u2 u3 =
      rw (peek-first check_ready u1) (take_peeked-some v u3)
  try_recv-racing (ok b) [] more late u1 u2 u3 =
      rw (peek-again (ok b) u1, empty_or_closed-ok a b r w.again) (take_peeked-none v u3)
  try_recv-racing (err e) [] [] late u1 u2 u3 =
      rw (peek-again (err e) u1, empty_or_closed-empty e u2) (take_peeked-err v e u3)
  try_recv-racing (err e) [] (p ∷ more) late u1 u2 u3 =
      rw (peek-again (err e) u1, empty_or_closed-ready e u2)
        (elim (Bool-cases (Queue.is_end e)) [
          | inl end ↦ rw end (take_peeked-some v u3)
          | inr other ↦ rw other (take_peeked-err v e u3)
        ])

  pub try_recv-queued :
      {n1 next : ℕ} (check_ready : Result Bool) {p : Payload} {q q' : Queue}
      → Unread a r w.first n1 (p ∷ q)
      → Unread a r w.last next (p ∷ q')
      → try_recv a check_ready r w ≡ (ok (some p), committed r p, released r p w.last)
  unfolding try_recv take_peeked
  try_recv-queued check_ready u1 u3 = rw (peek-first check_ready u1, take_message_lem v u3)

  pub try_recv-empty :
      {n1 : ℕ} (b : Bool) → Unread a r w.first n1 [] → try_recv a (ok b) r w ≡ (ok none, r, w.last)
  unfolding try_recv take_peeked
  try_recv-empty b u1 = rw (peek-again (ok b) u1, empty_or_closed-ok a b r w.again)

  pub try_recv_over :
      {n1 n2 : ℕ} (e : Error)
      → Unread a r w.first n1 []
      → Unread a r w.again n2 []
      → try_recv a (err e) r w ≡ (err e, r, w.last)
  unfolding try_recv take_peeked
  try_recv_over e u1 u2 = rw (peek-again (err e) u1, empty_or_closed-empty e u2)
