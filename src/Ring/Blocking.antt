-- ===== src/Ring/Blocking.antt =====
-- The blocking operations of src/ring.rs: `send` of RingSender, `recv` and `recv_into` of
-- RingReceiver. What their `wait_until` returns is an argument; the conditions that it is given
-- are `space_look` and `try_peek_or_closed`.
pub mod Waits
use mathlib.Core.Path.{subst, subst⁻¹}
use shmem_ipc.Base.{
  ℕ, ◌+◌, ◌≤◌, ◌<◌, ◌≡◌, refl, ◌∙◌, ap, Bool, true, false, List, [], ◌∷◌, ◌++◌, map, Option, some,
  none, arith, leb, ltb, if◌then◌else◌, length,
}
use shmem_ipc.Base.Words.{sub64}
use shmem_ipc.Error.{Error, Result, ok, err, ◌>>=◌}
use shmem_ipc.Ring.Area.{Area, IsArea}
use shmem_ipc.Ring.State.{
  RingShm, RingSender, RingReceiver, PeekedMessage, TrySendResult, sent, full,
}
use shmem_ipc.Ring.Sender.{has_space, message_size, publish_message, send_sized, try_send_once}
use shmem_ipc.Ring.Receiver.{
  Views, try_peek_or_closed, empty_or_closed, take_message, take_message_into,
}
use shmem_ipc.Ring.Framed.{Payload, frame_size}
use shmem_ipc.Ring.Queue.{Queue}
use shmem_ipc.Ring.Recv.{
  Unread, peeked, committed, released, take_message_lem, commit_current_message-Unread,
}
use shmem_ipc.Ring.Racing.{peek-first, peek-again, empty_or_closed-ok}
use shmem_ipc.Ring.Send.{try_send_once-fits}
use shmem_ipc.Wait.{Look, spin_then_wait}
use shmem_ipc.Wait.Looks.{first_settled, spin_then_wait-unlimited}
use mathlib.Core.List.{append-nil}

-- One turn of `send`'s loop: what `check_ready` returns in `try_send_once`, the shared memory that
-- it meets, and what the wait after it returns, if it is reached.
pub record SendTurn : Type 0 where
  pub ready : Result Bool
  pub shm : RingShm
  pub waited : Result ℕ

-- The answer, if the loop has ended, and the two states.
abbrev pub Sent : Type 0
Sent = Option (Result (Unit {0})) × RingSender × RingShm

-- The match on what `try_send_once` has returned; `next` is the next turn.
unfoldable pub after_attempt :
    (waited : Result ℕ)
    → (next : RingSender → RingShm → Sent) → Result TrySendResult × RingSender × RingShm
    → Sent
after_attempt waited next (err e, s, m) = (some (err e), s, m)
after_attempt waited next (ok sent, s, m) = (some (ok tt), s, m)
after_attempt (err e) next (ok full, s, m) = (some (err e), s, m)
after_attempt (ok new_rc) next (ok full, s, m) = next (record s { cached_rc = new_rc }) m

module _ (a : Area) where
  -- The condition that `send` waits for, from what `check_ready` returns and the read cursor.
  unfoldable pub space_look : (wc msg_len : ℕ) → Result Bool → (rc : ℕ) → Look ℕ
  space_look wc msg_len (err e) rc = err e
  space_look wc msg_len (ok false) rc = ok none
  space_look wc msg_len (ok true) rc =
      let free = sub64 a.ring_data_size (sub64 wc rc) in
      if leb msg_len free then ok (some rc) else ok none

  -- The answer is `none` for a loop that has not ended after the given turns.
  unfoldable pub send_loop : List ℕ → List SendTurn → RingSender → RingShm → Sent
  unfolding after_attempt
  send_loop payload [] s m = (none, s, m)
  send_loop payload (x ∷ rest) s m =
      after_attempt x.waited (λ s' m'. send_loop payload rest s' m')
        (try_send_once a x.ready payload s x.shm)

  unfoldable pub send : List ℕ → List SendTurn → RingSender → RingShm → Sent
  unfolding send_loop
  send payload turns s m = elim (message_size a (length payload)) [
    | err e ↦ (some (err e), s, m)
    | ok _ ↦ send_loop payload turns s m
  ]

  -- `waited` is what `wait_for_message` returns.
  unfoldable pub recv :
      (waited : Result PeekedMessage)
      → RingReceiver
      → RingShm
      → Result (List ℕ) × RingReceiver × RingShm
  recv (err e) r m = (err e, r, m)
  recv (ok message) r m = take_message a message r m

  unfoldable pub recv_into :
      (waited : Result PeekedMessage)
      → List ℕ
      → RingReceiver
      → RingShm
      → List ℕ × (Result ℕ × RingReceiver × RingShm)
  recv_into (err e) buf r m = (buf, (err e, r, m))
  recv_into (ok message) buf r m = take_message_into a message buf r m

-- One look of `wait_for_message`.
pub record RecvLook : Type 0 where
  pub ready : Result Bool
  pub views : Views

abbrev pub peek_look : Area → RingReceiver → RecvLook → Look PeekedMessage
peek_look a r x = try_peek_or_closed a x.ready r x.views
