-- ===== src/Tokio.antt =====
-- src/tokio/mod.rs: the spinning and draining under the asynchronous operations. What each look
-- meets, and what the waits of src/tokio/bridge.rs return, are given turn by turn.
pub mod InOrder
pub mod SentOnce
pub mod Receive
pub mod Owners
pub mod Many
pub mod Bridge
pub mod Listener
pub mod Meet
mod Tests
use shmem_ipc.Base.{
  ℕ, zero, suc, ◌+◌, min, Bool, true, false, not, ◌&&◌, List, [], ◌∷◌, ◌++◌, Option, some, none,
  ◌==◌, if◌then◌else◌, length,
}
use shmem_ipc.Error.{Error, Result, ok, err}
use shmem_ipc.Ring.Area.{Area}
use shmem_ipc.Ring.State.{
  RingShm, RingSender, RingReceiver, PeekedMessage, TrySendResult, sent, full,
}
use shmem_ipc.Ring.Sender.{try_send_once}
use shmem_ipc.Ring.Receiver.{take_message, take_message_into}
use shmem_ipc.Ring.Framed.{Payload}
use shmem_ipc.Ring.Queue.{is_end}
use shmem_ipc.Ring.Blocking.{RecvLook, peek_look}
use shmem_ipc.Wait.{Look}

-- One attempt: what `check_ready` returns, and the shared memory.
pub record SendAttempt : Type 0 where
  pub ready : Result Bool
  pub shm : RingShm

-- A turn of `send_async`: the attempts of its two `spin_send`s, what `snapshot` returns, and what
-- `wait_changed` returns.
pub record SendTurn : Type 0 where
  pub attempts : List SendAttempt
  pub observed : Result ℕ
  pub again : List SendAttempt
  pub woken : Result (Unit {0})

-- A turn of `recv_async`, with its looks.
pub record PeekTurn : Type 0 where
  pub looks : List RecvLook
  pub observed : Result ℕ
  pub again : List RecvLook
  pub woken : Result (Unit {0})

-- A turn of `drain_ready_with_spin`: its looks, and the shared memory at the commit.
pub record DrainTurn : Type 0 where
  pub looks : List RecvLook
  pub shm : RingShm

-- A turn of `recv_many_async`.
pub record ManyTurn : Type 0 where
  pub turns : List DrainTurn
  pub observed : Result ℕ
  pub again : List DrainTurn
  pub woken : Result (Unit {0})

-- The answer, if a drain has ended, with the messages handed out and the two states.
abbrev pub Drain : Type 0
Drain = Option (Result ℕ) × List Payload × RingReceiver × RingShm

unfoldable pub send_spin_count : ℕ → ℕ
send_spin_count spin_count = min spin_count 32

module _ (a : Area) where
  -- The attempts are `spin_count` and one more.
  unfoldable pub spin_send :
      Payload
      → List SendAttempt
      → RingSender
      → RingShm
      → Result TrySendResult × RingSender × RingShm
  spin_send payload [] s m = (ok full, s, m)
  spin_send payload (x ∷ rest) s m =
      let (result, s', m') = try_send_once a x.ready payload s x.shm in
      elim result [
        | err e ↦ (err e, s', m')
        | ok sent ↦ (ok sent, s', m')
        | ok full ↦ spin_send payload rest s' m'
      ]

  unfoldable pub send_async :
      Payload
      → List SendTurn
      → RingSender
      → RingShm
      → Option (Result (Unit {0})) × RingSender × RingShm
  unfolding spin_send
  send_async payload [] s m = (none, s, m)
  send_async payload (x ∷ rest) s m =
      let (result, s1, m1) = spin_send payload x.attempts s m in
      let (result', s2, m2) = spin_send payload x.again s1 m1 in
      elim result [
        | err e ↦ (some (err e), s1, m1)
        | ok sent ↦ (some (ok tt), s1, m1)
        | ok full ↦ elim x.observed [
          | err e ↦ (some (err e), s1, m1)
          | ok _ ↦ elim result' [
            | err e ↦ (some (err e), s2, m2)
            | ok sent ↦ (some (ok tt), s2, m2)
            | ok full ↦ elim x.woken [
              | err e ↦ (some (err e), s2, m2)
              | ok _ ↦ send_async payload rest s2 m2
            ]
          ]
        ]
      ]

  -- The looks are `spin_count` and one more.
  unfoldable pub spin_peek_or_closed : List RecvLook → RingReceiver → Look PeekedMessage
  spin_peek_or_closed [] r = ok none
  spin_peek_or_closed (x ∷ rest) r = elim (peek_look a r x) [
    | err e ↦ err e
    | ok (some message) ↦ ok (some message)
    | ok none ↦ spin_peek_or_closed rest r
  ]

  -- The loop that `recv_async` and `recv_into_async` share.
  unfoldable pub peek_async : List PeekTurn → RingReceiver → Option (Result PeekedMessage)
  unfolding spin_peek_or_closed
  peek_async [] r = none
  peek_async (x ∷ rest) r = elim (spin_peek_or_closed x.looks r) [
    | err e ↦ some (err e)
    | ok (some message) ↦ some (ok message)
    | ok none ↦ elim x.observed [
      | err e ↦ some (err e)
      | ok _ ↦ elim (spin_peek_or_closed x.again r) [
        | err e ↦ some (err e)
        | ok (some message) ↦ some (ok message)
        | ok none ↦ elim x.woken [ err e ↦ some (err e) | ok _ ↦ peek_async rest r ]
      ]
    ]
  ]

  -- `commit_message_to_vec` and `commit_message_into`
  abbrev pub commit_message_to_vec :
      PeekedMessage → RingReceiver → RingShm → Result (List ℕ) × RingReceiver × RingShm
  commit_message_to_vec message r m = take_message a message r m

  abbrev pub commit_message_into :
      PeekedMessage → List ℕ → RingReceiver → RingShm → List ℕ × (Result ℕ × RingReceiver × RingShm)
  commit_message_into message buf r m = take_message_into a message buf r m

  -- An error ends a drain quietly if the channel is over and something has been drained.
  unfoldable pub drain_error : Error → List Payload → Result ℕ
  drain_error e [] = err e
  drain_error e (p ∷ got) = if is_end e then ok (length (p ∷ got)) else err e

  -- `out.push(commit_message_to_vec(receiver, message)?)`, and the next turn.
  unfoldable pub after_commit :
      (next : List Payload → RingReceiver → RingShm → Drain)
      → (got : List Payload) → Result (List ℕ) × RingReceiver × RingShm
      → Drain
  after_commit next got (err e, r, m) = (some (err e), got, r, m)
  after_commit next got (ok buf, r, m) = next (got ++ (buf ∷ [])) r m

  -- `drain_ready_with_spin`, with room for `left` more messages, after `got`.
  unfoldable pub drain_from :
      (left : ℕ) → List DrainTurn → (got : List Payload) → RingReceiver → RingShm → Drain
  unfolding spin_peek_or_closed drain_error after_commit
  drain_from zero turns got r m = (some (ok (length got)), got, r, m)
  drain_from (suc left) [] got r m = (none, got, r, m)
  drain_from (suc left) (x ∷ turns) got r m = elim (spin_peek_or_closed x.looks r) [
    | err e ↦ (some (drain_error e got), got, r, m)
    | ok none ↦ (some (ok (length got)), got, r, m)
    | ok (some message) ↦
        after_commit (λ got' r' m'. drain_from left turns got' r' m') got
          (commit_message_to_vec message r x.shm)
  ]

  unfoldable pub drain_ready_with_spin :
      (max_messages : ℕ) → List DrainTurn → RingReceiver → RingShm → Drain
  unfolding drain_from
  drain_ready_with_spin max_messages turns r m = drain_from max_messages turns [] r m

  -- What `recv_many_async` appends to `out`, with its answer; both drains of a turn are tried
  -- before it waits.
  unfoldable pub recv_many_async :
      (max_messages : ℕ) → List ManyTurn → RingReceiver → RingShm → Drain
  unfolding drain_ready_with_spin
  recv_many_async max_messages [] r m = (if max_messages == 0 then some (ok 0) else none, [], r, m)
  recv_many_async max_messages (x ∷ rest) r m =
      let (answer, got, r1, m1) = drain_ready_with_spin max_messages x.turns r m in
      let (answer', got', r2, m2) = drain_ready_with_spin max_messages x.again r1 m1 in
      let waited = recv_many_async max_messages rest r2 m2 in
      if max_messages == 0 then (some (ok 0), [], r, m) else elim answer [
        | none ↦ (none, got, r1, m1)
        | some (err e) ↦ (some (err e), got, r1, m1)
        | some (ok (suc n)) ↦ (some (ok (suc n)), got, r1, m1)
        | some (ok zero) ↦ elim x.observed [
          | err e ↦ (some (err e), got, r1, m1)
          | ok _ ↦ elim answer' [
            | none ↦ (none, got', r2, m2)
            | some (err e) ↦ (some (err e), got', r2, m2)
            | some (ok (suc n)) ↦ (some (ok (suc n)), got', r2, m2)
            | some (ok zero) ↦ elim x.woken [ err e ↦ (some (err e), got', r2, m2) | ok _ ↦ waited ]
          ]
        ]
      ]
