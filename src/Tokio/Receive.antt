-- ===== src/Tokio/Receive.antt =====
-- `recv_async` and `recv_into_async` of src/tokio/mod.rs beside `recv` and `recv_into` of
-- src/ring.rs.
use shmem_ipc.Base.{ℕ, ◌≡◌, List, [], ◌∷◌, ◌++◌, Option, some, none}
use shmem_ipc.Error.{Result, ok, err}
use shmem_ipc.Ring.Area.{Area}
use shmem_ipc.Ring.State.{RingShm, RingReceiver, PeekedMessage}
use shmem_ipc.Ring.Blocking.{RecvLook, recv, recv_into}
use shmem_ipc.Tokio.{PeekTurn, peek_async, commit_message_to_vec, commit_message_into}
use shmem_ipc.Wait.{Look}

module _ (a : Area) where
  -- What follows the peeking loop, in each of the two calls.
  unfoldable pub commit_to_vec :
      Option (Result PeekedMessage)
      → RingReceiver
      → RingShm
      → Option (Result (List ℕ)) × RingReceiver × RingShm
  commit_to_vec none r m = (none, r, m)
  commit_to_vec (some (err e)) r m = (some (err e), r, m)
  commit_to_vec (some (ok message)) r m =
      let (result, r', m') = commit_message_to_vec a message r m in (some result, r', m')

  unfoldable pub commit_into :
      Option (Result PeekedMessage)
      → List ℕ
      → RingReceiver
      → RingShm
      → List ℕ × (Option (Result ℕ) × RingReceiver × RingShm)
  commit_into none buf r m = (buf, (none, r, m))
  commit_into (some (err e)) buf r m = (buf, (some (err e), r, m))
  commit_into (some (ok message)) buf r m =
      let (buf', (result, r', m')) = commit_message_into a message buf r m in
      (buf', (some result, r', m'))

  unfoldable pub recv_async :
      List PeekTurn → RingReceiver → RingShm → Option (Result (List ℕ)) × RingReceiver × RingShm
  unfolding peek_async commit_to_vec
  recv_async turns r m = commit_to_vec (peek_async a turns r) r m

  unfoldable pub recv_into_async :
      List PeekTurn
      → List ℕ
      → RingReceiver
      → RingShm
      → List ℕ × (Option (Result ℕ) × RingReceiver × RingShm)
  unfolding peek_async commit_into
  recv_into_async turns buf r m = commit_into (peek_async a turns r) buf r m

  -- The blocking calls, with what their wait answers.
  abbrev pub recv_after :
      Option (Result PeekedMessage)
      → RingReceiver
      → RingShm
      → Option (Result (List ℕ)) × RingReceiver × RingShm
  recv_after none r m = (none, r, m)
  recv_after (some waited) r m = let (result, r', m') = recv a waited r m in (some result, r', m')

  abbrev pub recv_into_after :
      Option (Result PeekedMessage)
      → List ℕ
      → RingReceiver
      → RingShm
      → List ℕ × (Option (Result ℕ) × RingReceiver × RingShm)
  recv_into_after none buf r m = (buf, (none, r, m))
  recv_into_after (some waited) buf r m =
      let (buf', (result, r', m')) = recv_into a waited buf r m in (buf', (some result, r', m'))

-- No snapshot and no wait of the turns fails.
pub data GoesOn : List PeekTurn → Type 0 where
  no_turn : GoesOn []
  turn :
      {x : PeekTurn} {rest : List PeekTurn} {observed : ℕ}
      → x.observed ≡ ok observed
      → x.woken ≡ ok tt
      → GoesOn rest
      → GoesOn (x ∷ rest)

-- All looks of the turns, in order.
abbrev pub looks_of : List PeekTurn → List RecvLook
looks_of [] = []
looks_of (x ∷ rest) = x.looks ++ (x.again ++ looks_of rest)

-- What a loop goes on with after a look has answered, and what it answers otherwise.
or_else : {A : Type 0} → Look A → Option (Result A) → Option (Result A)
or_else (err e) rest = some (err e)
or_else (ok (some v)) rest = some (ok v)
or_else (ok none) rest = rest
