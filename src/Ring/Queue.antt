-- ===== src/Ring/Queue.antt =====
-- What a ring promises: a first-in first-out queue of whole messages, bounded by the bytes that
-- their frames take. This is the specification that the modules below src/ring.rs's model meet.
use shmem_ipc.Base.{
  ℕ, ◌+◌, ◌-◌, ◌≤◌, ◌<◌, ◌≡◌, arith, Bool, true, false, Option, none, some, List, [], ◌∷◌, ◌++◌,
  ltb, if◌then◌else◌, length,
}
use shmem_ipc.Error.{Error, Result, ok, err}
use shmem_ipc.Ring.State.{TrySendResult, sent, full}
use shmem_ipc.Ring.Framed.{Payload, frame_size, frame_sizes}

abbrev pub Queue : Type 0
Queue = List Payload

unfoldable pub send : ℕ → Payload → Queue → Result TrySendResult × Queue
send size p q =
    if ltb size (frame_size p)
    then (err (Error.message_too_large (length p) (size - 8)), q)
    else if ltb size (frame_sizes q + frame_size p)
    then (ok full, q)
    else (ok sent, q ++ (p ∷ []))

-- With what `check_ready` returned: a channel that is closed or not connected yet sends nothing.
unfoldable pub send_when : Result Bool → ℕ → Payload → Queue → Result TrySendResult × Queue
send_when (err e) size p q = (err e, q)
send_when (ok false) size p q = (ok full, q)
send_when (ok true) size p q = send size p q

-- A receiving call: a queued message comes out whatever the channel's state; only an empty queue
-- shows whether the channel is closed.
unfoldable pub recv_when : Result Bool → Queue → Result (Option Payload) × Queue
recv_when check_ready (p ∷ q) = (ok (some p), q)
recv_when (ok _) [] = (ok none, [])
recv_when (err e) [] = (err e, [])

-- The errors after which a receiver looks at the ring once more.
unfoldable pub is_end : Error → Bool
is_end Error.channel_closed = true
is_end Error.peer_disconnected = true
is_end _ = false

-- The same where the sender may go on meanwhile: `seen` is queued at the first look, `more` is
-- published before the second, and `late` before the message is taken.
unfoldable pub recv_racing :
    Result Bool → (seen more late : Queue) → Result (Option Payload) × Queue
recv_racing check_ready (p ∷ seen) more late = (ok (some p), (seen ++ more) ++ late)
recv_racing (ok _) [] more late = (ok none, more ++ late)
recv_racing (err e) [] [] late = (err e, late)
recv_racing (err e) [] (p ∷ more) late =
    if is_end e then (ok (some p), more ++ late) else (err e, p ∷ more ++ late)

pub send_too_large :
    (size : ℕ) (p : Payload) (q : Queue)
    → size < frame_size p
    → send size p q ≡ (err (Error.message_too_large (length p) (size - 8)), q)
unfolding send
send_too_large size p q h = ground arith

pub send_full :
    (size : ℕ) (p : Payload) (q : Queue)
    → frame_size p ≤ size
    → size < frame_sizes q + frame_size p
    → send size p q ≡ (ok full, q)
unfolding send
send_full size p q fits h = ground arith

pub send_sent :
    (size : ℕ) (p : Payload) (q : Queue)
    → frame_sizes q + frame_size p ≤ size
    → send size p q ≡ (ok sent, q ++ (p ∷ []))
unfolding send
send_sent size p q h = ground arith
