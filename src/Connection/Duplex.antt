-- ===== src/Connection/Duplex.antt =====
-- A connection of src/connection.rs between its two processes: both rings of one mapping, used in
-- any order, against one bounded queue for each direction.
pub mod Alone
pub mod Links
pub mod Refines
pub mod Whole
use mathlib.Core.Path.{subst, subst⁻¹, ap₂}
use shmem_ipc.Base.{
  ℕ, ◌+◌, ◌-◌, ◌≤◌, ◌<◌, ◌^◌, ◌≡◌, ◌≢◌, refl, ◌∙◌, ap, sym, ◌⊎◌, inl, inr, Bool, true, false, List,
  [], ◌∷◌, Option, some, none, arith, ltb, ◌==◌, if◌then◌else◌, length, Bool-cases,
}
use native.Mathlib.Decide.{dec_lt}
use shmem_ipc.Error.{Error, Result, ok, err}
use shmem_ipc.Header.{global_header_size}
use shmem_ipc.Memory.{Memory}
use shmem_ipc.Ring.Area.{Area, IsArea}
use shmem_ipc.Ring.State.{RingShm, RingSender, RingReceiver, TrySendResult, sent, full}
use shmem_ipc.Ring.Sender.{message_size, try_send_once}
use shmem_ipc.Ring.Receiver.{try_recv, notify_writer}
use shmem_ipc.Ring.Framed.{Payload, frame_size}
use shmem_ipc.Ring.Queue
use shmem_ipc.Ring.Queue.{Queue}
use shmem_ipc.Ring.Linked.{Linked, Agree-Linked}
use shmem_ipc.Ring.Send.{SendsAs, try_send_once-refines, cached_wc-try_send_once}
use shmem_ipc.Ring.Racing.{try_recv-queued, try_recv-empty, try_recv_over}
use shmem_ipc.Ring.Run.{steady, RecvsAt, try_recv-refines, Linked-Unread}
use shmem_ipc.Ring.Blocking
use shmem_ipc.Ring.Blocking.{SendTurn, after_attempt, send_loop}
use shmem_ipc.Ring.Blocking.Waits.{send-sized}
use shmem_ipc.Shared.State.{Role, Mapping}
use shmem_ipc.Channel.{ChannelConfig, RingPlace, validate_config, from_shared}
use shmem_ipc.Channel.Rings.{other, Apart}
use shmem_ipc.Connection.{
  words_at, seen, words_of, stored, SendHalf, RecvHalf, into_connection, split, send, try_recv_half,
}
use shmem_ipc.Connection.Apart.{Outside, try_send_once-Outside, Apart-Agree}

-- A call of one of the two processes, with what `check_ready` returns in it. A send has a timeout,
-- in which nothing else happens.
pub data Call : Type 0 where
  sends : (by : Role) → Result Bool → Payload → Call
  receives : (by : Role) → Result Bool → Call

pub data Reply : Type 0 where
  sending : Option (Result (Unit {0})) → Reply
  receiving : Result (Option Payload) → Reply

-- Both processes' halves, and what they share.
pub record Pair : Type 0 where
  pub senders : Role → SendHalf
  pub receivers : Role → RecvHalf
  pub mapping : Mapping

abbrev pub set_role {ℓ} : {A : Type ℓ} → Role → A → (Role → A) → Role → A
set_role Role.server x f Role.server = x
set_role Role.server x f Role.client = f Role.client
set_role Role.client x f Role.server = f Role.server
set_role Role.client x f Role.client = x

abbrev pub alone : Result Bool → RingShm → SendTurn
alone ready m = record { ready = ready; shm = m; waited = err Error.timed_out }

unfoldable pub run : List Call → Pair → List Reply
run [] x = []
run (sends by ready p ∷ calls) x =
    let h = x.senders by in
    let (answer, h', m) = send p (alone ready (seen h.place x.mapping) ∷ []) h x.mapping in
    sending answer
    ∷ run calls
        (record { senders = set_role by h' x.senders; receivers = x.receivers; mapping = m })
run (receives by ready ∷ calls) x =
    let h = x.receivers by in
    let (answer, h', m) = try_recv_half ready (steady (seen h.place x.mapping)) h x.mapping in
    receiving answer
    ∷ run calls
        (record { senders = x.senders; receivers = set_role by h' x.receivers; mapping = m })

-- The specification: a send that finds no room times out.
unfoldable pub timed : Result TrySendResult → Result (Unit {0})
timed (ok sent) = ok tt
timed (ok full) = err Error.timed_out
timed (err e) = err e

unfoldable pub offer : Result Bool → ℕ → Payload → Queue → Result (Unit {0}) × Queue
unfolding timed
offer ready size p q =
    let (result, q') = Queue.send_when ready size p q in
    if ltb size (frame_size p)
    then (err (Error.message_too_large (length p) (size - 8)), q)
    else (timed result, q')

-- `queues` has what each role has sent and the other has not received.
unfoldable pub run_queues : ℕ → List Call → (queues : Role → Queue) → List Reply
run_queues size [] queues = []
run_queues size (sends by ready p ∷ calls) queues =
    let (result, q) = offer ready size p (queues by) in
    sending (some result) ∷ run_queues size calls (set_role by q queues)
run_queues size (receives by ready ∷ calls) queues =
    let (result, q) = Queue.recv_when ready (queues (other by)) in
    receiving result ∷ run_queues size calls (set_role (other by) q queues)

-- The bytes that the calls of a role can write.
abbrev pub sent_bytes : Role → List Call → ℕ
sent_bytes role [] = 0
sent_bytes Role.server (sends Role.server ready p ∷ calls) =
    frame_size p + sent_bytes Role.server calls
sent_bytes Role.client (sends Role.client ready p ∷ calls) =
    frame_size p + sent_bytes Role.client calls
sent_bytes role (_ ∷ calls) = sent_bytes role calls
