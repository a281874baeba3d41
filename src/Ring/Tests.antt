-- ===== src/Ring/Tests.antt =====
-- Runs of the model of src/ring.rs on a ring of 64 bytes, and the theorems at such inputs.
mod Blocking
use shmem_ipc.Base.{
  ℕ, ◌+◌, ◌≤◌, ◌<◌, ◌≡◌, ◌≢◌, refl, true, ◌⊎◌, List, [], ◌∷◌, ◌++◌, some, arith, length,
}
use shmem_ipc.Error.{Error, ok, err}
use shmem_ipc.Memory.{copy_in, copy_out}
use shmem_ipc.Ring.Area.{Area, IsArea, write_ring, read_ring, window}
use shmem_ipc.Ring.Encoding.{to_le_bytes, from_le_bytes}
use shmem_ipc.Ring.Window.{read_ring-eq-window, read_ring-write_ring}
use shmem_ipc.Ring.State.{RingShm, RingSender, new_sender, new_receiver, sent, full}
use shmem_ipc.Ring.Sender.{
  try_send_once, publish_message, notify_reader, has_space, store_write_cursor,
}
use shmem_ipc.Ring.Receiver.{
  Views, peek_below, take_message_into, store_read_cursor, try_recv, take_peeked, take_message,
  copy_current_message, commit_current_message, validate_seq, notify_writer, zeroed,
  try_peek_or_closed, empty_or_closed, look_again, try_peek_message, read_msg_header,
}
use shmem_ipc.Ring.Framed.{Payload, done, frame_sizes}
use shmem_ipc.Ring.Queue
use shmem_ipc.Ring.Queue.{Queue}
use shmem_ipc.Ring.Recv.{peeked, committed, released, take_message_into_lem}
use shmem_ipc.Ring.Racing.{RecvsAs, try_recv-racing}
use shmem_ipc.Ring.Linked.{Linked, publish_message-Linked}
use shmem_ipc.Ring.Send.{SendsAs, try_send_once-refines}
use shmem_ipc.Ring.Run.{
  Call, send, recv, sending, receiving, Ring, run, run_queue, run-refines, Linked-Unread,
}
use shmem_ipc.Ring.Steps.{
  failed, System, SendPc, begin_send, sender_step, receiver_step, call, sends, receives,
  fresh_header, start, Reach, started, called, sent, received,
}
use shmem_ipc.Ring.Steps.Fifo.{delivered_in_order}
use shmem_ipc.Ring.Steps.Alone.{sender_steps, sender_steps-Linked}

abbrev pub area : Area
area = record { data_offset = 384; ring_data_size = 64; ring_mask = 63 }

pub area-IsArea : IsArea area
area-IsArea = record {
  log = 6;
  power = refl;
  mask = refl;
  large = omega arith;
  small = omega arith;
}

abbrev pub blank : RingShm
blank = record { mem = λ _. 0; header = fresh_header; writer_wakes = 0; reader_wakes = 0 }

abbrev fresh : Ring
fresh = record { sender = new_sender; receiver = new_receiver; shm = blank }

pub fresh-Linked : Linked area new_sender new_receiver blank []
fresh-Linked = record {
  queued = done refl refl;
  wrote = refl;
  freed = refl;
  behind = omega arith;
  room = omega arith;
  no_wrap = omega arith;
  word = omega arith;
}

abbrev pub hello : Payload
hello = 104 ∷ 101 ∷ 108 ∷ 108 ∷ 111 ∷ []

abbrev twenty : Payload
twenty =
    1 ∷ 2 ∷ 3 ∷ 4 ∷ 5 ∷ 6 ∷ 7 ∷ 8 ∷ 9 ∷ 10 ∷ 11 ∷ 12 ∷ 13 ∷ 14 ∷ 15 ∷ 16 ∷ 17 ∷ 18 ∷ 19 ∷ 20 ∷ []

-- The third frame goes round the end of the area, and the fourth does not fit yet.
abbrev script : List Call
script =
    send (ok true) hello
    ∷ send (ok true) twenty
    ∷ recv (ok true)
    ∷ send (ok true) twenty
    ∷ send (ok true) twenty
    ∷ recv (ok true)
    ∷ recv (err Error.channel_closed)
    ∷ recv (err Error.channel_closed)
    ∷ []

script_answers :
    run area script fresh
    ≡ sending (ok sent)
      ∷ sending (ok sent)
      ∷ receiving (ok (some hello))
      ∷ sending (ok sent)
      ∷ sending (ok full)
      ∷ receiving (ok (some twenty))
      ∷ receiving (ok (some twenty))
      ∷ receiving (err Error.channel_closed)
      ∷ []
unfolding run try_send_once try_recv take_peeked take_message copy_current_message
    commit_current_message validate_seq notify_writer zeroed try_peek_or_closed empty_or_closed
    look_again try_peek_message read_msg_header write_ring read_ring copy_in copy_out to_le_bytes
    from_le_bytes notify_reader
script_answers = refl

run-refines_example : run area script fresh ≡ run_queue 64 script []
run-refines_example = run-refines script area-IsArea fresh-Linked (omega arith)

-- The state after the first message.
abbrev pub after_hello : RingSender × RingShm
after_hello = publish_message area new_sender 0 hello blank

pub hello-Linked : Linked area after_hello.0 new_receiver after_hello.1 (hello ∷ [])
hello-Linked =
    publish_message-Linked area-IsArea fresh-Linked hello
      (record { fits = omega arith; free = omega arith; counted = omega arith })

try_send_once-refines_example :
    SendsAs area new_receiver
      (try_send_once area (ok true) hello new_sender blank)
      (Queue.send_when (ok true) 64 hello [])
try_send_once-refines_example =
    try_send_once-refines area-IsArea fresh-Linked hello (ok true) (omega arith)

-- The channel is closed after the first look, and after the message has been published.
abbrev closing : Views
closing = record { first = blank; again = after_hello.1; last = after_hello.1 }

try_recv-racing_example :
    RecvsAs area after_hello.0.next_seq
      (try_recv area (err Error.channel_closed) new_receiver closing)
      (Queue.recv_racing (err Error.channel_closed) [] (hello ∷ []) [])
try_recv-racing_example =
    try_recv-racing area-IsArea closing (err Error.channel_closed) [] (hello ∷ []) []
      (Linked-Unread fresh-Linked) (Linked-Unread hello-Linked) (Linked-Unread hello-Linked)

-- A buffer of three bytes is too short for the message of five, which is then dropped.
take_message_into_lem_example :
    take_message_into area (peeked new_receiver hello) (0 ∷ 0 ∷ 0 ∷ []) new_receiver after_hello.1
    ≡ (
      0 ∷ 0 ∷ 0 ∷ [],
      (
        err (Error.message_too_large 5 3),
        committed new_receiver hello,
        released new_receiver hello after_hello.1,
      ),
    )
take_message_into_lem_example =
    take_message_into_lem area-IsArea (Linked-Unread hello-Linked) (0 ∷ 0 ∷ 0 ∷ [])

-- Four bytes at cursor 62 go round the end.
abbrev four : List ℕ
four = 5 ∷ 6 ∷ 7 ∷ 8 ∷ []

read_ring-write_ring_example :
    (read_ring area 62 4 (write_ring area 62 four blank.mem) ≡ four)
    × ((d n : ℕ)
        → d + n ≤ 62
        → 62 + length four ≤ d + 64
        → read_ring area d n (write_ring area 62 four blank.mem) ≡ read_ring area d n blank.mem)
    × ((x : ℕ) → (x < 384) ⊎ (384 + 64 ≤ x) → write_ring area 62 four blank.mem x ≡ blank.mem x)
read_ring-write_ring_example = read_ring-write_ring area-IsArea 62 four blank.mem (omega arith)

sender_steps-Linked_example :
    let (pc, s', m') = sender_steps area 6 (begin_send area hello new_sender) new_sender blank in
    (pc ≡ SendPc.idle) × Linked area s' new_receiver m' (Queue.send_when (ok true) 64 hello []).1
sender_steps-Linked_example = sender_steps-Linked area-IsArea fresh-Linked hello (omega arith)

-- The receiver looks while the sender is writing, and again afterwards.
abbrev started_ring : System
started_ring = receives area (sends area (call area hello (start blank.mem)))

abbrev played : System
played = receives area (
    receives area (
      receives area (
        receives area
          (receives area (sends area (sends area (sends area (sends area started_ring))))))))

played-Reach : Reach area played
played-Reach = received (
    received (
      received (
        received (
          received (
            sent (
              sent (
                sent (
                  sent
                    (received (sent (called hello (started blank.mem) refl (omega arith))))))))))))

delivered_in_order_example :
    (q : Queue) × (played.sent ≡ played.delivered ++ q)
    × (frame_sizes q ≤ 64)
    × ((e : Error) → played.recv_pc ≢ failed e)
delivered_in_order_example = delivered_in_order area-IsArea played-Reach

played_delivers : played.delivered ≡ hello ∷ []
unfolding call sends receives begin_send sender_step receiver_step validate_seq peek_below
    notify_writer read_msg_header write_ring read_ring copy_in copy_out to_le_bytes from_le_bytes
    notify_reader has_space store_write_cursor store_read_cursor
played_delivers = refl
