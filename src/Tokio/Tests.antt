-- ===== src/Tokio/Tests.antt =====
-- The theorems on src/tokio/mod.rs and src/tokio/listener.rs at concrete inputs.
use shmem_ipc.Base.Digits.{decimal}
use shmem_ipc.Platform.{ProcessIdentity, ProcessStat, current_identity}
use shmem_ipc.Channel.{default_config}
use shmem_ipc.Listener.{Listener, conn_name, is_utf8, handshake}
use shmem_ipc.Listener.Connect.{Opens, opener, connect}
use shmem_ipc.Tokio.Listener.{finish_accept, refused_yet, connect_async}
use shmem_ipc.Tokio.Meet.{Early, no_more, one_more, connect-handshake}
use shmem_ipc.Base.{
  ℕ, ◌+◌, ◌<◌, ◌^◌, List, ◌++◌, arith, length, ◌≡◌, refl, ◌∙◌, true, [], ◌∷◌, some, none, take,
}
use shmem_ipc.Error.{Error, IoError, Result, ok, err}
use shmem_ipc.Ring.Area.{Area}
use shmem_ipc.Ring.State.{RingShm, RingReceiver, PeekedMessage, new_receiver}
use shmem_ipc.Ring.Recv.{Unread, committed, released, commit_current_message-Unread}
use shmem_ipc.Ring.Racing.{peek-first, peek-again, empty_or_closed-ok}
use shmem_ipc.Ring.Run.{steady, Linked-Unread}
use shmem_ipc.Ring.Blocking.{RecvLook, peek_look}
use shmem_ipc.Ring.Tests.{area, area-IsArea, blank, hello, after_hello, hello-Linked, fresh-Linked}
use shmem_ipc.Tokio.Many.{Meets, at_second, dry_turn, Counted, recv_many_async-Counted}
use shmem_ipc.Tokio.{
  ManyTurn, recv_many_async, PeekTurn, peek_async, DrainTurn, spin_peek_or_closed,
}
use shmem_ipc.Tokio.InOrder.{Feeds, dry, feed}
use shmem_ipc.Wait.{Look}
use shmem_ipc.Ring.Area.{write_ring, read_ring}
use shmem_ipc.Memory.{copy_in, copy_out}
use shmem_ipc.Ring.Encoding.{to_le_bytes, from_le_bytes}
use shmem_ipc.Ring.Sender.{publish_message, notify_reader}
use shmem_ipc.Ring.Receiver.{
  take_message, copy_current_message, commit_current_message, validate_seq, notify_writer, zeroed,
  try_peek_or_closed, empty_or_closed, look_again, try_peek_message, read_msg_header,
}
use shmem_ipc.Tokio.Receive.{recv_async}

abbrev look : RecvLook
look = record { ready = ok true; views = steady after_hello.1 }

abbrev drain_turn : DrainTurn
drain_turn = record { looks = look ∷ []; shm = after_hello.1 }

one_look :
    (a : Area) (x : RecvLook) (r : RingReceiver) {l : Look PeekedMessage}
    → peek_look a r x ≡ l
    → spin_peek_or_closed a (x ∷ []) r ≡ l
unfolding spin_peek_or_closed
one_look a x r {l = err e} h = rw (h, spin_peek_or_closed) refl
one_look a x r {l = ok none} h = rw (h, spin_peek_or_closed) refl
one_look a x r {l = ok (some message)} h = rw (h, spin_peek_or_closed) refl

hello-Unread : Unread area new_receiver after_hello.1 after_hello.0.next_seq (hello ∷ [])
hello-Unread = Linked-Unread hello-Linked

-- The second look comes after the first message's commit.
abbrev after_commit : RingShm
after_commit = released new_receiver hello after_hello.1

abbrev second_look : RecvLook
second_look = record { ready = ok true; views = steady after_commit }

abbrev turn_again : DrainTurn
turn_again = record { looks = second_look ∷ []; shm = after_commit }

rest-Unread : Unread area (committed new_receiver hello) after_commit after_hello.0.next_seq []
rest-Unread = (commit_current_message-Unread area-IsArea hello-Unread).1

-- One message, and then none.
hello-Feeds : Feeds area new_receiver (drain_turn ∷ turn_again ∷ []) (hello ∷ [])
hello-Feeds =
    feed
      (one_look area look new_receiver
        (peek-first area-IsArea (steady after_hello.1) (ok true) hello-Unread))
      hello-Unread
      (dry (
        one_look area second_look (committed new_receiver hello) (
          peek-again area-IsArea (steady after_commit) (ok true) rest-Unread
          ∙ empty_or_closed-ok area true (committed new_receiver hello) after_commit)))

-- The first connection of the listener "a", with the incarnation "4".
abbrev a_listener : Listener
a_listener = record { name = 97 ∷ []; incarnation = 52 ∷ []; counter = 0 }

a_short : length (conn_name a_listener) < 2 ^ 16
unfolding conn_name decimal
a_short = omega arith

a_utf8 : is_utf8 (conn_name a_listener) ≡ true
unfolding conn_name decimal is_utf8
a_utf8 = refl

abbrev stat_of_four : ProcessStat
stat_of_four pid = ok (40, true)

abbrev four : ProcessIdentity
four = record { pid = 4; birth = 40 }

known_four : current_identity stat_of_four 4 ≡ ok four
unfolding current_identity
known_four = refl

not_there :
    Early refused_yet
      (0 + default_config.connect_timeout)
      ((err (Error.io IoError.not_found), 5) ∷ [])
unfolding refused_yet
not_there = one_more refl (omega arith) no_more

-- A channel that is its name.
abbrev by_name : List ℕ → Result (List ℕ)
by_name name = ok name

abbrev attempts : List (Result (List ℕ) × ℕ)
attempts =
    ((err (Error.io IoError.not_found), 5) ∷ [])
    ++ ((ok ((handshake by_name (ok tt) a_listener).2 ++ []), 9) ∷ [])

abbrev no_opens : List ℕ → Opens
no_opens name = record { now = 9; turns = [] }

connect-handshake_example :
    ((handshake by_name (ok tt) a_listener).0 ≡ ok (conn_name a_listener))
    × (finish_accept by_name (ok tt) a_listener ≡ handshake by_name (ok tt) a_listener)
    × (connect stat_of_four 4 0 default_config attempts no_opens
        ≡ opener stat_of_four 4 0 default_config no_opens (conn_name a_listener))
    × (connect_async stat_of_four 4 default_config refused_yet 0 attempts no_opens
        ≡ opener stat_of_four 4 0 default_config no_opens (conn_name a_listener))
connect-handshake_example =
    connect-handshake stat_of_four 4 0 default_config by_name a_listener refused_yet [] 9 []
      no_opens known_four refl not_there a_short a_utf8

-- A receive that finds no message in its first spin, and one in the second.
abbrev idle_look : RecvLook
idle_look = record { ready = ok true; views = steady blank }

abbrev peek_turns : List PeekTurn
peek_turns =
    record { looks = idle_look ∷ idle_look ∷ []; observed = ok 0; again = look ∷ []; woken = ok tt }
    ∷ []

recv_async_answers : (recv_async area peek_turns new_receiver after_hello.1).0 ≡ some (ok hello)
unfolding recv_async peek_async spin_peek_or_closed try_peek_or_closed empty_or_closed look_again
    try_peek_message read_msg_header read_ring write_ring copy_in copy_out to_le_bytes from_le_bytes
    take_message copy_current_message commit_current_message validate_seq notify_writer zeroed
    publish_message notify_reader
recv_async_answers = refl

-- A turn whose first drain finds nothing, and whose second one the message.
abbrev many_turns : List ManyTurn
many_turns =
    record {
      turns = record { looks = idle_look ∷ []; shm = blank } ∷ [];
      observed = ok 0;
      again = drain_turn ∷ turn_again ∷ [];
      woken = ok tt;
    }
    ∷ []

many_turns-Meets : Meets area new_receiver many_turns (hello ∷ [])
many_turns-Meets =
    at_second
      (dry_turn (
        one_look area idle_look new_receiver (
          peek-again area-IsArea (steady blank) (ok true) (Linked-Unread fresh-Linked)
          ∙ empty_or_closed-ok area true new_receiver blank)))
      refl hello-Feeds

recv_many_async-Counted_example :
    Counted (take 8 (hello ∷ [])) (recv_many_async area 8 many_turns new_receiver blank)
recv_many_async-Counted_example = recv_many_async-Counted area-IsArea 7 blank many_turns-Meets
