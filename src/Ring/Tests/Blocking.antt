-- ===== src/Ring/Tests/Blocking.antt =====
-- The theorems on the blocking operations of src/ring.rs at concrete inputs.
use shmem_ipc.Base.{◌≡◌, refl, true, [], ◌∷◌, map, some, none, arith}
use shmem_ipc.Error.{ok}
use shmem_ipc.Ring.State.{RingSender, PeekedMessage, full, new_receiver}
use shmem_ipc.Ring.Sender.{has_space, message_size, send_sized, publish_message, try_send_once}
use shmem_ipc.Ring.Recv.{Unread, committed, released}
use shmem_ipc.Ring.Run.{steady, Linked-Unread}
use shmem_ipc.Ring.Blocking.{SendTurn, space_look, send, recv, RecvLook, peek_look}
use shmem_ipc.Ring.Blocking.Waits.{BlockingTurn, peek_turn, send_after_wait, recv_waits}
use shmem_ipc.Ring.Tests.{area, area-IsArea, blank, hello, after_hello, fresh-Linked, hello-Linked}
use shmem_ipc.Wait.{spin_then_wait}

-- A sender with four bytes left.
abbrev tight : RingSender
tight = record { next_seq = 3; cached_wc = 60; cached_rc = 0 }

abbrev turn : SendTurn
turn = record { ready = ok true; shm = blank; waited = ok 60 }

tight_full : try_send_once area (ok true) hello tight blank ≡ (ok full, tight, blank)
unfolding try_send_once message_size send_sized has_space
tight_full = refl

sixty_free : space_look area 60 13 (ok true) 60 ≡ ok (some 60)
unfolding space_look
sixty_free = refl

send_after_wait_example : send area hello (turn ∷ turn ∷ []) tight blank ≡ (
    let (s2, m2) = publish_message area (record tight { cached_rc = 60 }) 60 hello blank in
    (some (ok tt), s2, m2))
send_after_wait_example =
    send_after_wait area hello tight turn turn [] blank 60 (omega arith) tight_full refl sixty_free
      refl

abbrev idle_look : RecvLook
idle_look = record { ready = ok true; views = steady blank }

abbrev ready_look : RecvLook
ready_look = record { ready = ok true; views = steady after_hello.1 }

-- The message arrives between the two looks of the turn that would sleep.
abbrev last_turn : BlockingTurn
last_turn = record { snapshot = 4; first = idle_look; now = 0; second = ready_look }

recv_waits_example :
    let spins = map (peek_look area new_receiver) (idle_look ∷ []) in
    let waited =
      spin_then_wait 1 none spins (map (peek_turn area new_receiver) (last_turn ∷ [])) 0 in
    (message : PeekedMessage) × (waited.answer ≡ some (ok message))
    × (recv area (ok message) new_receiver after_hello.1
        ≡ (ok hello, committed new_receiver hello, released new_receiver hello after_hello.1))
    × Unread area
        (committed new_receiver hello)
        (released new_receiver hello after_hello.1)
        after_hello.0.next_seq
        []
recv_waits_example =
    let empty = Linked-Unread fresh-Linked in
    recv_waits area-IsArea (idle_look ∷ []) (last_turn ∷ []) 0 (idle_look ∷ idle_look ∷ [])
      ready_look [] after_hello.1 refl (_, empty, true, refl, (_, empty, true, refl, tt))
      (Linked-Unread hello-Linked) (Linked-Unread hello-Linked)
