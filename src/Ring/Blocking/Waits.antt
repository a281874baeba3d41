-- ===== src/Ring/Blocking/Waits.antt =====
-- The waits of `send` and `recv` in src/ring.rs end with what was waited for.
use shmem_ipc.Base.{
  ℕ, ◌≤◌, ◌≡◌, refl, ◌∙◌, ap, Bool, true, List, [], ◌∷◌, ◌++◌, map, some, none, arith, length,
}
use shmem_ipc.Error.{ok}
use shmem_ipc.Ring.Area.{Area, IsArea}
use shmem_ipc.Ring.State.{RingShm, RingSender, RingReceiver, PeekedMessage, sent, full}
use shmem_ipc.Ring.Sender.{has_space, message_size, publish_message, send_sized, try_send_once}
use shmem_ipc.Ring.Receiver.{try_peek_or_closed, empty_or_closed}
use shmem_ipc.Ring.Framed.{Payload, frame_size}
use shmem_ipc.Ring.Queue.{Queue}
use shmem_ipc.Ring.Recv.{
  Unread, peeked, committed, released, take_message_lem, commit_current_message-Unread,
}
use shmem_ipc.Ring.Racing.{peek-first, peek-again, empty_or_closed-ok}
use shmem_ipc.Ring.Send.{try_send_once-fits}
use shmem_ipc.Wait.{Turn, spin_then_wait}
use shmem_ipc.Wait.Looks.{looks_of, first_settled, spin_then_wait-unlimited}
use shmem_ipc.Ring.Blocking.{
  SendTurn, space_look, Sent, after_attempt, send_loop, send, recv, RecvLook, peek_look,
}

module _ (a : Area) (p : Payload) (s : RingSender) where
  pub send-sized :
      (turns : List SendTurn) (m : RingShm)
      → frame_size p ≤ a.ring_data_size
      → send a p turns s m ≡ send_loop a p turns s m
  unfolding send message_size
  send-sized turns m fits = ground arith

  space-has_space :
      (wc msg_len rc : ℕ)
      → space_look a wc msg_len (ok true) rc ≡ ok (some rc)
      → has_space a (record s { cached_rc = rc }) wc msg_len ≡ true
  unfolding space_look has_space
  space-has_space wc msg_len rc h = ground (arith, h)

  try_send_once-space :
      (m : RingShm)
      → frame_size p ≤ a.ring_data_size
      → has_space a s s.cached_wc (frame_size p) ≡ true
      → try_send_once a (ok true) p s m
        ≡ (let (s', m') = publish_message a s s.cached_wc p m in (ok sent, s', m'))
  unfolding send_sized
  try_send_once-space m fits space = rw (try_send_once-fits a p s m fits, space) refl

module _ (a : Area) (p : Payload) (s : RingSender) {s' : RingSender} {m' : RingShm} where
  -- The turns of the loop, by the outcome of the attempt.
  turn-sent :
      (x : SendTurn) (rest : List SendTurn) (m : RingShm)
      → try_send_once a x.ready p s x.shm ≡ (ok sent, s', m')
      → send_loop a p (x ∷ rest) s m ≡ (some (ok tt), s', m')
  unfolding send_loop after_attempt
  turn-sent x rest m run = ap (after_attempt x.waited (λ s' m'. send_loop a p rest s' m')) run

  turn-full :
      (x : SendTurn) (rest : List SendTurn) (m : RingShm) {rc : ℕ}
      → try_send_once a x.ready p s x.shm ≡ (ok full, s', m')
      → x.waited ≡ ok rc
      → send_loop a p (x ∷ rest) s m ≡ send_loop a p rest (record s' { cached_rc = rc }) m'
  unfolding send_loop after_attempt
  turn-full x rest m run waited =
      let next : RingSender → RingShm → Sent = λ s' m'. send_loop a p rest s' m' in
      ap (after_attempt x.waited next) run ∙ ap (λ w. after_attempt w next (ok full, s', m')) waited

module _ (a : Area) (p : Payload) (s : RingSender) {s' : RingSender} {m' : RingShm} where
  -- If the ring is full at the first attempt of `send` and the wait then ends, because the
  -- condition has accepted a read cursor, the second attempt sends the message without looking at
  -- the read cursor again, provided that the channel is still ready: no second wait is needed.
  pub send_after_wait :
      (x y : SendTurn) (rest : List SendTurn) (m : RingShm) (rc : ℕ)
      → frame_size p ≤ a.ring_data_size
      → try_send_once a x.ready p s x.shm ≡ (ok full, s', m')
      → x.waited ≡ ok rc
      → space_look a s'.cached_wc (frame_size p) (ok true) rc ≡ ok (some rc)
      → y.ready ≡ ok true
      → send a p (x ∷ y ∷ rest) s m ≡ (
          let (s2, m2) = publish_message a (record s' { cached_rc = rc }) s'.cached_wc p y.shm in
          (some (ok tt), s2, m2))
  send_after_wait x y rest m rc fits full_once waited accepted ready =
      send-sized a p s (x ∷ y ∷ rest) m fits
      ∙ turn-full a p s x (y ∷ rest) m full_once waited
      ∙ second
    where
      s1 : RingSender
      s1 = record s' { cached_rc = rc }

      second :
          send_loop a p (y ∷ rest) s1 m'
          ≡ (let (s2, m2) = publish_message a s1 s1.cached_wc p y.shm in (some (ok tt), s2, m2))
      second = turn-sent a p s1 y rest m' (
          ap (λ b. try_send_once a b p s1 y.shm) ready
          ∙ try_send_once-space a p s1 y.shm fits
              (space-has_space a p s' s'.cached_wc (frame_size p) rc accepted))

-- Looks of a receiver that find the ring empty and the channel open.
abbrev pub Idle : Area → RingReceiver → List RecvLook → Type 0
Idle a r [] = Unit
Idle a r (x ∷ before) =
    (n : ℕ) × Unread a r x.views.first n [] × (b : Bool) × (x.ready ≡ ok b) × Idle a r before

-- A turn of the wait's second phase: the signal's snapshot, the look after it, the time, and the
-- look after the flag is raised, before the sleep.
pub record BlockingTurn : Type 0 where
  pub snapshot : ℕ
  pub first : RecvLook
  pub now : ℕ
  pub second : RecvLook

abbrev pub peek_turn : Area → RingReceiver → BlockingTurn → Turn PeekedMessage
peek_turn a r t = record {
  snapshot = t.snapshot;
  first = peek_look a r t.first;
  now = t.now;
  second = peek_look a r t.second;
}

abbrev pub looks_in : List BlockingTurn → List RecvLook
looks_in [] = []
looks_in (t ∷ turns) = t.first ∷ t.second ∷ looks_in turns

looks_in-turns :
    (a : Area) (r : RingReceiver) (turns : List BlockingTurn)
    → looks_of (map (peek_turn a r) turns) ≡ map (peek_look a r) (looks_in turns)
looks_in-turns a r [] = refl
looks_in-turns a r (t ∷ turns) = rw (looks_in-turns a r turns) refl

looks-phases :
    (a : Area) (r : RingReceiver) (spins : List RecvLook) (turns : List BlockingTurn)
    → map (peek_look a r) spins ++ looks_of (map (peek_turn a r) turns)
      ≡ map (peek_look a r) (spins ++ looks_in turns)
looks-phases a r [] turns = looks_in-turns a r turns
looks-phases a r (x ∷ spins) turns = rw (looks-phases a r spins turns) refl

module _ {a : Area} (v : IsArea a) {r : RingReceiver} {p : Payload} where
  settles_on :
      (before : List RecvLook) (x : RecvLook) (after : List RecvLook) {n : ℕ} {q : Queue}
      → Idle a r before
      → Unread a r x.views.first n (p ∷ q)
      → first_settled (map (peek_look a r) (before ++ (x ∷ after))) ≡ some (ok (peeked r p))
  settles_on [] x after idle u = rw (peek-first v x.views x.ready u) refl
  settles_on (y ∷ before) x after (n, empty, b, ready, idle) u =
      let none_yet : try_peek_or_closed a y.ready r y.views ≡ ok none =
        peek-again v y.views y.ready empty
        ∙ ap (λ c. empty_or_closed a c r y.views.again) ready
        ∙ empty_or_closed-ok a b r y.views.again in
      rw none_yet (settles_on before x after idle u)

  -- `recv` without a timeout: take the looks of both phases of its wait in order, those of the
  -- spinning phase and the two of each turn that may sleep between them. If some of them find the
  -- ring empty and the channel open, and the next one, in whichever phase, finds messages, then the
  -- wait returns the oldest message's place, and the call returns that message and leaves the rest
  -- of those that are there when it copies.
  pub recv_waits :
      (spins : List RecvLook) (turns : List BlockingTurn) (parked : ℕ) (before : List RecvLook)
      (x : RecvLook) (after : List RecvLook) (m : RingShm) {n next : ℕ} {q q' : Queue}
      → spins ++ looks_in turns ≡ before ++ (x ∷ after)
      → Idle a r before
      → Unread a r x.views.first n (p ∷ q)
      → Unread a r m next (p ∷ q')
      → let waited =
          spin_then_wait
            (length (map (peek_look a r) spins))
            none
            (map (peek_look a r) spins)
            (map (peek_turn a r) turns)
            parked in
        (message : PeekedMessage) × (waited.answer ≡ some (ok message))
        × (recv a (ok message) r m ≡ (ok p, committed r p, released r p m))
        × Unread a (committed r p) (released r p m) next q'
  unfolding recv
  recv_waits spins turns parked before x after m looks idle u last = (
    peeked r p,
    spin_then_wait-unlimited (map (peek_look a r) spins) (map (peek_turn a r) turns) parked
        ∙ ap first_settled (looks-phases a r spins turns)
        ∙ ap (λ all. first_settled (map (peek_look a r) all)) looks
        ∙ settles_on before x after idle u,
    take_message_lem v last,
    (commit_current_message-Unread v last).1,
  )
