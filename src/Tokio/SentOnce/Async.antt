-- ===== src/Tokio/SentOnce/Async.antt =====
-- `send_async` of src/tokio/mod.rs over its turns.
use shmem_ipc.Base.{
  ℕ, ◌+◌, ◌^◌, ◌<◌, ◌≡◌, refl, Bool, true, false, List, [], ◌∷◌, ◌++◌, Option, some, none,
}
use mathlib.Core.Path.{subst}
use shmem_ipc.Error.{Error, Result, ok, err}
use shmem_ipc.Ring.Area.{Area, IsArea}
use shmem_ipc.Ring.State.{RingShm, RingSender, TrySendResult, sent, full}
use shmem_ipc.Ring.Framed.{Payload, frame_size}
use shmem_ipc.Tokio.{SendAttempt, SendTurn, spin_send, send_async}
use shmem_ipc.Tokio.SentOnce.{Finds, by_call, Once, kept, went, attempts_of, Once-then, Once-more}
use shmem_ipc.Tokio.SentOnce.Spins.{
  Spun, is_sent, is_full, is_err, Sent-cases, full-false, spin_send-Spun,
}

-- The answers of `send_async` that tell that the message is sent.
unfoldable pub answers_sent : Option (Result (Unit {0})) → Bool
answers_sent none = false
answers_sent (some (ok _)) = true
answers_sent (some (err e)) = false

abbrev Answer : Type 0
Answer = Option (Result (Unit {0})) × RingSender × RingShm

abbrev Ends : (a : Area) (p : Payload) → RingSender → RingShm → List SendAttempt → Answer → Type 0
Ends a p s m xs out = Once a p s m xs (answers_sent out.0) out.1 out.2

module _ (a : Area) (p : Payload) (rest : List SendTurn) where
  -- A turn after its second spin, that ends with `out`.
  abbrev after_second : Result TrySendResult → Result (Unit {0}) → RingSender → RingShm → Answer
  after_second result woken s m = elim result [
    | err e ↦ (some (err e), s, m)
    | ok sent ↦ (some (ok tt), s, m)
    | ok full ↦ elim woken [ err e ↦ (some (err e), s, m) | ok _ ↦ send_async a p rest s m ]
  ]

  -- A turn from the snapshot on.
  abbrev after_first :
      Result ℕ → List SendAttempt → Result (Unit {0}) → RingSender → RingShm → Answer
  after_first observed again woken s m =
      let (result, s', m') = spin_send a p again s m in
      elim observed [ err e ↦ (some (err e), s, m) | ok _ ↦ after_second result woken s' m' ]

module _ (a : Area) (p : Payload) (s : RingSender) (m : RingShm) (x : SendTurn)
    (rest : List SendTurn) where
  abbrev first : Result TrySendResult × RingSender × RingShm
  first = spin_send a p x.attempts s m

  async-sent : first.0 ≡ ok sent → send_async a p (x ∷ rest) s m ≡ (some (ok tt), first.1, first.2)
  unfolding send_async
  async-sent h = rw (h, send_async) refl

  async-failed :
      {e : Error}
      → first.0 ≡ err e
      → send_async a p (x ∷ rest) s m ≡ (some (err e), first.1, first.2)
  unfolding send_async
  async-failed h = rw (h, send_async) refl

  async-full :
      first.0 ≡ ok full
      → send_async a p (x ∷ rest) s m
        ≡ after_first a p rest x.observed x.again x.woken first.1 first.2
  unfolding send_async
  async-full h = rw (h, send_async) refl

module _ {a : Area} (v : IsArea a) (p : Payload) (rest : List SendTurn) where
  -- What the turns after this one do.
  abbrev Later : Type 0
  Later =
      (s : RingSender) (m : RingShm)
      → Finds a p s (attempts_of rest)
      → s.cached_wc + frame_size p < 2 ^ 64
      → Ends a p s m (attempts_of rest) (send_async a p rest s m)

  kept-Ends :
      {s s1 : RingSender} {m m1 : RingShm} {xs : List SendAttempt} (ys : List SendAttempt)
      (out : RingSender → RingShm → Answer)
      → s.cached_wc + frame_size p < 2 ^ 64
      → Once a p s m xs false s1 m1
      → (s1.cached_wc + frame_size p < 2 ^ 64 → Ends a p s1 m1 ys (out s1 m1))
      → Ends a p s m (xs ++ ys) (out s1 m1)
  kept-Ends ys out fit64 (kept rc f) next = Once-then f (next fit64)

  second-Ends :
      {s s2 : RingSender} {m m2 : RingShm} {xs : List SendAttempt} (result : Result TrySendResult)
      (woken : Result (Unit {0}))
      → Later
      → s.cached_wc + frame_size p < 2 ^ 64
      → Spun a p s m xs (attempts_of rest) (result, s2, m2)
      → Ends a p s m (xs ++ attempts_of rest) (after_second a p rest result woken s2 m2)
  unfolding went answers_sent
  second-Ends (err e) woken next fit64 spun = Once-more (attempts_of rest) spun.now
  second-Ends (ok sent) woken next fit64 spun = Once-more (attempts_of rest) spun.now
  second-Ends (ok full) (err e) next fit64 spun = Once-more (attempts_of rest) spun.now
  second-Ends {s2} {m2} (ok full) (ok _) next fit64 spun =
      kept-Ends (attempts_of rest) (λ s m. send_async a p rest s m) fit64 spun.now
        (next s2 m2 (spun.later refl))

  first-Ends :
      {s : RingSender} (m : RingShm) (observed : Result ℕ) (again : List SendAttempt)
      (woken : Result (Unit {0}))
      → Later
      → Finds a p s (again ++ attempts_of rest)
      → s.cached_wc + frame_size p < 2 ^ 64
      → Ends a p s m (again ++ attempts_of rest) (after_first a p rest observed again woken s m)
  unfolding answers_sent
  first-Ends {s} m (err e) again woken next f fit64 = kept s.cached_rc by_call
  first-Ends {s} m (ok _) again woken next f fit64 =
      second-Ends _ woken next fit64 (spin_send-Spun v p m again f fit64)

module _ {a : Area} (v : IsArea a) (p : Payload) where
  -- If every attempt that `send_async` makes, over all its turns, finds the ring holding some queue
  -- that agrees with the sender, then a call that answers success has appended the message, once,
  -- to the queue that one of its attempts found, and a call that fails or still waits has written
  -- nothing: the shared memory is as it was found, and of the sender only the copy of the read
  -- cursor may differ. The write cursor must stay below 2 ^ 64.
  pub send_async-Once :
      {s : RingSender} (m : RingShm) (turns : List SendTurn)
      → Finds a p s (attempts_of turns)
      → s.cached_wc + frame_size p < 2 ^ 64
      → let (answer, s', m') = send_async a p turns s m in
        Once a p s m (attempts_of turns) (answers_sent answer) s' m'
  unfolding send_async answers_sent went attempts_of
  send_async-Once {s} m [] f fit64 = kept s.cached_rc by_call
  send_async-Once {s} m (x ∷ rest) f fit64 =
      let later = attempts_of rest in
      let (result, s1, m1) = spin_send a p x.attempts s m in
      let spun = spin_send-Spun v p m x.attempts {ys = x.again ++ later} f fit64 in
      let next : Later v p rest = λ s' m'. send_async-Once {s = s'} m' rest in
      elim (Sent-cases result) [
        | is_sent h ↦ rw (async-sent a p s m x rest h) (
            Once-more (x.again ++ later)
              (subst (λ o. Once a p s m x.attempts (went o) s1 m1) h spun.now))
        | is_err e h ↦ rw (async-failed a p s m x rest h) (
            Once-more (x.again ++ later)
              (subst (λ o. Once a p s m x.attempts (went o) s1 m1) h spun.now))
        | is_full h ↦ rw (async-full a p s m x rest h) (
            kept-Ends v p rest (x.again ++ later)
              (λ s m. after_first a p rest x.observed x.again x.woken s m) fit64
              (subst (λ b. Once a p s m x.attempts b s1 m1) (full-false h) spun.now)
              (first-Ends v p rest m1 x.observed x.again x.woken next (spun.later h)))
      ]
