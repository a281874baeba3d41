-- ===== src/Tokio/SentOnce/Spins.antt =====
-- The attempts of one `spin_send` of src/tokio/mod.rs.
use shmem_ipc.Base.{ℕ, ◌+◌, ◌^◌, ◌<◌, ◌≡◌, ◌≢◌, refl, false, List, [], ◌∷◌, ◌++◌}
use mathlib.Core.Path.{subst}
use shmem_ipc.Error.{Error, Result, ok, err}
use shmem_ipc.Ring.Area.{Area, IsArea}
use shmem_ipc.Ring.State.{RingShm, RingSender, TrySendResult, sent, full}
use shmem_ipc.Ring.Sender.{try_send_once}
use shmem_ipc.Ring.Framed.{Payload, frame_size}
use shmem_ipc.Tokio.{SendAttempt, spin_send}
use shmem_ipc.Tokio.SentOnce.{
  Finds, finds, FoundIn, by_call, Once, kept, went, Once-then, Once-more, attempt-Once,
}

-- What a spin does with its attempts, and what it leaves to the attempts `ys` after it.
pub record Spun (a : Area) (p : Payload) (s : RingSender) (m : RingShm) (xs ys : List SendAttempt)
    (out : Result TrySendResult × RingSender × RingShm) : Type 0 where
  pub now : Once a p s m xs (went out.0) out.1 out.2
  pub later : out.0 ≡ ok full → Finds a p out.1 ys

Spun-then :
    {a : Area} {p : Payload} {s : RingSender} {m m1 : RingShm} {xs ys zs : List SendAttempt}
    → {rc : ℕ} {out : Result TrySendResult × RingSender × RingShm} → FoundIn m xs m1
    → Spun a p (record s { cached_rc = rc }) m1 ys zs out
    → Spun a p s m (xs ++ ys) zs out
Spun-then f spun = record { now = Once-then f spun.now; later = spun.later }

module _ (a : Area) (p : Payload) (s : RingSender) (m : RingShm) (x : SendAttempt)
    (rest : List SendAttempt) where
  abbrev out : Result TrySendResult × RingSender × RingShm
  out = try_send_once a x.ready p s x.shm

  spin-sent : out.0 ≡ ok sent → spin_send a p (x ∷ rest) s m ≡ (ok sent, out.1, out.2)
  unfolding spin_send
  spin-sent h = rw (h, spin_send) refl

  spin-full : out.0 ≡ ok full → spin_send a p (x ∷ rest) s m ≡ spin_send a p rest out.1 out.2
  unfolding spin_send
  spin-full h = rw (h, spin_send) refl

  spin-failed : {e : Error} → out.0 ≡ err e → spin_send a p (x ∷ rest) s m ≡ (err e, out.1, out.2)
  unfolding spin_send
  spin-failed h = rw (h, spin_send) refl

-- The three outcomes of an attempt.
pub data SentCases (r : Result TrySendResult) : Type 0 where
  is_sent : r ≡ ok sent → SentCases r
  is_full : r ≡ ok full → SentCases r
  is_err : (e : Error) → r ≡ err e → SentCases r

pub Sent-cases : (r : Result TrySendResult) → SentCases r
Sent-cases (ok sent) = is_sent refl
Sent-cases (ok full) = is_full refl
Sent-cases (err e) = is_err e refl

pub full-false : {r : Result TrySendResult} → r ≡ ok full → went r ≡ false
unfolding went
full-false h = rw h refl

module _ {a : Area} (v : IsArea a) (p : Payload) where
  -- A turn whose attempt found the ring full: the rest of the spin goes on with its sender.
  full-Spun :
      {s s1 : RingSender} {m m1 : RingShm} {x : SendAttempt} {xs ys : List SendAttempt}
      → s.cached_wc + frame_size p < 2 ^ 64
      → Once a p s m (x ∷ []) false s1 m1
      → (s1.cached_wc + frame_size p < 2 ^ 64 → Spun a p s1 m1 xs ys (spin_send a p xs s1 m1))
      → Spun a p s m (x ∷ xs) ys (spin_send a p xs s1 m1)
  full-Spun fit64 (kept rc f) next = Spun-then f (next fit64)

  ended-Spun :
      {s s1 : RingSender} {m m1 : RingShm} {x : SendAttempt} (xs : List SendAttempt)
      {ys : List SendAttempt} {o : Result TrySendResult}
      → o ≢ ok full
      → Once a p s m (x ∷ []) (went o) s1 m1
      → Spun a p s m (x ∷ xs) ys (o, s1, m1)
  ended-Spun xs not_full once = record { now = Once-more xs once; later = λ h. absurd (not_full h) }

  -- A spin sends the message once or not at all, and it reports a full ring only after all its
  -- attempts.
  pub spin_send-Spun :
      {s : RingSender} (m : RingShm) (xs : List SendAttempt) {ys : List SendAttempt}
      → Finds a p s (xs ++ ys)
      → s.cached_wc + frame_size p < 2 ^ 64
      → Spun a p s m xs ys (spin_send a p xs s m)
  unfolding spin_send went
  spin_send-Spun {s} m [] f fit64 = record { now = kept s.cached_rc by_call; later = λ h. f }
  spin_send-Spun {s} m (x ∷ xs) {ys} (finds l rest) fit64 =
      let (result, s1, m1) = try_send_once a x.ready p s x.shm in
      let once : Once a p s m (x ∷ []) (went result) s1 m1 = attempt-Once v p x l fit64 in
      let next = spin_send-Spun {s = s1} m1 xs {ys = ys} in
      elim (Sent-cases result) [
        | is_sent h ↦
            rw (spin-sent a p s m x xs h)
              (ended-Spun xs (λ e. cc) (subst (λ o. Once a p s m (x ∷ []) (went o) s1 m1) h once))
        | is_full h ↦ rw (spin-full a p s m x xs h) (
            full-Spun fit64 (subst (λ b. Once a p s m (x ∷ []) b s1 m1) (full-false h) once)
              (λ fit. next (rest h) fit))
        | is_err e h ↦
            rw (spin-failed a p s m x xs h)
              (ended-Spun xs (λ e. cc) (subst (λ o. Once a p s m (x ∷ []) (went o) s1 m1) h once))
      ]
