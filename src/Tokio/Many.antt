-- ===== src/Tokio/Many.antt =====
-- `recv_many_async` of src/tokio/mod.rs over its turns.
use shmem_ipc.Base.{
  ℕ, suc, arith, ◌≡◌, ◌≢◌, ◌==◌, false, refl, List, [], ◌∷◌, some, none, length, take,
}
use mathlib.Core.Path.{subst⁻¹}
use shmem_ipc.Error.{ok}
use shmem_ipc.Ring.Area.{Area, IsArea}
use shmem_ipc.Ring.State.{RingShm, RingReceiver}
use shmem_ipc.Ring.Framed.{Payload}
use shmem_ipc.Tokio.{
  DrainTurn, ManyTurn, Drain, spin_peek_or_closed, drain_from, drain_ready_with_spin,
  recv_many_async,
}
use shmem_ipc.Tokio.InOrder.{Feeds, Drained, counted, closed, drain_ready_with_spin-Drained}

-- A drain whose first look finds the ring empty and the channel open.
pub data Dry (a : Area) (r : RingReceiver) : List DrainTurn → Type 0 where
  dry_turn :
      {x : DrainTurn} {turns : List DrainTurn}
      → spin_peek_or_closed a x.looks r ≡ ok none
      → Dry a r (x ∷ turns)

-- After some turns whose drains find nothing and whose waits succeed, one drain meets the
-- messages.
pub data Meets (a : Area) (r : RingReceiver) : List ManyTurn → List Payload → Type 0 where
  at_first :
      {x : ManyTurn} {rest : List ManyTurn} {p : Payload} {ps : List Payload}
      → Feeds a r x.turns (p ∷ ps)
      → Meets a r (x ∷ rest) (p ∷ ps)
  at_second :
      {x : ManyTurn} {rest : List ManyTurn} {p : Payload} {ps : List Payload} {observed : ℕ}
      → Dry a r x.turns
      → x.observed ≡ ok observed
      → Feeds a r x.again (p ∷ ps)
      → Meets a r (x ∷ rest) (p ∷ ps)
  later :
      {x : ManyTurn} {rest : List ManyTurn} {ps : List Payload} {observed : ℕ}
      → Dry a r x.turns
      → x.observed ≡ ok observed
      → Dry a r x.again
      → x.woken ≡ ok tt
      → Meets a r rest ps
      → Meets a r (x ∷ rest) ps

-- The call has handed out `got`, and answers how many they are.
pub record Counted (got : List Payload) (out : Drain) : Type 0 where
  pub answer : out.0 ≡ some (ok (length got))
  pub handed_out : out.1 ≡ got

Drained-Counted :
    {p : Payload} {got : List Payload} {out : Drain} → Drained (p ∷ got) out → Counted (p ∷ got) out
Drained-Counted counted = record { answer = refl; handed_out = refl }
Drained-Counted (closed none_got end) = absurd (cons-nil none_got)
  where
    cons-nil : {p : Payload} {got : List Payload} → p ∷ got ≢ []
    cons-nil e = cc

suc-zero : (n : ℕ) → (suc n == 0) ≡ false
suc-zero n = ground arith

module _ (a : Area) (n : ℕ) where
  abbrev drained : List DrainTurn → RingReceiver → RingShm → Drain
  drained turns r m = drain_ready_with_spin a (suc n) turns r m

  drain-Dry :
      {r : RingReceiver} {turns : List DrainTurn} (m : RingShm)
      → Dry a r turns
      → drained turns r m ≡ (some (ok 0), [], r, m)
  unfolding drain_ready_with_spin drain_from
  drain-Dry m (dry_turn h) = rw (h, drain_from) refl

  module _ (x : ManyTurn) (rest : List ManyTurn) (r : RingReceiver) (m : RingShm) where
    many-first :
        {k : ℕ}
        → (drained x.turns r m).0 ≡ some (ok (suc k))
        → recv_many_async a (suc n) (x ∷ rest) r m ≡ (
          some (ok (suc k)),
          (drained x.turns r m).1,
          (drained x.turns r m).2,
          (drained x.turns r m).3,
        )
    unfolding recv_many_async
    many-first h = rw (suc-zero n, h) refl

    many-second :
        {k observed : ℕ}
        → drained x.turns r m ≡ (some (ok 0), [], r, m)
        → x.observed ≡ ok observed
        → (drained x.again r m).0 ≡ some (ok (suc k))
        → recv_many_async a (suc n) (x ∷ rest) r m ≡ (
          some (ok (suc k)),
          (drained x.again r m).1,
          (drained x.again r m).2,
          (drained x.again r m).3,
        )
    unfolding recv_many_async
    many-second none_yet snapshot h =
        rw (suc-zero n, none_yet, snapshot, none_yet, h, none_yet) refl

    many-later :
        {observed : ℕ}
        → drained x.turns r m ≡ (some (ok 0), [], r, m)
        → x.observed ≡ ok observed
        → drained x.again r m ≡ (some (ok 0), [], r, m)
        → x.woken ≡ ok tt
        → recv_many_async a (suc n) (x ∷ rest) r m ≡ recv_many_async a (suc n) rest r m
    unfolding recv_many_async
    many-later none_yet snapshot none_still woken =
        rw (suc-zero n, none_yet, snapshot, none_yet, none_still, woken, none_yet, none_still) refl

module _ {a : Area} (v : IsArea a) (n : ℕ) where
  fed-Counted :
      {r : RingReceiver} {turns : List DrainTurn} {p : Payload} {ps : List Payload} (m : RingShm)
      → Feeds a r turns (p ∷ ps)
      → Counted (take (suc n) (p ∷ ps)) (drained a n turns r m)
  fed-Counted m f = Drained-Counted (drain_ready_with_spin-Drained v (suc n) m f)

  -- If the drains of `recv_many_async` find the ring empty and the channel open, over any number of
  -- turns whose snapshots and waits succeed, and the next drain meets messages, then the call hands
  -- out the first `max_messages` of these, or all if they are fewer, whole and in order, and answers
  -- their number: it never answers that there are none. `max_messages` is above 0.
  pub recv_many_async-Counted :
      {r : RingReceiver} {turns : List ManyTurn} {ps : List Payload} (m : RingShm)
      → Meets a r turns ps
      → Counted (take (suc n) ps) (recv_many_async a (suc n) turns r m)
  unfolding recv_many_async
  recv_many_async-Counted {r} m (at_first {x} {rest} f) =
      let got = fed-Counted m f in
      subst⁻¹ (Counted _) (many-first a n x rest r m got.answer)
        (record { answer = refl; handed_out = got.handed_out })
  recv_many_async-Counted {r} m (at_second {x} {rest} dry snapshot f) =
      let got = fed-Counted m f in
      subst⁻¹ (Counted _) (many-second a n x rest r m (drain-Dry a n m dry) snapshot got.answer)
        (record { answer = refl; handed_out = got.handed_out })
  recv_many_async-Counted {r} m (later {x} {rest} dry snapshot still_dry woken more) =
      subst⁻¹ (Counted _)
        (many-later a n x rest r m (drain-Dry a n m dry) snapshot (drain-Dry a n m still_dry) woken)
        (recv_many_async-Counted m more)
