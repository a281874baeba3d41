-- ===== src/Tokio/InOrder.antt =====
-- `drain_ready_with_spin` of src/tokio/mod.rs hands out messages in the order of the ring.
use shmem_ipc.Base.{
  ℕ, zero, suc, ◌≡◌, refl, ap, ◌∙◌, true, List, [], ◌∷◌, ◌++◌, some, none, length, take,
}
use mathlib.Core.Path.{subst, subst⁻¹}
use mathlib.Core.List.{append-nil, append_assoc}
use shmem_ipc.Error.{Error, ok, err}
use shmem_ipc.Ring.Area.{Area, IsArea}
use shmem_ipc.Ring.State.{RingShm, RingReceiver, PeekedMessage}
use shmem_ipc.Ring.Framed.{Payload}
use shmem_ipc.Ring.Queue.{Queue, is_end}
use shmem_ipc.Ring.Recv.{Unread, peeked, committed, released, take_message_lem}
use shmem_ipc.Tokio.{
  DrainTurn, spin_peek_or_closed, drain_error, Drain, after_commit, commit_message_to_vec,
  drain_from, drain_ready_with_spin,
}

-- The turns meet the messages `ps`, one a turn, while others may follow, and then an empty ring
-- on a channel that is open, or that is over.
pub data Feeds (a : Area) : RingReceiver → List DrainTurn → List Payload → Type 0 where
  dry :
      {r : RingReceiver} {x : DrainTurn} {turns : List DrainTurn}
      → spin_peek_or_closed a x.looks r ≡ ok none
      → Feeds a r (x ∷ turns) []
  over :
      {r : RingReceiver} {x : DrainTurn} {turns : List DrainTurn} {e : Error}
      → spin_peek_or_closed a x.looks r ≡ err e
      → is_end e ≡ true
      → Feeds a r (x ∷ turns) []
  feed :
      {r : RingReceiver} {x : DrainTurn} {turns : List DrainTurn} {p : Payload} {ps : List Payload}
      → {next : ℕ} {q : Queue} → spin_peek_or_closed a x.looks r ≡ ok (some (peeked r p))
      → Unread a r x.shm next (p ∷ q)
      → Feeds a (committed r p) turns ps
      → Feeds a r (x ∷ turns) (p ∷ ps)

-- The messages `got`, and an answer that counts them; or nothing, and why the channel is over.
pub data Drained (got : List Payload) : Drain → Type 0 where
  counted : {r : RingReceiver} {m : RingShm} → Drained got (some (ok (length got)), got, r, m)
  closed :
      {r : RingReceiver} {m : RingShm} {e : Error}
      → got ≡ []
      → is_end e ≡ true
      → Drained got (some (err e), got, r, m)

drain_error-Drained :
    (a : Area) (e : Error) (got : List Payload) (r : RingReceiver) (m : RingShm)
    → is_end e ≡ true
    → Drained got (some (drain_error a e got), got, r, m)
unfolding drain_error
drain_error-Drained a e [] r m end = closed refl end
drain_error-Drained a e (p ∷ got) r m end = rw end counted

turn_taken :
    (a : Area) (left : ℕ) (x : DrainTurn) (turns : List DrainTurn) (got : List Payload)
    (r : RingReceiver)
    → (m : RingShm) {message : PeekedMessage} → spin_peek_or_closed a x.looks r ≡ ok (some message)
    → drain_from a (suc left) (x ∷ turns) got r m
      ≡ after_commit a
          (λ got' r' m'. drain_from a left turns got' r' m')
          got
          (commit_message_to_vec a message r x.shm)
unfolding drain_from
turn_taken a left x turns got r m h = rw (h, drain_from) refl

module _ {a : Area} (v : IsArea a) where
  drain_from-Drained :
      (left : ℕ) {r : RingReceiver} {turns : List DrainTurn} {ps : List Payload}
      → (got : List Payload) (m : RingShm) → Feeds a r turns ps
      → Drained (got ++ take left ps) (drain_from a left turns got r m)
  unfolding drain_from after_commit
  drain_from-Drained zero got m f = rw (append-nil got) counted
  drain_from-Drained (suc left) {r} got m (dry e) = rw (e, append-nil got, drain_from) counted
  drain_from-Drained (suc left) {r} got m (over {e} h end) =
      rw (h, append-nil got, drain_from) (drain_error-Drained a e got r m end)
  drain_from-Drained (suc left) {r} got m (feed {x} {turns} {p} {ps} h u f) =
      let next : List Payload → RingReceiver → RingShm → Drain =
        λ got' r' m'. drain_from a left turns got' r' m' in
      subst⁻¹ (λ out. Drained (got ++ (p ∷ take left ps)) out)
        (turn_taken a left x turns got r m h
          ∙ ap (λ t. after_commit a next got t) (take_message_lem v u))
        (subst
          (λ l.
            Drained l
              (drain_from a left turns (got ++ (p ∷ [])) (committed r p) (released r p x.shm)))
          (append_assoc got (p ∷ []) (take left ps))
          (drain_from-Drained left (got ++ (p ∷ [])) (released r p x.shm) f))

  -- If the turns of `drain_ready_with_spin` meet messages and then an empty ring, then the call
  -- hands out the first `max_messages` of them, or all if they are fewer, whole and in order, and
  -- answers their number; the end of the channel is an error only if nothing was handed out.
  pub drain_ready_with_spin-Drained :
      {r : RingReceiver} {turns : List DrainTurn} {ps : List Payload} (max_messages : ℕ)
      (m : RingShm)
      → Feeds a r turns ps
      → Drained (take max_messages ps) (drain_ready_with_spin a max_messages turns r m)
  unfolding drain_ready_with_spin
  drain_ready_with_spin-Drained max_messages m f = drain_from-Drained max_messages [] m f
