-- ===== src/Shared/Finish/Ends.antt =====
-- How the loop of `finish` in src/shared.rs ends, by the state words that it meets.
use shmem_ipc.Base.{
  ℕ, ◌+◌, ◌≤◌, ◌<◌, ◌≡◌, ◌≢◌, ◌⊎◌, refl, ap, inl, inr, ◌&&◌, not, true, false, List, [], ◌∷◌, some,
  ◌==◌, if◌then◌else◌, arith, Bool-cases,
}
use mathlib.Core.Path.{subst⁻¹}
use native.Mathlib.Decide.{ℕ_discrete}
use shmem_ipc.Header.{ChannelState, as_u32, from_u32}
use shmem_ipc.Shared.State.{Mapping, set_state, wake_all}
use shmem_ipc.Shared.Protocol.{rank, IsTerminal, Later, Later-cases, rank-le}
use shmem_ipc.Shared.Finish.{Attempt, is_settled, finish_loop, finish}

-- What the other processes do to the state word follows the protocol.
abbrev pub Follows : ChannelState → List Attempt → Type 0
Follows s [] = Unit
Follows s (x ∷ rest) = (u : ChannelState) × (x.now ≡ as_u32 u) × Later s u × Follows u rest

-- The attempts that do not fail spuriously.
abbrev pub genuine : List Attempt → ℕ
genuine [] = 0
genuine (x ∷ rest) = (if x.spurious then 0 else 1) + genuine rest

-- The state word at which a `finish` of the attempts is decided, for a word `s` that it has loaded:
-- the first terminal word that it learns of, or before that the live word that a
-- `compare_exchange_weak` finds unchanged and that it does not miss for no reason.
pub data DecidedAt : ChannelState → List Attempt → ChannelState → Type 0 where
  settled : {s : ChannelState} {attempts : List Attempt} → IsTerminal s → DecidedAt s attempts s
  unchanged :
      {s : ChannelState} {x : Attempt} {rest : List Attempt}
      → rank s < 4
      → x.now ≡ as_u32 s
      → x.spurious ≡ false
      → DecidedAt s (x ∷ rest) s
  learns :
      {x : Attempt} {rest : List Attempt} {s u v : ChannelState}
      → rank s < 4
      → x.now ≡ as_u32 u
      → Later s u
      → (x.spurious ≡ true) ⊎ (s ≢ u)
      → DecidedAt u rest v
      → DecidedAt s (x ∷ rest) v

-- How `finish(t)` leaves a mapping `m`: decided at a live word, it has replaced that word by `t` and
-- has woken everybody; decided at a terminal one, it has done nothing, and that word is there.
pub data Ended (t s : ChannelState) (attempts : List Attempt) (m m' : Mapping) : Type 0 where
  won :
      {u : ChannelState}
      → DecidedAt s attempts u
      → rank u < 4
      → m' ≡ wake_all (set_state (as_u32 t) m)
      → Ended t s attempts m m'
  lost :
      {u : ChannelState}
      → DecidedAt s attempts u
      → IsTerminal u
      → m' ≡ set_state (as_u32 u) m
      → Ended t s attempts m m'

is_settled_live : (s : ChannelState) → rank s < 4 → is_settled (from_u32 (as_u32 s)) ≡ false
unfolding is_settled from_u32
is_settled_live s h = ground arith

is_settled_over : (s : ChannelState) → IsTerminal s → is_settled (from_u32 (as_u32 s)) ≡ true
unfolding is_settled from_u32
is_settled_over s h = ground arith

as_u32-injective : (s u : ChannelState) → as_u32 s ≡ as_u32 u → s ≡ u
as_u32-injective s u e = ground arith

-- A failed genuine attempt means that the state went forward.
went_on :
    (s u : ChannelState) (x : Attempt)
    → x.now ≡ as_u32 u
    → Later s u
    → ((x.now == as_u32 s) && not x.spurious) ≡ false
    → 1 + rank s ≤ (if x.spurious then 1 else 0) + rank u
went_on s u x e l failed = ground (arith, Later-cases l, as_u32-injective s u)

Ended-before :
    {t s u : ChannelState} {x : Attempt} {rest : List Attempt} {m m' : Mapping}
    → rank s < 4
    → x.now ≡ as_u32 u
    → Later s u
    → (x.spurious ≡ true) ⊎ (s ≢ u)
    → Ended t u rest (set_state x.now m) m'
    → Ended t s (x ∷ rest) m m'
Ended-before live now l why (won d h e) = won (learns live now l why d) h e
Ended-before live now l why (lost d h e) = lost (learns live now l why d) h e

-- Why an attempt that does not hit misses.
why_missed :
    (s u : ChannelState) (x : Attempt)
    → x.now ≡ as_u32 u
    → ((x.now == as_u32 s) && not x.spurious) ≡ false
    → (x.spurious ≡ true) ⊎ (s ≢ u)
why_missed s u x now miss = elim (Bool-cases x.spurious) [
  | inl spurious ↦ inl spurious
  | inr genuine ↦ inr (λ same. ground (arith, now, miss, genuine, ap as_u32 same))
]

hit_same :
    (s : ChannelState) (x : Attempt)
    → ((x.now == as_u32 s) && not x.spurious) ≡ true
    → (x.now ≡ as_u32 s) × (x.spurious ≡ false)
hit_same s x hit = ground (arith, hit)

finish_loop_ends :
    (t s : ChannelState) (attempts : List Attempt) (m : Mapping)
    → m.global.state ≡ as_u32 s
    → Follows s attempts
    → 4 < genuine attempts + rank s
    → (m' : Mapping) × (finish_loop t attempts (as_u32 s) m ≡ some m') × Ended t s attempts m m'
unfolding finish_loop
finish_loop_ends t s [] m e f enough = absurd (omega (arith, rank-le s))
finish_loop_ends t s (x ∷ rest) m e (u, now, l, f) enough = elim (ℕ_discrete (rank s) 4) [
  | yes final ↦
      (m, rw (is_settled_over s final), lost (settled final) final (ap (λ n. set_state n m) e))
  | no live ↦
      let open_lt : rank s < 4 = omega (arith, rank-le s) in
      elim (Bool-cases ((x.now == as_u32 s) && not x.spurious)) [
        | inl hit ↦
            let (same, genuine) = hit_same s x hit in
            (
              _,
              rw (is_settled_live s open_lt, hit),
              won (unchanged open_lt same genuine) open_lt refl,
            )
        | inr miss ↦
            let fuel : 4 < genuine rest + rank u = ground (arith, went_on s u x now l) in
            let (m', run, ended) = finish_loop_ends t u rest (set_state x.now m) now f fuel in
            (
              m',
              rw (is_settled_live s open_lt, miss)
                  (subst⁻¹ (λ n. finish_loop t rest n (set_state x.now m) ≡ some m') now run),
              Ended-before open_lt now l (why_missed s u x now miss) ended,
            )
      ]
]

pub Ended-state :
    {t s : ChannelState} {attempts : List Attempt} {m m' : Mapping}
    → IsTerminal t
    → Ended t s attempts m m'
    → (u : ChannelState) × IsTerminal u × (m'.global.state ≡ as_u32 u)
unfolding wake_all
Ended-state {t} final (won d live e) = (t, final, ap (λ (x : Mapping). x.global.state) e)
Ended-state h (lost {u} d final e) = (u, final, ap (λ (x : Mapping). x.global.state) e)

-- If the other processes move the state word by the protocol only, five attempts that do not fail
-- spuriously are enough for `finish(t)` to return, whatever they do in between. The first terminal
-- cause wins: if the call learns of a terminal word before one of its `compare_exchange_weak`s
-- succeeds, it leaves that word and wakes nobody; otherwise it succeeds on the live word that it
-- has loaded last, which is there unchanged, replaces it by `t` and wakes all four sides.
pub finish_ends :
    (t s : ChannelState) (attempts : List Attempt) (m : Mapping)
    → m.global.state ≡ as_u32 s
    → Follows s attempts
    → 4 < genuine attempts + rank s
    → (m' : Mapping) × (finish t attempts m ≡ some m') × Ended t s attempts m m'
unfolding finish
finish_ends t s attempts m e f enough =
    let (m', run, ended) = finish_loop_ends t s attempts m e f enough in
    (m', subst⁻¹ (λ n. finish_loop t attempts n m ≡ some m') e run, ended)

-- A call on a terminal state returns at once.
pub finish_over :
    (t s : ChannelState) (attempts : List Attempt) (m : Mapping)
    → m.global.state ≡ as_u32 s
    → IsTerminal s
    → finish t attempts m ≡ some m
unfolding finish finish_loop
finish_over t s [] m e over = let h = is_settled_over s over in ground (arith, h, e)
finish_over t s (x ∷ rest) m e over = let h = is_settled_over s over in ground (arith, h, e)
