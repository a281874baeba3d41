-- ===== src/Shared/Ready/Loop.antt =====
-- How the loop of `check_ready` in src/shared.rs ends, by the state words that its rounds meet.
use shmem_ipc.Base.{
  ℕ, ◌+◌, ◌≤◌, ◌<◌, ◌≡◌, ◌≢◌, ap, ◌∙◌, ◌⊎◌, inl, inr, true, false, List, [], ◌∷◌, some, ◌==◌, ltb,
  length, arith, Bool-cases,
}
use mathlib.Core.Path.{subst, subst⁻¹}
use shmem_ipc.Error.{Error, ok, err}
use shmem_ipc.Header.{ChannelState, connected, closed, peer_disconnected, as_u32, from_u32}
use shmem_ipc.Shared.State.{Mapping, set_state, wake_all}
use shmem_ipc.Shared.Protocol.{rank, IsTerminal, Later, Later-cases, Later-trans, rank-le}
use shmem_ipc.Shared.Ready.{
  Round, ready, refused, unready, glance, Left, broke, returned, ready_loop,
}

-- What a wait answers on a retired channel.
abbrev pub cause : ChannelState → Error
cause closed = Error.channel_closed
cause peer_disconnected = Error.peer_disconnected
cause _ = Error.invalid_header

-- The state words that the rounds meet follow the protocol.
abbrev pub RoundsFollow : ChannelState → List Round → Type 0
RoundsFollow s [] = Unit
RoundsFollow s (x ∷ rest) =
    (u v : ChannelState) × (x.at_load ≡ as_u32 u)
    × (x.at_cas ≡ as_u32 v)
    × Later s u
    × Later u v
    × RoundsFollow v rest

-- The round by which the loop is left, and the state that it loads. A round is passed over only if
-- it is unready, not before the timeout, and its `compare_exchange` meets another state.
pub data Deciding (timeout : ℕ) : ChannelState → List Round → Round → ChannelState → Type 0 where
  this_round :
      {s u : ChannelState} {x : Round} {rest : List Round}
      → x.at_load ≡ as_u32 u
      → Later s u
      → Deciding timeout s (x ∷ rest) x u
  passed :
      {s u v w : ChannelState} {x y : Round} {rest : List Round}
      → x.at_load ≡ as_u32 u
      → rank u < 3
      → timeout ≤ x.elapsed
      → x.at_cas ≡ as_u32 v
      → u ≢ v
      → Later s v
      → Deciding timeout v rest y w
      → Deciding timeout s (x ∷ rest) y w

-- The four ways in which the loop is left, on a mapping `m` that was in state `s`.
pub data LoopEnd (timeout : ℕ) (s : ChannelState) (rounds : List Round) (m : Mapping)
    : Left → Mapping → Type 0 where
  is_ready :
      {x : Round}
      → Deciding timeout s rounds x connected
      → LoopEnd timeout s rounds m broke (set_state (as_u32 connected) m)
  is_over :
      {x : Round} {u : ChannelState}
      → Deciding timeout s rounds x u
      → IsTerminal u
      → LoopEnd timeout s rounds m (returned (err (cause u))) (set_state (as_u32 u) m)
  not_yet :
      {x : Round} {u : ChannelState}
      → Deciding timeout s rounds x u
      → rank u < 3
      → x.elapsed < timeout
      → LoopEnd timeout s rounds m (returned (ok false)) (set_state (as_u32 u) m)
  too_late :
      {x : Round} {u : ChannelState}
      → Deciding timeout s rounds x u
      → rank u < 3
      → timeout ≤ x.elapsed
      → x.at_cas ≡ as_u32 u
      → LoopEnd timeout s rounds m
          (returned (err Error.timed_out))
          (wake_all (set_state (as_u32 closed) m))

-- What is passed over, and then the end that the rest of the rounds makes.
LoopEnd-before :
    {timeout : ℕ} {s v : ChannelState} {x : Round} {rest : List Round} {m m' : Mapping} {l : Left}
    → ((y : Round) (w : ChannelState)
        → Deciding timeout v rest y w
        → Deciding timeout s (x ∷ rest) y w)
    → LoopEnd timeout v rest (set_state x.at_cas m) l m'
    → LoopEnd timeout s (x ∷ rest) m l m'
LoopEnd-before pass (is_ready d) = is_ready (pass _ _ d)
LoopEnd-before pass (is_over d o) = is_over (pass _ _ d) o
LoopEnd-before pass (not_yet d r e) = not_yet (pass _ _ d) r e
LoopEnd-before pass (too_late d r e c) = too_late (pass _ _ d) r e c

-- One round, by the state that it loads.
glance_unready :
    (u : ChannelState) → 1 ≤ rank u → rank u < 3 → glance (from_u32 (as_u32 u)) ≡ unready
unfolding glance from_u32
glance_unready u h k = ground arith

glance_ready : (u : ChannelState) → rank u ≡ 3 → glance (from_u32 (as_u32 u)) ≡ ready
unfolding glance from_u32
glance_ready u h = ground arith

glance_over : (u : ChannelState) → IsTerminal u → glance (from_u32 (as_u32 u)) ≡ refused (cause u)
unfolding glance from_u32
glance_over u h = ground arith

rank_split : (u : ChannelState) → (rank u < 3) ⊎ ((rank u ≡ 3) ⊎ IsTerminal u)
rank_split u = ground (arith, rank-le u)

rank_three : (u : ChannelState) → rank u ≡ 3 → u ≡ connected
rank_three u h = ground arith

forward : (u v : ChannelState) → Later u v → (as_u32 v == as_u32 u) ≡ false → rank u < rank v
forward u v l miss = ground (arith, Later-cases l)

rank_mono : {u v : ChannelState} → Later u v → rank u ≤ rank v
rank_mono l = ground (arith, Later-cases l)

apart : (u v : ChannelState) → rank u < rank v → u ≢ v
apart u v gain e = omega (arith, gain, ap rank e)

-- One round that ends the loop, and one that does not.
module _ (timeout : ℕ) (x : Round) (rest : List Round) (m : Mapping) where
  round-ready :
      {n : ℕ}
      → x.at_load ≡ n
      → glance (from_u32 n) ≡ ready
      → ready_loop timeout (x ∷ rest) m ≡ some (broke, set_state n m)
  unfolding ready_loop
  round-ready load =
      subst
        (λ n.
          glance (from_u32 n) ≡ ready
          → ready_loop timeout (x ∷ rest) m ≡ some (broke, set_state n m))
        load (λ h. ground (arith, h))

  round-over :
      {n : ℕ} {e : Error}
      → x.at_load ≡ n
      → glance (from_u32 n) ≡ refused e
      → ready_loop timeout (x ∷ rest) m ≡ some (returned (err e), set_state n m)
  unfolding ready_loop
  round-over {n} {e} load =
      subst
        (λ n.
          glance (from_u32 n) ≡ refused e
          → ready_loop timeout (x ∷ rest) m ≡ some (returned (err e), set_state n m))
        load (λ h. ground (arith, h))

  round-early :
      {n : ℕ}
      → x.at_load ≡ n
      → glance (from_u32 n) ≡ unready
      → ltb x.elapsed timeout ≡ true
      → ready_loop timeout (x ∷ rest) m ≡ some (returned (ok false), set_state n m)
  unfolding ready_loop
  round-early load h early =
      subst
        (λ n.
          glance (from_u32 n) ≡ unready
          → ready_loop timeout (x ∷ rest) m ≡ some (returned (ok false), set_state n m))
        load (λ h. ground (arith, h, early)) h

  round-late :
      glance (from_u32 x.at_load) ≡ unready
      → ltb x.elapsed timeout ≡ false
      → (x.at_cas == x.at_load) ≡ true
      → ready_loop timeout (x ∷ rest) m
        ≡ some (returned (err Error.timed_out), wake_all (set_state (as_u32 closed) m))
  unfolding ready_loop
  round-late h late hit = ground (arith, h, late, hit)

  round-again :
      glance (from_u32 x.at_load) ≡ unready
      → ltb x.elapsed timeout ≡ false
      → (x.at_cas == x.at_load) ≡ false
      → ready_loop timeout (x ∷ rest) m ≡ ready_loop timeout rest (set_state x.at_cas m)
  unfolding ready_loop
  round-again h late miss = ground (arith, h, late, miss)

-- If the other processes move the state word by the protocol only and the server has published the
-- channel, four rounds are enough for the loop of `check_ready` to end, and it is decided by the
-- first round that does not find itself at once unready, not before the timeout, and overtaken under
-- its `compare_exchange`. If that round loads Connected, the loop goes on to the probe; if it loads a
-- terminal cause, that is the answer; if it is unready before the timeout, the answer is "not yet";
-- and otherwise its `compare_exchange` meets the unready state that it has loaded, so that the loop
-- closes the channel from that state, never over Connected or a terminal cause, wakes all four
-- sides, and times out.
pub ready_loop_ends :
    (timeout : ℕ) (s : ChannelState) (rounds : List Round) (m : Mapping)
    → 1 ≤ rank s
    → RoundsFollow s rounds
    → 4 < length rounds + rank s
    → (l : Left) × (m' : Mapping) × (ready_loop timeout rounds m ≡ some (l, m'))
      × LoopEnd timeout s rounds m l m'
ready_loop_ends timeout s [] m pos f enough = absurd (omega (arith, rank-le s))
ready_loop_ends timeout s (x ∷ rest) m pos (u, v, load, cas, l, k, f) enough = elim (rank_split u) [
  | inl live ↦
      let unr = glance_unready u (omega (arith, rank_mono l)) live in
      let at_load = subst⁻¹ (λ n. glance (from_u32 n) ≡ unready) load unr in
      elim (Bool-cases (ltb x.elapsed timeout)) [
        | inl early ↦ (
          _,
          _,
          round-early timeout x rest m load unr early,
          not_yet (this_round {x = x} load l) live (ground (arith, early)),
        )
        | inr late ↦ elim (Bool-cases (x.at_cas == x.at_load)) [
          | inl hit ↦ (
            _,
            _,
            round-late timeout x rest m at_load late hit,
            too_late (this_round {x = x} load l) live (ground (arith, late))
                (ground (arith, load, hit)),
          )
          | inr miss ↦
              let gain : rank u < rank v = forward u v k (ground (arith, load, cas)) in
              let (left, m', run, ended) =
                ready_loop_ends timeout v rest (set_state x.at_cas m) (omega arith) f
                  (omega (arith, rank_mono l)) in
              (
                left,
                m',
                round-again timeout x rest m at_load late miss ∙ run,
                LoopEnd-before
                    (λ y w.
                      passed load live (ground (arith, late)) cas (apart u v gain)
                        (Later-trans l k))
                    ended,
              )
        ]
      ]
  | inr (inl three) ↦
      let same : u ≡ connected = rank_three u three in
      (
        _,
        _,
        round-ready timeout x rest m load (glance_ready u three)
            ∙ ap (λ w. some (broke, set_state (as_u32 w) m)) same,
        is_ready (subst (λ w. Deciding timeout s (x ∷ rest) x w) same (this_round load l)),
      )
  | inr (inr over) ↦ (
    _,
    _,
    round-over timeout x rest m load (glance_over u over),
    is_over (this_round load l) over,
  )
]
