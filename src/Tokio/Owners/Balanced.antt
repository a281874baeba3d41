-- ===== src/Tokio/Owners/Balanced.antt =====
-- The clones that the types of src/tokio/mod.rs hold are all there are: SharedChannel is dropped
-- with the last of them, and once.
use shmem_ipc.Base.{
  ℕ, ◌+◌, ◌-◌, ◌≤◌, ◌≡◌, refl, Bool, true, false, Option, some, none, ◌==◌, if◌then◌else◌, arith,
}
use shmem_ipc.Tokio.Owners.{
  World, clone_arc, drop_arc, AsyncWait, three_clones, two_clones, Ends, Half, drop_wait,
}
use shmem_ipc.Tokio.Owners.Calls.{Held, channel, connection, halves, nothing}

-- The clones and the threads of a wait.
unfoldable pub wait_arcs : AsyncWait → ℕ
wait_arcs x = if x.running then 2 else 1

unfoldable pub wait_threads : AsyncWait → ℕ
wait_threads x = if x.running then 1 else 0

-- `k` clones, `t` threads, and SharedChannel dropped once if there is no clone left.
pub record Live (k t : ℕ) (w : World) : Type 0 where
  pub clones : w.strong ≡ k
  pub bridges : w.threads ≡ t
  pub dropped_once : w.dropped ≡ (if k == 0 then 1 else 0)

module _ {k t : ℕ} {w : World} (l : Live k t w) where
  pub clone-Live : (n : ℕ) → n ≡ k + 1 → 1 ≤ k → Live n t (clone_arc w)
  unfolding clone_arc
  clone-Live n e some_left = record {
    clones = omega (arith, l.clones);
    bridges = l.bridges;
    dropped_once = ground (arith, l.dropped_once);
  }

  pub drop-Live : (n : ℕ) → n + 1 ≡ k → Live n t (drop_arc w)
  unfolding drop_arc
  drop-Live n e = record {
    clones = ground (arith, l.clones);
    bridges = ground (arith, l.bridges);
    dropped_once = ground (arith, l.clones, l.dropped_once);
  }

  pub Live-cast : (n u : ℕ) → n ≡ k → u ≡ t → Live n u w
  Live-cast n u e f = rw (e, f) l

pub drop_wait-Live :
    (x : AsyncWait) {w : World} (k t : ℕ)
    → Live (k + wait_arcs x) (t + wait_threads x) w
    → Live k t (drop_wait x w)
unfolding drop_wait wait_arcs wait_threads
drop_wait-Live x k t l = go x.running l
  where
    go :
        (b : Bool) {w : World}
        → Live (k + (if b then 2 else 1)) (t + (if b then 1 else 0)) w
        → Live k t
            (if b then drop_arc (drop_arc (record w { threads = w.threads - 1 })) else drop_arc w)
    go true {w} l =
        drop-Live
          (drop-Live {w = record w { threads = w.threads - 1 }}
            (record {
              clones = l.clones;
              bridges = omega (arith, l.bridges);
              dropped_once = l.dropped_once;
            })
            (k + 1) (omega arith))
          k refl
    go false l = drop-Live (Live-cast l (k + 1) t refl (omega arith)) k refl

-- What a program can hold: nothing of it has been taken.
pub data WholeHalf : Option Half → Type 0 where
  no_half : WholeHalf none
  half : (x : AsyncWait) → WholeHalf (some (record { wait = some x; inner = some two_clones }))

abbrev pub whole_ends : AsyncWait → AsyncWait → Ends
whole_ends s r = record { send_wait = some s; recv_wait = some r; inner = some three_clones }

pub data Whole : Held → Type 0 where
  whole_channel : (s r : AsyncWait) → Whole (channel (whole_ends s r))
  whole_connection : (s r : AsyncWait) → Whole (connection (whole_ends s r))
  whole_halves : {s r : Option Half} → WholeHalf s → WholeHalf r → Whole (halves s r)
  whole_nothing : Whole nothing

-- The clones and the threads in what a program holds.
unfoldable pub half_arcs : Option Half → ℕ
unfolding wait_arcs
half_arcs none = 0
half_arcs (some h) = elim h.wait [ none ↦ 2 | some x ↦ 2 + wait_arcs x ]

unfoldable pub half_threads : Option Half → ℕ
unfolding wait_threads
half_threads none = 0
half_threads (some h) = elim h.wait [ none ↦ 0 | some x ↦ wait_threads x ]

unfoldable pub ends_arcs : Ends → ℕ
unfolding wait_arcs
ends_arcs x =
    3
    + (elim x.send_wait [ none ↦ 0 | some s ↦ wait_arcs s ]
        + elim x.recv_wait [ none ↦ 0 | some r ↦ wait_arcs r ])

unfoldable pub ends_threads : Ends → ℕ
unfolding wait_threads
ends_threads x =
    elim x.send_wait [ none ↦ 0 | some s ↦ wait_threads s ]
    + elim x.recv_wait [ none ↦ 0 | some r ↦ wait_threads r ]

unfoldable pub arcs_of : Held → ℕ
unfolding half_arcs ends_arcs
arcs_of (channel x) = ends_arcs x
arcs_of (connection x) = ends_arcs x
arcs_of (halves s r) = half_arcs s + half_arcs r
arcs_of nothing = 0

unfoldable pub threads_of : Held → ℕ
unfolding half_threads ends_threads
threads_of (channel x) = ends_threads x
threads_of (connection x) = ends_threads x
threads_of (halves s r) = half_threads s + half_threads r
threads_of nothing = 0

pub record Balanced (h : Held) (w : World) : Type 0 where
  pub whole : Whole h
  pub live : Live (arcs_of h) (threads_of h) w
