-- ===== src/Tokio/Owners/Drops.antt =====
-- The clones that starting a thread, dropping and converting take and give back, src/tokio/mod.rs.
use shmem_ipc.Base.{ℕ, ◌+◌, Bool, true, false, some, if◌then◌else◌, arith}
use shmem_ipc.Tokio.Owners.{
  World, clone_arc, drop_arc, AsyncWait, three_clones, Spawned, started, not_spawned, not_ready,
  Half, new_wait, ensure_running, drop_some_wait, drop_inner, drop_half_inner, drop_ends, drop_half,
  from_sync,
}
use shmem_ipc.Tokio.Owners.Balanced.{
  wait_arcs, wait_threads, Live, clone-Live, drop-Live, Live-cast, drop_wait-Live, WholeHalf, half,
  whole_ends, half_arcs, half_threads, ends_arcs, ends_threads,
}

-- A wait before and after `ensure_running`, among `k` other clones and `t` other threads.
pub ensure_running-Live :
    (s : Spawned) (x : AsyncWait) {w : World} (k t : ℕ)
    → Live (k + wait_arcs x) (t + wait_threads x) w
    → let (_, x', w') = ensure_running s x w in Live (k + wait_arcs x') (t + wait_threads x') w'
unfolding ensure_running wait_arcs wait_threads
ensure_running-Live s x {w} k t l = go x.running s l
  where
    two : {w : World} → Live (k + 1) (t + 0) w → Live (k + 3) (t + 0) (clone_arc (clone_arc w))
    two l =
        clone-Live (clone-Live l (k + 2) (omega arith) (omega arith)) (k + 3) (omega arith)
          (omega arith)

    back :
        {w : World}
        → Live (k + 1) (t + 0) w
        → Live (k + 1) (t + 0) (drop_arc (drop_arc (clone_arc (clone_arc w))))
    back l = drop-Live (drop-Live (two l) (k + 2) (omega arith)) (k + 1) (omega arith)

    go :
        (b : Bool) (s : Spawned) {w : World}
        → Live (k + (if b then 2 else 1)) (t + (if b then 1 else 0)) w
        → let (_, x', w') = ensure_running s (record { running = b }) w in
          Live (k + (if x'.running then 2 else 1)) (t + (if x'.running then 1 else 0)) w'
    go true s l = l
    go false started l =
        let on = two l in
        drop-Live
          (record {
            clones = on.clones;
            bridges = omega (arith, on.bridges);
            dropped_once = on.dropped_once;
          })
          (k + 2) (omega arith)
    go false (not_spawned e) l = back l
    go false (not_ready e) l = back l

drop_inner-Live :
    {w : World} (k t : ℕ) → Live (k + 3) t w → Live k t (drop_inner (some three_clones) w)
unfolding drop_inner
drop_inner-Live k t l =
    drop-Live (drop-Live (drop-Live l (k + 2) (omega arith)) (k + 1) (omega arith)) k (omega arith)

pub drop_ends-Live :
    (s r : AsyncWait) {w : World}
    → Live (ends_arcs (whole_ends s r)) (ends_threads (whole_ends s r)) w
    → Live 0 0 (drop_ends (whole_ends s r) w)
unfolding drop_ends drop_some_wait ends_arcs ends_threads
drop_ends-Live s r l = drop_inner-Live 0 0 (
    drop_wait-Live r (0 + 3) 0 (
      drop_wait-Live s (0 + 3 + wait_arcs r) (0 + wait_threads r)
        (Live-cast l _ _ (omega arith) (omega arith))))

pub drop_half-Live :
    {h : Half} {w : World} (k t : ℕ)
    → WholeHalf (some h)
    → Live (half_arcs (some h) + k) (half_threads (some h) + t) w
    → Live k t (drop_half h w)
unfolding drop_half drop_some_wait drop_half_inner half_arcs half_threads
drop_half-Live k t (half x) l =
    drop-Live
      (drop-Live (drop_wait-Live x (k + 2) t (Live-cast l _ _ (omega arith) (omega arith))) (k + 1)
        (omega arith))
      k (omega arith)

-- Both waits are dropped, and new ones are made.
module _ (s r : AsyncWait) {w : World} where
  pub waits_dropped :
      Live (ends_arcs (whole_ends s r)) (ends_threads (whole_ends s r)) w
      → Live 3 0 (drop_some_wait (some r) (drop_some_wait (some s) w))
  unfolding drop_some_wait ends_arcs ends_threads
  waits_dropped l = drop_wait-Live r 3 0 (
      drop_wait-Live s (3 + wait_arcs r) (0 + wait_threads r)
        (Live-cast l _ _ (omega arith) (omega arith)))

abbrev pub fresh_wait : AsyncWait
fresh_wait = record { running = false }

pub from_sync-Live :
    {w : World}
    → Live 3 0 w
    → let (x, w') = from_sync three_clones w in Live (ends_arcs x) (ends_threads x) w'
unfolding from_sync new_wait ends_arcs ends_threads wait_arcs wait_threads
from_sync-Live l =
    clone-Live (clone-Live l 4 (omega arith) (omega arith)) 5 (omega arith) (omega arith)
