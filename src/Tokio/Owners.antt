-- ===== src/Tokio/Owners.antt =====
-- Who holds the mapping under the types of src/tokio/mod.rs: the clones of `Arc<SharedChannel>` in
-- Channel, ShmemConnection and the halves, in the waits of src/tokio/bridge.rs on Unix and in their
-- threads. A value stands for the clones in it; fields are dropped in the order of declaration.
pub mod Calls
pub mod Balanced
pub mod Drops
pub mod Uses
pub mod Once
mod Tests
use shmem_ipc.Base.{
  ℕ, ◌+◌, ◌-◌, Bool, true, false, List, [], ◌∷◌, Option, some, none, leb, if◌then◌else◌,
}
use shmem_ipc.Error.{Error, Result, ok, err}

-- The strong count of the Arc, how often SharedChannel has been dropped, and the threads that run
-- `wait_loop`.
pub record World : Type 0 where
  pub strong : ℕ
  pub dropped : ℕ
  pub threads : ℕ

-- `Arc::clone`, and the drop of one clone
unfoldable pub clone_arc : World → World
clone_arc w = record w { strong = w.strong + 1 }

unfoldable pub drop_arc : World → World
drop_arc w =
    if leb w.strong 1
    then record w { strong = 0; dropped = w.dropped + 1 }
    else record w { strong = w.strong - 1 }

-- AsyncWait holds its `target`, and `running` the thread, which has a target of its own.
pub record AsyncWait : Type 0 where
  pub running : Bool

-- The three clones of a crate::Channel or a crate::connection::ShmemConnection: its own, its
-- sender's and its receiver's. A crate::connection::SendHalf or RecvHalf has two.
pub data Inner : Type 0 where
  three_clones : Inner

pub data HalfInner : Type 0 where
  two_clones : HalfInner

-- What `thread::Builder::spawn` and the thread's first message come to.
pub data Spawned : Type 0 where
  started : Spawned
  not_spawned not_ready : Error → Spawned

-- Channel, and ShmemConnection
pub record Ends : Type 0 where
  pub send_wait : Option AsyncWait
  pub recv_wait : Option AsyncWait
  pub inner : Option Inner

-- SendHalf, and RecvHalf
pub record Half : Type 0 where
  pub wait : Option AsyncWait
  pub inner : Option HalfInner

-- `AsyncWait::new` of what `wait_target` returns
unfoldable pub new_wait : World → AsyncWait × World
unfolding clone_arc
new_wait w = (record { running = false }, clone_arc w)

-- `ensure_running`: the clone for `spawn`, the one that moves into the thread, and what becomes of
-- both. A thread that has not reported is one that ended.
unfoldable pub ensure_running : Spawned → AsyncWait → World → Result (Unit {0}) × AsyncWait × World
unfolding clone_arc drop_arc
ensure_running s x w =
    let cloned = clone_arc (clone_arc w) in
    if x.running then (ok tt, x, w) else elim s [
      | started ↦ (
        ok tt,
        record { running = true },
        drop_arc (record cloned { threads = cloned.threads + 1 }),
      )
      | not_spawned e ↦ (err e, x, drop_arc (drop_arc cloned))
      | not_ready e ↦ (err e, x, drop_arc (drop_arc cloned))
    ]

-- `Drop for AsyncWait`, and the drop of its fields: the joined thread has dropped its own target.
unfoldable pub drop_wait : AsyncWait → World → World
unfolding drop_arc
drop_wait x w =
    if x.running then drop_arc (drop_arc (record w { threads = w.threads - 1 })) else drop_arc w

unfoldable pub drop_some_wait : Option AsyncWait → World → World
unfolding drop_wait
drop_some_wait none w = w
drop_some_wait (some x) w = drop_wait x w

unfoldable pub drop_inner : Option Inner → World → World
unfolding drop_arc
drop_inner none w = w
drop_inner (some _) w = drop_arc (drop_arc (drop_arc w))

unfoldable pub drop_half_inner : Option HalfInner → World → World
unfolding drop_arc
drop_half_inner none w = w
drop_half_inner (some _) w = drop_arc (drop_arc w)

-- A Channel or ShmemConnection, or a half, that goes out of scope
unfoldable pub drop_ends : Ends → World → World
unfolding drop_some_wait drop_inner
drop_ends x w = drop_inner x.inner (drop_some_wait x.recv_wait (drop_some_wait x.send_wait w))

unfoldable pub drop_half : Half → World → World
unfolding drop_some_wait drop_half_inner
drop_half x w = drop_half_inner x.inner (drop_some_wait x.wait w)

-- `from_sync` of Channel and of ShmemConnection, and that of the halves
unfoldable pub from_sync : Inner → World → Ends × World
unfolding new_wait
from_sync inner w =
    let (send_wait, w1) = new_wait w in
    let (recv_wait, w2) = new_wait w1 in
    (record { send_wait = some send_wait; recv_wait = some recv_wait; inner = some inner }, w2)

unfoldable pub half_from_sync : HalfInner → World → Half × World
unfolding new_wait
half_from_sync inner w =
    let (wait, w1) = new_wait w in (record { wait = some wait; inner = some inner }, w1)

-- `crate::Channel::create` or `open`: `Arc::new`, and the clones of `from_shared`
unfoldable pub new_channel : Inner × World
unfolding clone_arc
new_channel =
    (three_clones, clone_arc (clone_arc (record { strong = 1; dropped = 0; threads = 0 })))

-- `Channel::into_connection`: both `take`s of the waits, that of `inner`, which moves on, and the
-- drop of what is left; `none` is the panic of `expect`.
unfoldable pub into_connection : Ends → World → Option (Ends × World)
unfolding drop_ends from_sync
into_connection x w =
    let taken = drop_some_wait x.recv_wait (drop_some_wait x.send_wait w) in
    elim x.inner [
      | none ↦ none
      | some inner ↦
          let (made, w') = from_sync inner taken in
          some (made, drop_ends (record { send_wait = none; recv_wait = none; inner = none }) w')
    ]

-- `ShmemConnection::split`, with that of src/connection.rs, which clones the Arc for one half
unfoldable pub split : Ends → World → Option ((Half × Half) × World)
unfolding drop_ends half_from_sync clone_arc
split x w =
    let taken = drop_some_wait x.recv_wait (drop_some_wait x.send_wait w) in
    elim x.inner [
      | none ↦ none
      | some _ ↦
          let (sender, w1) = half_from_sync two_clones (clone_arc taken) in
          let (receiver, w2) = half_from_sync two_clones w1 in
          some (
            (sender, receiver),
            drop_ends (record { send_wait = none; recv_wait = none; inner = none }) w2,
          )
    ]
