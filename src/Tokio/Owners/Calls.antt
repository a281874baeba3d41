-- ===== src/Tokio/Owners/Calls.antt =====
-- What a program does with a Channel of src/tokio/mod.rs: it is turned into a connection, split,
-- used, and dropped piece by piece, in any order that ownership allows.
use shmem_ipc.Base.{Option, some, none, List, [], ◌∷◌}
use shmem_ipc.Tokio.Owners.{
  World, Spawned, Ends, Half, new_channel, from_sync, ensure_running, drop_ends, drop_half,
  into_connection, split, AsyncWait,
}

-- What the program holds: a dropped half is `none`.
pub data Held : Type 0 where
  channel connection : Ends → Held
  halves : Option Half → Option Half → Held
  nothing : Held

-- A use of one direction starts the thread of its wait if that does not run. A call that needs
-- something the program does not hold is none.
pub data Call : Type 0 where
  use_send use_recv : Spawned → Call
  convert separate : Call
  drop_whole drop_send drop_recv : Call

-- `snapshot` and `wait_changed` first call `ensure_running`; `none` is the panic of `expect`.
unfoldable pub use_wait : Spawned → Option AsyncWait → World → Option (AsyncWait × World)
unfolding ensure_running
use_wait s none w = none
use_wait s (some x) w = let (_, x', w') = ensure_running s x w in some (x', w')

abbrev with_send : (Ends → Held) → Ends → Option (AsyncWait × World) → Option (Held × World)
with_send f x none = none
with_send f x (some (wait, w)) = some (f (record x { send_wait = some wait }), w)

abbrev with_recv : (Ends → Held) → Ends → Option (AsyncWait × World) → Option (Held × World)
with_recv f x none = none
with_recv f x (some (wait, w)) = some (f (record x { recv_wait = some wait }), w)

abbrev with_half : (Half → Held) → Half → Option (AsyncWait × World) → Option (Held × World)
with_half f x none = none
with_half f x (some (wait, w)) = some (f (record x { wait = some wait }), w)

abbrev converted : Option (Ends × World) → Option (Held × World)
converted none = none
converted (some (x, w)) = some (connection x, w)

abbrev separated : Option ((Half × Half) × World) → Option (Held × World)
separated none = none
separated (some ((s, r), w)) = some (halves (some s) (some r), w)

unfoldable pub call : Call → Held → World → Option (Held × World)
unfolding use_wait into_connection split drop_ends drop_half
call (use_send s) (channel x) w = with_send channel x (use_wait s x.send_wait w)
call (use_send s) (connection x) w = with_send connection x (use_wait s x.send_wait w)
call (use_send s) (halves (some h) r) w =
    with_half (λ h'. halves (some h') r) h (use_wait s h.wait w)
call (use_recv s) (channel x) w = with_recv channel x (use_wait s x.recv_wait w)
call (use_recv s) (connection x) w = with_recv connection x (use_wait s x.recv_wait w)
call (use_recv s) (halves h (some r)) w =
    with_half (λ r'. halves h (some r')) r (use_wait s r.wait w)
call convert (channel x) w = converted (into_connection x w)
call separate (connection x) w = separated (split x w)
call drop_whole (channel x) w = some (nothing, drop_ends x w)
call drop_whole (connection x) w = some (nothing, drop_ends x w)
call drop_send (halves (some h) r) w = some (halves none r, drop_half h w)
call drop_recv (halves h (some r)) w = some (halves h none, drop_half r w)
call c h w = some (h, w)

-- `Channel::create` or `open`
unfoldable pub created : Held × World
unfolding from_sync new_channel
created = let (inner, w) = new_channel in let (x, w') = from_sync inner w in (channel x, w')

unfoldable pub run : List Call → Held → World → Option (Held × World)
unfolding call
run [] h w = some (h, w)
run (c ∷ cs) h w = elim (call c h w) [ none ↦ none | some (h', w') ↦ run cs h' w' ]
