-- ===== src/Lib.antt =====
-- shmem-ipc: message channels between two processes over one memory-mapped file.
--
-- A channel (src/channel.rs) is a mapped file with a global header, which holds a state word and
-- the identities of its two processes, and two rings, one for each direction. A ring
-- (src/ring.rs) has one sending and one receiving process. The sender copies a message, framed by
-- its length and sequence number, into the ring's data area and then moves the write cursor; the
-- receiver copies it out, checks the number and moves the read cursor. Each asks the shared
-- channel (src/shared.rs) whether the channel is still open, and that asks the platform
-- (src/platform/linux.rs) whether the peer process is alive.
--
-- Which file models which part:
--   Base       numbers, lists, Boolean tests, machine words; shared by all
--   Error      src/error.rs: Error, Result, and `?` as >>=
--   Header     src/header.rs: ChannelState, GlobalHeader, RingHeader, RingOffsets::new
--   Memory     the bytes of the mapping, and ptr::copy_nonoverlapping in and out of them
--   Ring       src/ring.rs: Ring.Area is the data area with write_ring and read_ring, Ring.State
--              the states, Ring.Sender and Ring.Receiver the operations of RingSender and
--              RingReceiver, Ring.Blocking their blocking ones, Ring.Queue the specification,
--              Ring.Steps the two processes one memory access at a time
--   Platform   src/platform/mod.rs and linux.rs: process identities and the process observer, with
--              Platform.Proc for the text of /proc and Platform.Names for the incarnation of a
--              listener; Platform.Windows is src/platform/windows.rs, with Handles, Timer,
--              EventName, Process, and AsyncWait for a waiting task one access at a time
--   Shared     src/shared.rs: Shared.State holds what SharedChannel holds, Shared.Finish is
--              finish and close, Shared.Ready is check_ready, Shared.Dropped is drop
--   Wait       src/wait.rs: SpinThenWait and SpinOnly; Wait.Steps is a waiting and a publishing
--              process one memory access at a time
--   Channel    src/channel.rs: Channel.Config, Channel.Claim, Channel.Open, Channel.Rings and
--              Channel.Patience are about validate_config, try_open, its fit with
--              create_with_config, from_shared and open_with_config
--   Connection src/connection.rs: the halves over the shared mapping; Connection.Duplex is both
--              processes' use of them, with the two queues that they refine
--   Listener   src/listener.rs: the handshake and its names, the client's side (Listener.Connect),
--              and the pending pipe instance of the Windows listener
--   Tokio      src/tokio/mod.rs: the loops under the asynchronous operations, with Tokio.Receive
--              for recv_async and recv_into_async; Tokio.Bridge is the
--              bridge thread of src/tokio/bridge.rs with its tasks, one access at a time;
--              Tokio.Listener is src/tokio/listener.rs
--
-- How the code corresponds. A function that changes a struct takes it and returns it, with what
-- the function returns in front; `&mut self` of a ring end is the record RingSender or
-- RingReceiver, and the memory that both processes map is the record RingShm (one ring) or Mapping
-- (the channel). The constant fields of a ring end are an Area. Integers are natural numbers; sums
-- and differences of u32 and u64 wrap around (Base.Words), as in a release build. An early return
-- by `?` is >>= or a case. `check_ready` is modelled in Shared; the operations of a ring take its
-- result as an argument, so that what is proved of them holds for every result.
--
-- Concurrency. In Ring.Steps, Wait.Steps, Tokio.Bridge and Platform.Windows.AsyncWait an
-- interleaving is a sequence of single accesses of the processes and threads, sequentially
-- consistent. Elsewhere what another process may change between two accesses is an argument: Views
-- for a receiving call, a list of Attempt for the compare_exchange_weak loop of finish (which may
-- also fail spuriously), a list of Round for the loop of check_ready, Meets for its probe, a list of
-- Turn for a wait, Met for try_open. `Follows`, `RoundsFollow` and `EndFollows` say that
-- the others move the state word along Shared.Protocol.Transition only.
--
-- Bounds and fuel. The loops of finish and check_ready recurse on those lists, and answer none
-- where a list ends before the loop; five attempts that are not spurious, and four rounds, are
-- enough, because the state only goes forward. The write cursor is assumed to stay below 2 ^ 64
-- bytes; the sequence number wraps at 2 ^ 32. Waits recurse on the list of their turns: they end
-- at the first turn past the deadline, or within 1024 turns past it where they only spin. The
-- loop of open_with_config recurses on its attempts in the same way. A ring's size is a power of two from 64 up to
-- 2 ^ 31.
--
-- Parameters. The text that /proc has for a process is an argument of the observer; what the file
-- system answers when a channel's file is made or opened is an argument of create_with_config and
-- try_open. The calls of Windows are arguments too: their answers, and for the timer of a wait the
-- record Kernel with what its documentation says (IsDocumented).
--
-- Not modelled: weak memory orderings; the file system and mmap; sockets and
-- pipes.
pub mod Base
pub mod Error
pub mod Header
pub mod Memory
pub mod Ring
pub mod Platform
pub mod Shared
pub mod Wait
pub mod Channel
pub mod Connection
pub mod Listener
pub mod Tokio
