-- ===== src/Shared/State.antt =====
-- What SharedChannel of src/shared.rs holds and sees: the mapped headers, the calls of
-- `wake_handle`, and the observer of the peer process.
use shmem_ipc.Base.{ℕ, ◌+◌, Option, some, none}
use shmem_ipc.Base.Words.{add32}
use shmem_ipc.Error.{Error, Result, ok, err}
use shmem_ipc.Header.{
  ChannelState, init, closed, peer_disconnected, from_u32, GlobalHeader, RingHeader,
}
use shmem_ipc.Memory.{Memory}
use shmem_ipc.Platform.{ProcessMonitor}

pub data Role : Type 0 where
  server client : Role

-- One ring's header words, and how often its two wait handles were woken.
pub record RingWords : Type 0 where
  pub header : RingHeader
  pub writer_wakes : ℕ
  pub reader_wakes : ℕ

-- The mapping of a channel, with its two rings.
pub record Mapping : Type 0 where
  pub global : GlobalHeader
  pub mem : Memory
  pub ring_a : RingWords
  pub ring_b : RingWords

-- The observer under the lock `peer`, and the time of its next use.
pub record Observer : Type 0 where
  pub peer : Option ProcessMonitor
  pub next_probe_ms : ℕ

abbrev pub set_state : ℕ → Mapping → Mapping
set_state s m = record m { global = record (m.global) { state = s } }

-- The body of `wake_all`'s loop: the notify words are bumped and both sides woken.
unfoldable pub wake_ring : RingWords → RingWords
wake_ring w = record {
  header = record {
    writer = record (w.header.writer) { notify = add32 w.header.writer.notify 1 };
    reader = record (w.header.reader) { notify = add32 w.header.reader.notify 1 };
  };
  writer_wakes = w.writer_wakes + 1;
  reader_wakes = w.reader_wakes + 1;
}

unfoldable pub wake_all : Mapping → Mapping
unfolding wake_ring
wake_all m = record m { ring_a = wake_ring m.ring_a; ring_b = wake_ring m.ring_b }

-- `state`: an unknown word counts as closed.
unfoldable pub state : Mapping → ChannelState
unfolding from_u32
state m = elim (from_u32 m.global.state) [ some s ↦ s | none ↦ closed ]

unfoldable pub terminal_of : Option ChannelState → Result (Unit {0})
terminal_of none = err Error.invalid_header
terminal_of (some init) = err Error.invalid_header
terminal_of (some closed) = err Error.channel_closed
terminal_of (some peer_disconnected) = err Error.peer_disconnected
terminal_of (some _) = ok tt

unfoldable pub terminal : Mapping → Result (Unit {0})
unfolding terminal_of from_u32
terminal m = terminal_of (from_u32 m.global.state)
