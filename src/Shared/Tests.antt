-- ===== src/Shared/Tests.antt =====
-- Runs of the model of src/shared.rs, and the theorems at such inputs.
use shmem_ipc.Base.{◌≡◌, ◌≢◌, refl, sym, ◌∙◌, Bool, true, false, List, [], ◌∷◌, some, none, arith}
use mathlib.Core.Path.{subst⁻¹}
use shmem_ipc.Error.{Error, Result, ok, err}
use shmem_ipc.Header.{
  ChannelState, server_ready, client_claimed, connected, peer_disconnected, as_u32, from_u32,
  magic_number, protocol_version,
}
use shmem_ipc.Platform.{ProcessStat, ProcessMonitor, is_alive}
use shmem_ipc.Shared.State.{Role, RingWords, Mapping, Observer, set_state, wake_all}
use shmem_ipc.Shared.Protocol.{IsTerminal, Later, same, after, claim, connect, retire}
use shmem_ipc.Shared.Finish.{Attempt, finish, finish_loop, is_settled, close}
use shmem_ipc.Shared.Finish.Ends.{Follows, Ended, finish_ends}
use shmem_ipc.Shared.Finish.Close.{Answer, close_ends}
use shmem_ipc.Shared.Dropped.{drop_channel, MayRemove, drop_channel_ends}
use shmem_ipc.Shared.Ready.{
  Round, Left, broke, glance, ready_loop, peer_identity, Meets, check_ready,
}
use shmem_ipc.Shared.Ready.Loop.{LoopEnd, ready_loop_ends}
use shmem_ipc.Shared.Ready.Probe.{watched, EndFollows, Retired, check_ready_dead}

abbrev words : RingWords
words = record {
  header = record {
    writer = record { write_cursor = 0; notify = 0; parked = 0 };
    reader = record { read_cursor = 0; notify = 0; parked = 0 };
  };
  writer_wakes = 0;
  reader_wakes = 0;
}

-- A connected channel between the processes 4 and 7.
abbrev live : Mapping
live = record {
  global = record {
    magic = magic_number;
    version = protocol_version;
    ring_data_size = 64;
    server_pid = 4;
    server_birth = 40;
    wait_key = 1;
    client_pid = 7;
    client_birth = 70;
    state = 3;
  };
  mem = λ _. 0;
  ring_a = words;
  ring_b = words;
}

-- The first attempt fails for no reason, the second succeeds.
abbrev quiet : List Attempt
quiet =
    record { now = 3; spurious = true }
    ∷ record { now = 3; spurious = false }
    ∷ record { now = 3; spurious = false }
    ∷ []

quiet-Follows : Follows connected quiet
quiet-Follows = (connected, refl, same, (connected, refl, same, (connected, refl, same, tt)))

finish_ends_example :
    (m' : Mapping) × (finish peer_disconnected quiet live ≡ some m')
    × Ended peer_disconnected connected quiet live m'
finish_ends_example =
    finish_ends peer_disconnected connected quiet live refl quiet-Follows (omega arith)

quiet_run : finish peer_disconnected quiet live ≡ some (wake_all (set_state 5 live))
unfolding finish finish_loop is_settled from_u32
quiet_run = refl

-- The other process finds its peer dead before the first attempt.
abbrev overtaken : List Attempt
overtaken = record { now = 5; spurious = false } ∷ record { now = 5; spurious = false } ∷ []

close_ends_example :
    (r : Result (Unit {0})) × (m' : Mapping) × (close overtaken live ≡ some (r, m'))
    × Answer connected overtaken live m' r
    × ((again : List Attempt) → close again m' ≡ some (r, m'))
close_ends_example =
    close_ends connected overtaken live refl
      (
        peer_disconnected,
        refl,
        after same (retire (omega arith) refl),
        (peer_disconnected, refl, same, tt),
      )
      (omega arith)

-- A client claims the channel under the first `compare_exchange`, and connects.
abbrev arriving : List Round
arriving =
    record { at_load = 1; elapsed = 10; at_cas = 2 }
    ∷ record { at_load = 3; elapsed = 11; at_cas = 3 }
    ∷ record { at_load = 3; elapsed = 12; at_cas = 3 }
    ∷ record { at_load = 3; elapsed = 13; at_cas = 3 }
    ∷ []

arriving_run : ready_loop 10 arriving live ≡ some (broke, live)
unfolding ready_loop glance from_u32
arriving_run = refl

ready_loop_ends_example :
    (l : Left) × (m' : Mapping) × (ready_loop 10 arriving live ≡ some (l, m'))
    × LoopEnd 10 server_ready arriving live l m'
ready_loop_ends_example =
    ready_loop_ends 10 server_ready arriving live (omega arith)
      (
        server_ready,
        client_claimed,
        refl,
        refl,
        same,
        after same claim,
        (
          connected,
          connected,
          refl,
          refl,
          after same connect,
          same,
          (
            connected,
            connected,
            refl,
            refl,
            same,
            same,
            (connected, connected, refl, refl, same, same, tt),
          ),
        ),
      )
      (omega arith)

-- No process has the pid of the client any more.
abbrev no_process : ProcessStat
no_process _ = err Error.peer_disconnected

abbrev dying : Meets
dying = record { first_look = 0; poisoned = false; at_probe = 3; attempts = quiet; at_end = 5 }

abbrev unopened : Observer
unopened = record { peer = none; next_probe_ms = 0 }

five :
    (m' : Mapping) (v : ChannelState)
    → some (wake_all (set_state 5 live)) ≡ some m'
    → m'.global.state ≡ as_u32 v
    → v ≡ peer_disconnected
unfolding wake_all
five m' v e at = ground (arith, e, at)

dying-EndFollows : EndFollows dying live
dying-EndFollows m' v run at = (
  peer_disconnected,
  refl,
  subst⁻¹ (λ s. Later s peer_disconnected) (five m' v (sym quiet_run ∙ run) at) same,
)

no_process_dead : (monitor : ProcessMonitor) → is_alive no_process monitor ≡ ok false
unfolding is_alive
no_process_dead monitor = refl

client_pid : (watched Role.server live unopened).pid ≢ 0
unfolding peer_identity
client_pid = omega arith

check_ready_dead_example :
    (r : Result Bool) × (m' : Mapping) × (o' : Observer) × (check_ready no_process Role.server 10
        arriving 250 dying live unopened
      ≡ some (r, m', o'))
    × Retired quiet live m' r
check_ready_dead_example =
    check_ready_dead no_process Role.server 10 arriving 250 dying live live unopened arriving_run
      (omega arith) refl (omega arith) refl client_pid (no_process_dead _) quiet-Follows
      (omega arith) dying-EndFollows

-- A client that has watched its server die.
abbrev watching_server : ProcessMonitor
watching_server = record { identity = record { pid = 4; birth = 40 } }

drop_channel_ends_example :
    (remove : Bool) × (m' : Mapping) × (u : ChannelState) × (drop_channel no_process Role.client
        false
        (some watching_server)
        quiet
        live
      ≡ some (remove, m'))
    × IsTerminal u
    × (m'.global.state ≡ as_u32 u)
    × (Role.client ≡ Role.server → remove ≡ true)
    × (remove ≡ true → MayRemove no_process Role.client (some watching_server))
drop_channel_ends_example =
    drop_channel_ends no_process Role.client false (some watching_server) connected quiet live refl
      quiet-Follows (omega arith)
