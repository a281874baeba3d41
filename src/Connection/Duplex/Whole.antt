-- ===== src/Connection/Duplex/Whole.antt =====
-- A connection of src/connection.rs as `from_shared` of src/channel.rs makes it for both roles.
use shmem_ipc.Base.{◌<◌, ◌^◌, ◌≡◌, refl, false, List, [], arith, ◌==◌}
use shmem_ipc.Error.{ok}
use shmem_ipc.Header.{global_header_size, ring_offsets}
use shmem_ipc.Ring.Area.{Area}
use shmem_ipc.Ring.State.{RingShm, new_sender, new_receiver}
use shmem_ipc.Ring.Framed.{done}
use shmem_ipc.Ring.Linked.{Linked}
use shmem_ipc.Shared.State.{Role, Mapping, RingWords}
use shmem_ipc.Channel.{ChannelConfig, RingPlace, ring_place, validate_config, from_shared}
use shmem_ipc.Channel.Rings.{other, crossed, from_shared-Apart, from_shared-IsArea}
use shmem_ipc.Connection.{seen, into_connection, split}
use shmem_ipc.Connection.Duplex.{Call, Pair, run, run_queues, sent_bytes}
use shmem_ipc.Connection.Duplex.Alone.{Across}
use shmem_ipc.Connection.Duplex.Links.{Joined}
use shmem_ipc.Connection.Duplex.Refines.{run-Joined}

-- The place of the ring on which a role sends.
abbrev place_of : ChannelConfig → Role → RingPlace
place_of config role = (from_shared role config).0

-- The halves of both processes over a mapping.
abbrev pub joined : ChannelConfig → Mapping → Pair
joined config m = record {
  senders = λ role. (split (into_connection role config)).0;
  receivers = λ role. (split (into_connection role config)).1;
  mapping = m;
}

-- Nothing has been written to a ring.
abbrev pub IsUnused : RingWords → Type 0
IsUnused w = (w.header.writer.write_cursor ≡ 0) × (w.header.reader.read_cursor ≡ 0)

place_of-Across :
    (config : ChannelConfig)
    → validate_config config ≡ ok tt
    → (role : Role) → Across (place_of config role) (place_of config (other role))
unfolding from_shared ring_offsets ring_place
place_of-Across config h Role.server = record {
  headers = λ e. ground (arith, e);
  areas = from_shared-Apart Role.server config;
  areas_back = from_shared-Apart Role.client config;
  valid = (from_shared-IsArea Role.server config h).0;
  valid_other = (from_shared-IsArea Role.client config h).0;
}
place_of-Across config h Role.client = record {
  headers = λ e. ground (arith, e);
  areas = from_shared-Apart Role.client config;
  areas_back = from_shared-Apart Role.server config;
  valid = (from_shared-IsArea Role.client config h).0;
  valid_other = (from_shared-IsArea Role.server config h).0;
}

unused-Linked :
    (a : Area) (m : RingShm)
    → m.header.writer.write_cursor ≡ 0
    → m.header.reader.read_cursor ≡ 0
    → Linked a new_sender new_receiver m []
unused-Linked a m written read = record {
  queued = done refl refl;
  wrote = written;
  freed = read;
  behind = omega arith;
  room = omega arith;
  no_wrap = omega arith;
  word = omega arith;
}

first_link :
    (config : ChannelConfig) (m : Mapping)
    → IsUnused m.ring_a
    → IsUnused m.ring_b
    → (role : Role)
    → Linked (place_of config role).area new_sender new_receiver (seen (place_of config role) m) []
unfolding from_shared ring_offsets ring_place
first_link config m (wa, ra) b Role.server =
    unused-Linked (place_of config Role.server).area (seen (place_of config Role.server) m) wa ra
first_link config m a (wb, rb) Role.client =
    let second : ((place_of config Role.client).header_offset == global_header_size) ≡ false =
      ground arith in
    unused-Linked (place_of config Role.client).area (seen (place_of config Role.client) m)
      (rw second wb) (rw second rb)

joined-Joined :
    (config : ChannelConfig) (m : Mapping)
    → IsUnused m.ring_a
    → IsUnused m.ring_b
    → Joined (place_of config) (joined config m) (λ role. [])
unfolding into_connection split
joined-Joined config m a b = record {
  out_place = λ role. refl;
  in_place = λ role. (crossed role config).1;
  link = first_link config m a b;
}

place_of_size :
    (config : ChannelConfig) (role : Role)
    → (place_of config role).area.ring_data_size ≡ config.ring_size
unfolding from_shared ring_place
place_of_size config Role.server = refl
place_of_size config Role.client = refl

-- With an accepted configuration and unused rings: whatever sends with a timeout and non-blocking
-- receives the two processes of a connection make on its halves, in whatever order, and whatever
-- the state checks in them answer, the answers are those of two bounded queues of whole messages,
-- one for each direction. So each message arrives once, whole, in order and at the other process
-- only, a send times out only if its own direction is full or the channel not ready, and the two
-- directions, which share the mapping, do not disturb each other. Fewer than 2 ^ 64 bytes are
-- written in each direction.
pub connection-refines :
    (config : ChannelConfig) (m : Mapping) (calls : List Call)
    → validate_config config ≡ ok tt
    → IsUnused m.ring_a
    → IsUnused m.ring_b
    → ((role : Role) → sent_bytes role calls < 2 ^ 64)
    → run calls (joined config m) ≡ run_queues config.ring_size calls (λ role. [])
unfolding into_connection split
connection-refines config m calls h a b bytes =
    run-Joined (place_of config) config.ring_size calls (joined config m) (λ role. [])
      (place_of_size config) (place_of-Across config h) (joined-Joined config m a b)
      (λ role. omega (arith, bytes role))
