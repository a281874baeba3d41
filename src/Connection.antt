-- ===== src/Connection.antt =====
-- src/connection.rs: a connection over a channel's two rings, and its halves, which share the
-- mapping. The waits of a blocking call are given turn by turn, as in Ring.Blocking.
pub mod Apart
pub mod Duplex
mod Tests
use shmem_ipc.Base.{ℕ, List, Option, some, none, ◌==◌, if◌then◌else◌, Bool}
use shmem_ipc.Error.{Result}
use shmem_ipc.Header.{global_header_size}
use shmem_ipc.Ring.State.{
  RingShm, RingSender, RingReceiver, PeekedMessage, new_sender, new_receiver,
}
use shmem_ipc.Ring.Receiver.{Views, try_recv}
use shmem_ipc.Ring.Framed.{Payload}
use shmem_ipc.Ring.Blocking
use shmem_ipc.Ring.Blocking.{SendTurn}
use shmem_ipc.Shared.State.{Role, RingWords, Mapping}
use shmem_ipc.Shared.Finish
use shmem_ipc.Shared.Finish.{Attempt}
use shmem_ipc.Channel.{ChannelConfig, RingPlace, from_shared}

-- The header words at an offset of the mapping.
abbrev pub words_at : (header_offset : ℕ) → Mapping → RingWords
words_at header_offset m = if header_offset == global_header_size then m.ring_a else m.ring_b

-- What the ring end at a place sees of the mapping.
abbrev pub seen : RingPlace → Mapping → RingShm
seen place m = record {
  mem = m.mem;
  header = (words_at place.header_offset m).header;
  writer_wakes = (words_at place.header_offset m).writer_wakes;
  reader_wakes = (words_at place.header_offset m).reader_wakes;
}

abbrev pub words_of : RingShm → RingWords
words_of shm = record {
  header = shm.header;
  writer_wakes = shm.writer_wakes;
  reader_wakes = shm.reader_wakes;
}

-- What the mapping is after the ring end at a place has left `shm`.
abbrev pub stored : RingPlace → RingShm → Mapping → Mapping
stored place shm m = record m {
  mem = shm.mem;
  ring_a = if place.header_offset == global_header_size then words_of shm else m.ring_a;
  ring_b = if place.header_offset == global_header_size then m.ring_b else words_of shm;
}

-- The pointers and the area of a RingSender or RingReceiver are its place.
pub record SendHalf : Type 0 where
  pub sender : RingSender
  pub place : RingPlace
  pub spin_count : ℕ

pub record RecvHalf : Type 0 where
  pub receiver : RingReceiver
  pub place : RingPlace
  pub spin_count : ℕ

pub record ShmemConnection : Type 0 where
  pub sender : RingSender
  pub outgoing : RingPlace
  pub receiver : RingReceiver
  pub incoming : RingPlace
  pub spin_count : ℕ

-- `Channel::from_shared` and `Channel::into_connection`
unfoldable pub into_connection : Role → ChannelConfig → ShmemConnection
into_connection role config = record {
  sender = new_sender;
  outgoing = (from_shared role config).0;
  receiver = new_receiver;
  incoming = (from_shared role config).1;
  spin_count = config.spin_count;
}

unfoldable pub split : ShmemConnection → SendHalf × RecvHalf
split c = (
  record { sender = c.sender; place = c.outgoing; spin_count = c.spin_count },
  record { receiver = c.receiver; place = c.incoming; spin_count = c.spin_count },
)

after_send : SendHalf → Mapping → Blocking.Sent → Option (Result (Unit {0})) × SendHalf × Mapping
after_send h m (answer, s, shm) = (answer, record h { sender = s }, stored h.place shm m)

-- `SendHalf::send` and `SendHalf::send_timeout`: they differ in what the waits of the turns return.
unfoldable pub send :
    Payload → List SendTurn → SendHalf → Mapping → Option (Result (Unit {0})) × SendHalf × Mapping
unfolding after_send
send payload turns h m =
    after_send h m (Blocking.send h.place.area payload turns h.sender (seen h.place m))

after_recv {ℓ} :
    {A : Type ℓ}
    → RecvHalf
    → Mapping
    → Result A × RingReceiver × RingShm
    → Result A × RecvHalf × Mapping
after_recv h m (answer, r, shm) = (answer, record h { receiver = r }, stored h.place shm m)

-- `RecvHalf::recv` and `RecvHalf::recv_timeout`, with what their wait returns.
unfoldable pub recv :
    (waited : Result PeekedMessage) → RecvHalf → Mapping → Result (List ℕ) × RecvHalf × Mapping
unfolding after_recv
recv waited h m = after_recv h m (Blocking.recv h.place.area waited h.receiver (seen h.place m))

-- `RecvHalf::try_recv`
unfoldable pub try_recv_half :
    (check_ready : Result Bool)
    → Views
    → RecvHalf
    → Mapping
    → Result (Option Payload) × RecvHalf × Mapping
unfolding after_recv
try_recv_half check_ready views h m =
    after_recv h m (try_recv h.place.area check_ready h.receiver views)

-- `close` of a connection or of either half: it is that of the channel they share.
unfoldable pub close_connection : List Attempt → Mapping → Option (Result (Unit {0}) × Mapping)
close_connection attempts m = Finish.close attempts m
