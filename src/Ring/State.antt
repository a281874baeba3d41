-- ===== src/Ring/State.antt =====
-- The state of one ring: what the two processes share, and the fields of RingSender and
-- RingReceiver of src/ring.rs that change. Their constant fields are the `Area`.
use shmem_ipc.Base.{ℕ}
use shmem_ipc.Header.{RingHeader}
use shmem_ipc.Memory.{Memory}

abbrev pub msg_header_size : ℕ
msg_header_size = 8

-- The mapped bytes, the ring's header words, and how often `wake_handle` was called on the
-- handles `writer_wait` and `reader_wait`.
pub record RingShm : Type 0 where
  pub mem : Memory
  pub header : RingHeader
  pub writer_wakes : ℕ
  pub reader_wakes : ℕ

pub record RingSender : Type 0 where
  pub next_seq : ℕ
  pub cached_wc : ℕ
  pub cached_rc : ℕ

pub record RingReceiver : Type 0 where
  pub expected_seq : ℕ
  pub cached_rc : ℕ

-- `RingSender::new` and `RingReceiver::new`
abbrev pub new_sender : RingSender
new_sender = record { next_seq = 1; cached_wc = 0; cached_rc = 0 }

abbrev pub new_receiver : RingReceiver
new_receiver = record { expected_seq = 1; cached_rc = 0 }

pub data TrySendResult : Type 0 where
  sent full : TrySendResult

pub record PeekedMessage : Type 0 where
  pub read_cursor : ℕ
  pub payload_len : ℕ
  pub seq : ℕ

pub data TryPeekResult : Type 0 where
  empty : TryPeekResult
  ready : PeekedMessage → TryPeekResult
