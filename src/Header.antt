-- ===== src/Header.antt =====
-- src/header.rs: the layout of the mapped file, the global header and the two ring headers.
-- The typed words of a header are fields here; the bytes of the two data areas are the memory
-- of Memory.antt, at the offsets that `ring_offsets` computes.
pub mod Layout
pub mod States
mod Tests
use shmem_ipc.Base.{
  ℕ, zero, ◌+◌, ◌*◌, ◌≡◌, Bool, true, false, not, ◌||◌, Option, none, some, ◌==◌, if◌then◌else◌,
}
use shmem_ipc.Error.{Error, Result, ok, err}

abbrev pub magic_number : ℕ
magic_number = 0x5348_4D43

abbrev pub protocol_version : ℕ
protocol_version = 1

abbrev pub global_header_size : ℕ
global_header_size = 256

abbrev pub ring_header_size : ℕ
ring_header_size = 128

pub data ChannelState : Type 0 where
  init server_ready client_claimed connected closed peer_disconnected : ChannelState

-- `state as u32`
abbrev pub as_u32 : ChannelState → ℕ
as_u32 init = 0
as_u32 server_ready = 1
as_u32 client_claimed = 2
as_u32 connected = 3
as_u32 closed = 4
as_u32 peer_disconnected = 5

unfoldable pub from_u32 : ℕ → Option ChannelState
from_u32 v =
    if v == 0
    then some init
    else if v == 1
    then some server_ready
    else if v == 2
    then some client_claimed
    else if v == 3
    then some connected
    else if v == 4
    then some closed
    else if v == 5
    then some peer_disconnected
    else none

unfoldable pub is_active : ChannelState → Bool
is_active connected = true
is_active _ = false

-- `state` holds the raw u32 that the other process may write.
pub record GlobalHeader : Type 0 where
  pub magic : ℕ
  pub version : ℕ
  pub ring_data_size : ℕ
  pub server_pid : ℕ
  pub server_birth : ℕ
  pub wait_key : ℕ
  pub client_pid : ℕ
  pub client_birth : ℕ
  pub state : ℕ

unfoldable pub validate : GlobalHeader → Result (Unit {0})
validate h =
    if not (h.magic == magic_number) || not (h.version == protocol_version)
    then err Error.invalid_header
    else ok tt

pub record WriteCursorLine : Type 0 where
  pub write_cursor : ℕ
  pub notify : ℕ
  pub parked : ℕ

pub record ReadCursorLine : Type 0 where
  pub read_cursor : ℕ
  pub notify : ℕ
  pub parked : ℕ

pub record RingHeader : Type 0 where
  pub writer : WriteCursorLine
  pub reader : ReadCursorLine

pub record RingOffsets : Type 0 where
  pub ring_a_header : ℕ
  pub ring_a_data : ℕ
  pub ring_b_header : ℕ
  pub ring_b_data : ℕ
  pub total_size : ℕ

-- `RingOffsets::new`
unfoldable pub ring_offsets : ℕ → RingOffsets
ring_offsets ring_data_size =
    let ring_total = ring_header_size + ring_data_size in
    record {
      ring_a_header = global_header_size;
      ring_a_data = global_header_size + ring_header_size;
      ring_b_header = global_header_size + ring_total;
      ring_b_data = global_header_size + ring_total + ring_header_size;
      total_size = global_header_size + ring_total * 2;
    }
