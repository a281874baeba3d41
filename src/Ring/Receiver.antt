-- ===== src/Ring/Receiver.antt =====
-- RingReceiver of src/ring.rs. Where a call looks at shared memory more than once, it is given
-- what it sees each time (`Views`), since the sender may have published in between.
use shmem_ipc.Base.{
  ℕ, ◌+◌, ◌-◌, ◌≡◌, refl, ap, Bool, not, List, [], ◌∷◌, ◌++◌, Option, none, some, ltb, ◌==◌,
  if◌then◌else◌, length, get_or, take, drop,
}
use shmem_ipc.Base.Words.{add32, add64, sub64}
use shmem_ipc.Error.{Error, Result, ok, err, ◌>>=◌}
use shmem_ipc.Memory.{Memory}
use shmem_ipc.Ring.Area.{Area, read_ring}
use shmem_ipc.Ring.Encoding.{from_le_bytes}
use shmem_ipc.Ring.State.{
  RingShm, RingReceiver, PeekedMessage, TryPeekResult, empty, ready, msg_header_size,
}

-- `vec![0u8; n]`
unfoldable pub zeroed : ℕ → List ℕ
zeroed ℕ.zero = []
zeroed (ℕ.suc n) = 0 ∷ zeroed n

pub length-zeroed : (n : ℕ) → length (zeroed n) ≡ n
unfolding zeroed
length-zeroed ℕ.zero = refl
length-zeroed (ℕ.suc n) = ap ℕ.suc (length-zeroed n)

module _ (a : Area) where
  unfoldable pub read_msg_header : ℕ → Memory → ℕ × ℕ
  read_msg_header cursor mem =
      let header = read_ring a cursor msg_header_size mem in
      (
        from_le_bytes (get_or header 0 0) (get_or header 1 0) (get_or header 2 0)
            (get_or header 3 0),
        from_le_bytes (get_or header 4 0) (get_or header 5 0) (get_or header 6 0)
            (get_or header 7 0),
      )

  -- `try_peek_message` after its load of `write_cursor`.
  unfoldable pub peek_below : ℕ → RingReceiver → Memory → Result TryPeekResult
  peek_below wc r mem =
      let rc = r.cached_rc in
      let (payload_len, seq) = read_msg_header rc mem in
      let msg_len = msg_header_size + payload_len in
      if ltb (sub64 wc rc) msg_header_size
      then ok empty
      else if ltb (a.ring_data_size - msg_header_size) payload_len
      then err (Error.message_too_large payload_len (a.ring_data_size - msg_header_size))
      else if ltb (sub64 wc rc) msg_len
      then ok empty
      else ok (ready (record { read_cursor = rc; payload_len = payload_len; seq = seq }))

  unfoldable pub try_peek_message : RingReceiver → RingShm → Result TryPeekResult
  unfolding peek_below
  try_peek_message r m = peek_below m.header.writer.write_cursor r m.mem

  -- The result, and the caller's buffer afterwards.
  unfoldable pub copy_current_message : PeekedMessage → List ℕ → RingShm → Result ℕ × List ℕ
  copy_current_message message buf m =
      if ltb (length buf) message.payload_len
      then (err (Error.message_too_large message.payload_len (length buf)), buf)
      else (
        ok message.payload_len,
        read_ring a (add64 message.read_cursor msg_header_size) message.payload_len m.mem
            ++ drop message.payload_len buf,
      )

unfoldable pub validate_seq : ℕ → RingReceiver → Result (Unit {0}) × RingReceiver
validate_seq seq r =
    if not (seq == r.expected_seq)
    then (err (Error.sequence_mismatch r.expected_seq seq), r)
    else (ok tt, record r { expected_seq = add32 r.expected_seq 1 })

-- The store to `read_cursor`, and the receiver's copy of it.
unfoldable pub store_read_cursor : ℕ → RingReceiver → RingShm → RingReceiver × RingShm
store_read_cursor new_rc r m = (
  record r { cached_rc = new_rc },
  record m {
    header = record (m.header) { reader = record (m.header.reader) { read_cursor = new_rc } };
  },
)

-- `notify.fetch_add(1)`, then `wake_handle` if the writer is parked.
unfoldable pub notify_writer : RingShm → RingShm
notify_writer m = record m {
  header = record (m.header) {
    reader = record (m.header.reader) { notify = add32 m.header.reader.notify 1 };
  };
  reader_wakes = if m.header.reader.parked == 0 then m.reader_wakes else m.reader_wakes + 1;
}

-- After the check of the sequence number.
unfoldable pub commit_checked :
    PeekedMessage
    → RingShm
    → Result (Unit {0}) × RingReceiver
    → Result (Unit {0}) × RingReceiver × RingShm
unfolding store_read_cursor
commit_checked message m (err e, r) = (err e, r, m)
commit_checked message m (ok _, r) =
    let new_rc = add64 message.read_cursor (msg_header_size + message.payload_len) in
    let (r', stored) = store_read_cursor new_rc r m in (ok tt, r', notify_writer stored)

unfoldable pub commit_current_message :
    PeekedMessage → RingReceiver → RingShm → Result (Unit {0}) × RingReceiver × RingShm
unfolding commit_checked
commit_current_message message r m = commit_checked message m (validate_seq message.seq r)

-- The result of a call that ends in `commit_current_message(message)?`.
abbrev pub then_return {ℓ} :
    {A : Type ℓ}
    → Result A
    → Result (Unit {0}) × RingReceiver × RingShm
    → Result A × RingReceiver × RingShm
then_return x (err e, r, m) = (err e, r, m)
then_return x (ok _, r, m) = (x, r, m)

-- What a receiving call sees: at its first look, at the second look after `check_ready` failed,
-- and when it copies and commits.
pub record Views : Type 0 where
  pub first : RingShm
  pub again : RingShm
  pub last : RingShm

-- `Ok(Some(buf))`
abbrev pub received :
    Result (List ℕ) × RingReceiver × RingShm → Result (Option (List ℕ)) × RingReceiver × RingShm
received (err e, r, m) = (err e, r, m)
received (ok buf, r, m) = (ok (some buf), r, m)

module _ (a : Area) where
  -- The second look after the channel was found closed: a record published before is not lost.
  unfoldable pub look_again : RingReceiver → RingShm → Error → Result (Option PeekedMessage)
  look_again r m error = do
    peeked ← try_peek_message a r m
    elim peeked [ ready message ↦ ok (some message) | empty ↦ err error ]

  unfoldable pub empty_or_closed :
      Result Bool → RingReceiver → RingShm → Result (Option PeekedMessage)
  empty_or_closed (ok _) r m = ok none
  empty_or_closed (err Error.channel_closed) r m = look_again r m Error.channel_closed
  empty_or_closed (err Error.peer_disconnected) r m = look_again r m Error.peer_disconnected
  empty_or_closed (err error) r m = err error

  -- `check_ready` is what that call returns, if it is made.
  unfoldable pub try_peek_or_closed :
      Result Bool → RingReceiver → Views → Result (Option PeekedMessage)
  try_peek_or_closed check_ready r v = do
    peeked ← try_peek_message a r v.first
    elim peeked [
      | ready message ↦ ok (some message)
      | empty ↦ empty_or_closed check_ready r v.again
    ]

  -- The end of `recv` and of `try_recv`: copy into a fresh buffer, then commit.
  unfoldable pub take_message :
      PeekedMessage → RingReceiver → RingShm → Result (List ℕ) × RingReceiver × RingShm
  take_message message r m =
      let (copied, buf) = copy_current_message a message (zeroed message.payload_len) m in
      let committed = commit_current_message message r m in
      elim copied [ err e ↦ (err e, r, m) | ok _ ↦ then_return (ok buf) committed ]

  -- The end of `recv_into`: a message that does not fit is committed, and so dropped.
  unfoldable pub take_message_into :
      PeekedMessage → List ℕ → RingReceiver → RingShm → List ℕ × (Result ℕ × RingReceiver × RingShm)
  take_message_into message buf r m =
      let payload_len = message.payload_len in
      let (copied, head) = copy_current_message a message (take payload_len buf) m in
      let committed = commit_current_message message r m in
      if ltb (length buf) payload_len
      then (buf, then_return (err (Error.message_too_large payload_len (length buf))) committed)
      else elim copied [
        | err e ↦ (buf, (err e, r, m))
        | ok _ ↦ (head ++ drop payload_len buf, then_return (ok payload_len) committed)
      ]

  -- The arms of `try_recv`'s match.
  unfoldable pub take_peeked :
      Result (Option PeekedMessage)
      → RingReceiver
      → RingShm
      → Result (Option (List ℕ)) × RingReceiver × RingShm
  take_peeked (err e) r m = (err e, r, m)
  take_peeked (ok none) r m = (ok none, r, m)
  take_peeked (ok (some message)) r m = received (take_message message r m)

  unfoldable pub try_recv :
      Result Bool → RingReceiver → Views → Result (Option (List ℕ)) × RingReceiver × RingShm
  try_recv check_ready r v = take_peeked (try_peek_or_closed check_ready r v) r v.last
