-- ===== src/Listener.antt =====
-- src/listener.rs: the name that a listener gives to each connection, the message that carries it
-- to the client, waiting for a client, and the pending pipe instance of the Windows listener.
pub mod Wire
pub mod Pending
pub mod Unique
pub mod Connect
mod Tests
use shmem_ipc.Base.{
  ℕ, zero, suc, ◌+◌, ◌*◌, ◌/◌, ◌%◌, Bool, true, false, ◌&&◌, List, [], ◌∷◌, ◌++◌, Option, some,
  none, ltb, leb, ◌==◌, if◌then◌else◌, length, take, drop, get_or,
}
use shmem_ipc.Base.Words.{add64, u16_of}
use shmem_ipc.Base.Digits.{decimal}
use shmem_ipc.Error.{Error, IoError, Result, ok, err, ◌>>=◌}

pub record Listener : Type 0 where
  pub name : List ℕ
  pub incarnation : List ℕ
  pub counter : ℕ

-- `format!("{}.conn.{}.{}", …)`, in bytes
unfoldable pub conn_name : Listener → List ℕ
unfolding decimal
conn_name l =
    l.name
    ++ (46 ∷ 99 ∷ 111 ∷ 110 ∷ 110 ∷ 46 ∷ [])
    ++ l.incarnation
    ++ (46 ∷ [])
    ++ decimal l.counter

-- `u16::to_le_bytes`
abbrev pub u16_to_le_bytes : ℕ → List ℕ
u16_to_le_bytes n = (n % 256) ∷ (n / 256 % 256) ∷ []

-- The message: the length, as a u16, and the bytes of the name.
unfoldable pub send_conn_name : List ℕ → List ℕ
send_conn_name bytes = u16_to_le_bytes (u16_of (length bytes)) ++ bytes

-- What one byte may begin in UTF-8: how many bytes follow, and the range of the next one.
abbrev utf8_start : ℕ → Option (ℕ × ℕ × ℕ)
utf8_start b =
    if ltb b 0x80
    then some (0, 0x80, 0xBF)
    else if ltb b 0xC2
    then none
    else if ltb b 0xE0
    then some (1, 0x80, 0xBF)
    else if b == 0xE0
    then some (2, 0xA0, 0xBF)
    else if b == 0xED
    then some (2, 0x80, 0x9F)
    else if ltb b 0xF0
    then some (2, 0x80, 0xBF)
    else if b == 0xF0
    then some (3, 0x90, 0xBF)
    else if ltb b 0xF4
    then some (3, 0x80, 0xBF)
    else if b == 0xF4
    then some (3, 0x80, 0x8F)
    else none

utf8_from : (need low high : ℕ) → List ℕ → Bool
utf8_from zero low high [] = true
utf8_from (suc need) low high [] = false
utf8_from (suc need) low high (b ∷ rest) = leb low b && leb b high && utf8_from need 0x80 0xBF rest
utf8_from zero low high (b ∷ rest) = elim (utf8_start b) [
  | none ↦ false
  | some (need, lo, hi) ↦ utf8_from need lo hi rest
]

-- Whether `String::from_utf8` succeeds.
unfoldable pub is_utf8 : List ℕ → Bool
unfolding utf8_from
is_utf8 bytes = utf8_from 0 0x80 0xBF bytes

-- `read_exact` of `n` bytes; at the end of the stream it fails with UnexpectedEof.
abbrev pub read_exact : ℕ → List ℕ → Result (List ℕ × List ℕ)
read_exact n stream =
    if ltb (length stream) n
    then err (Error.io (IoError.other 1))
    else ok (take n stream, drop n stream)

-- The name of `len` bytes that follows.
unfoldable pub read_name : (len : ℕ) → List ℕ → Result (List ℕ)
unfolding is_utf8
read_name len stream = do
  (name_buf, rest) ← read_exact len stream
  if is_utf8 name_buf then ok name_buf else err (Error.io IoError.invalid_data)

unfoldable pub read_conn_name : List ℕ → Result (List ℕ)
unfolding read_name
read_conn_name stream = do
  (len_buf, after_len) ← read_exact 2 stream
  read_name (get_or len_buf 0 0 + 256 * get_or len_buf 1 0) after_len

-- `handshake`: the connection, the listener, and what has been written. `create` is
-- `create_with_config`, by the name of the channel, and `written` what writing to the stream does.
unfoldable pub handshake {ℓ} :
    {A : Type ℓ}
    → (create : List ℕ → Result A) → (written : Result (Unit {0})) → Listener
    → Result A × Listener × List ℕ
unfolding conn_name send_conn_name
handshake create written l =
    let name = conn_name l in
    let next = record l { counter = add64 l.counter 1 } in
    elim (create name) [
      | err e ↦ (err e, next, [])
      | ok channel ↦ elim written [
        | err e ↦ (err e, next, [])
        | ok _ ↦ (ok channel, next, send_conn_name name)
      ]
    ]

-- The loop of `accept_timeout`: what each `accept` returns, and the time after it.
unfoldable pub accept_loop {ℓ} :
    {A : Type ℓ} (deadline : ℕ) → List (Result A × ℕ) → Option (Result A)
accept_loop deadline [] = none
accept_loop deadline ((accepted, now) ∷ rest) =
    let again = accept_loop deadline rest in
    elim accepted [
      | ok stream ↦ some (ok stream)
      | err (Error.io IoError.would_block) ↦
          if leb deadline now then some (err Error.timed_out) else again
      | err e ↦ some (err e)
    ]

-- What the channel of a pending accept yields in time.
pub data Received {ℓ} (A : Type ℓ) : Type ℓ where
  arrived : Result A → Received A
  timeout disconnected : Received A

-- The Windows listener's `pending_accept`, a pipe instance or none; `start` is what
-- `PendingAccept::start` returns.
unfoldable pub ensure_pending_accept : (start : Result ℕ) → Option ℕ → Result ℕ
ensure_pending_accept start (some pending) = ok pending
ensure_pending_accept start none = start

-- After the wait for a client of the instance `pending`; `prime` is what the next
-- `PendingAccept::start` returns.
unfoldable pub after_wait {ℓ} :
    {A : Type ℓ} → (pending : ℕ) → Received A → (prime : Result ℕ) → Result A × Option ℕ
after_wait pending (arrived (err e)) prime = (err e, none)
after_wait pending (arrived (ok pipe)) (err e) = (err e, none)
after_wait pending (arrived (ok pipe)) (ok next) = (ok pipe, some next)
after_wait pending timeout prime = (err Error.timed_out, some pending)
after_wait pending disconnected prime = (err (Error.io IoError.broken_pipe), none)

unfoldable pub wait_for_pipe_timeout {ℓ} :
    {A : Type ℓ}
    → (start : Result ℕ) → (received : ℕ → Received A) → (prime : Result ℕ) → Option ℕ
    → Result A × Option ℕ
unfolding ensure_pending_accept after_wait
wait_for_pipe_timeout start received prime st = elim (ensure_pending_accept start st) [
  | err e ↦ (err e, st)
  | ok pending ↦ after_wait pending (received pending) prime
]
