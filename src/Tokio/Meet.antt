-- ===== src/Tokio/Meet.antt =====
-- Client and listener meet, in every pairing of src/listener.rs and src/tokio/listener.rs.
use shmem_ipc.Base.{
  ℕ, ◌+◌, ◌<◌, ◌^◌, ◌≡◌, refl, ◌∙◌, inl, inr, Bool, true, List, [], ◌∷◌, ◌++◌, Option, some, none,
  arith, ltb, length,
}
use shmem_ipc.Error.{Error, Result, ok, err, ◌>>◌, Result-cases}
use shmem_ipc.Platform.{ProcessIdentity, ProcessStat, ProcessMonitor, current_identity}
use shmem_ipc.Channel.{ChannelConfig, validate_config, open_loop, open_with_config}
use shmem_ipc.Listener.{Listener, conn_name, send_conn_name, is_utf8, handshake}
use shmem_ipc.Listener.Wire.{read_conn_name-send_conn_name}
use shmem_ipc.Listener.Connect.{Opens, connect_loop, open_named, opener, connect}
use shmem_ipc.Tokio.Listener.{
  finish_accept, connect_loop_async, open_channel_loop, open_channel, connect_async,
}

-- Attempts before the deadline that fail with errors after which the client tries again.
pub data Early (yet : Error → Bool) (deadline : ℕ) : List (Result (List ℕ) × ℕ) → Type 0 where
  no_more : Early yet deadline []
  one_more :
      {e : Error} {now : ℕ} {rest : List (Result (List ℕ) × ℕ)}
      → yet e ≡ true
      → now < deadline
      → Early yet deadline rest
      → Early yet deadline ((err e, now) ∷ rest)

connect_loop-Early :
    {yet : Error → Bool} (deadline : ℕ) {before : List (Result (List ℕ) × ℕ)} (stream : List ℕ)
    (t : ℕ) (after : List (Result (List ℕ) × ℕ))
    → Early yet deadline before
    → connect_loop deadline (before ++ ((ok stream, t) ∷ after)) ≡ some (ok stream)
unfolding connect_loop
connect_loop-Early deadline stream t after no_more = refl
connect_loop-Early deadline stream t after (one_more {e} {now} again early more) =
    let sooner : ltb now deadline ≡ true = ground arith in
    rw sooner (connect_loop-Early deadline stream t after more)

connect_loop_async-Early :
    {yet : Error → Bool} (deadline : ℕ) {before : List (Result (List ℕ) × ℕ)} (stream : List ℕ)
    (t : ℕ) (after : List (Result (List ℕ) × ℕ))
    → Early yet deadline before
    → connect_loop_async yet deadline (before ++ ((ok stream, t) ∷ after)) ≡ some (ok stream)
unfolding connect_loop_async
connect_loop_async-Early deadline stream t after no_more = refl
connect_loop_async-Early deadline stream t after (one_more {e} {now} again early more) =
    let sooner : ltb now deadline ≡ true = ground arith in
    rw (sooner, again) (connect_loop_async-Early deadline stream t after more)

open_channel_loop-eq-open_loop :
    (deadline : ℕ) (turns : List (Result (Option ProcessMonitor) × ℕ))
    → open_channel_loop deadline turns ≡ open_loop deadline turns
unfolding open_channel_loop open_loop
open_channel_loop-eq-open_loop deadline [] = refl
open_channel_loop-eq-open_loop deadline ((err e, now) ∷ rest) = refl
open_channel_loop-eq-open_loop deadline ((ok (some channel), now) ∷ rest) = refl
open_channel_loop-eq-open_loop deadline ((ok none, now) ∷ rest) =
    rw (open_channel_loop-eq-open_loop deadline rest) refl

open_channel-eq-open_with_config :
    (process_stat : ProcessStat) (pid : ℕ) (config : ChannelConfig) (now : ℕ)
    (turns : List (Result (Option ProcessMonitor) × ℕ))
    → open_channel process_stat pid config now turns
      ≡ open_with_config process_stat pid now config turns
unfolding open_channel open_with_config
open_channel-eq-open_with_config process_stat pid config now turns =
    elim (Result-cases (validate_config config >> current_identity process_stat pid)) [
      | inl (identity, known) ↦
          rw (known, open_channel, open_with_config)
            (open_channel_loop-eq-open_loop (now + config.connect_timeout) turns)
      | inr (e, bad) ↦ rw (bad, open_channel, open_with_config) refl
    ]

open_named_lem :
    (opening : List ℕ → Option (Result ProcessMonitor)) (name rest : List ℕ)
    → length name < 2 ^ 16
    → is_utf8 name ≡ true
    → open_named opening (some (ok (send_conn_name name ++ rest))) ≡ opening name
unfolding open_named
open_named_lem opening name rest short valid =
    rw (read_conn_name-send_conn_name name rest short valid, open_named) refl

-- What the listeners return and write where the channel of the connection's name can be created.
handshake_made {ℓ} :
    {A : Type ℓ} (create : List ℕ → Result A) {channel : A} (l : Listener)
    → create (conn_name l) ≡ ok channel
    → let (result, l', wire) = handshake create (ok tt) l in
      (result ≡ ok channel) × (wire ≡ send_conn_name (conn_name l))
unfolding handshake
handshake_made create l made = rw (made, handshake) (refl, refl)

finish_accept-eq-handshake {ℓ} :
    {A : Type ℓ} (create : List ℕ → Result A) (written : Result (Unit {0})) (l : Listener)
    → finish_accept create written l ≡ handshake create written l
unfolding handshake finish_accept
finish_accept-eq-handshake create written l = refl

module _ (process_stat : ProcessStat) (pid now : ℕ) (config : ChannelConfig)
    {identity : ProcessIdentity} (known : current_identity process_stat pid ≡ ok identity) where
  connect_lem :
      (attempts : List (Result (List ℕ) × ℕ)) (opens : List ℕ → Opens) {stream : List ℕ}
      → connect_loop (now + config.connect_timeout) attempts ≡ some (ok stream)
      → connect process_stat pid now config attempts opens
        ≡ open_named (opener process_stat pid now config opens) (some (ok stream))
  unfolding connect
  connect_lem attempts opens reached = rw (known, reached, connect) refl

  connect_async_lem :
      (yet : Error → Bool) (attempts : List (Result (List ℕ) × ℕ)) (opens : List ℕ → Opens)
      {stream : List ℕ}
      → connect_loop_async yet (now + config.connect_timeout) attempts ≡ some (ok stream)
      → connect_async process_stat pid config yet now attempts opens
        ≡ open_named
            (λ name. open_channel process_stat pid config (opens name).now (opens name).turns)
            (some (ok stream))
  unfolding connect_async
  connect_async_lem yet attempts opens reached = rw (known, reached, connect_async) refl

-- A client that knows its own identity, and that reaches the listener before its deadline, after
-- any number of attempts that failed with errors after which it tries again, opens the channel of
-- the very name under which the listener has just created it: the listener returns what
-- `create_with_config` makes of that name, and the client opens by it what it reads. This holds
-- whether the listener and the client are the blocking or the asynchronous ones, and the two
-- openings are the same too. The channel of that name can be created, the name is UTF-8 and shorter
-- than 2 ^ 16 bytes, and the listener can write it.
pub connect-handshake {ℓ} :
    {A : Type ℓ} (process_stat : ProcessStat) (pid now : ℕ) (config : ChannelConfig)
    {identity : ProcessIdentity} (create : List ℕ → Result A) {channel : A} (l : Listener)
    (yet : Error → Bool) {before : List (Result (List ℕ) × ℕ)} (rest : List ℕ) (t : ℕ)
    (after : List (Result (List ℕ) × ℕ)) (opens : List ℕ → Opens)
    → current_identity process_stat pid ≡ ok identity
    → create (conn_name l) ≡ ok channel
    → Early yet (now + config.connect_timeout) before
    → length (conn_name l) < 2 ^ 16
    → is_utf8 (conn_name l) ≡ true
    → let (created, l', wire) = handshake create (ok tt) l in
      let attempts = before ++ ((ok (wire ++ rest), t) ∷ after) in
      let opened = opener process_stat pid now config opens (conn_name l) in
      (created ≡ ok channel)
      × (finish_accept create (ok tt) l ≡ handshake create (ok tt) l)
      × (connect process_stat pid now config attempts opens ≡ opened)
      × (connect_async process_stat pid config yet now attempts opens ≡ opened)
connect-handshake process_stat pid now config create l yet rest t after opens known made early short
      valid =
    let (result, wire) = handshake_made create l made in
    let stream = send_conn_name (conn_name l) ++ rest in
    let deadline = now + config.connect_timeout in
    (
      result,
      finish_accept-eq-handshake create (ok tt) l,
      rw wire (
            connect_lem process_stat pid now config known _ opens
              (connect_loop-Early deadline stream t after early))
          ∙ open_named_lem (opener process_stat pid now config opens) (conn_name l) rest short
              valid,
      rw wire (
            connect_async_lem process_stat pid now config known yet _ opens
              (connect_loop_async-Early deadline stream t after early))
          ∙ open_named_lem
              (λ name. open_channel process_stat pid config (opens name).now (opens name).turns)
              (conn_name l) rest short valid
          ∙ open_channel-eq-open_with_config process_stat pid config (opens (conn_name l)).now
              (opens (conn_name l)).turns,
    )
