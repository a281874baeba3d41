-- ===== src/Listener/Wire.antt =====
-- The message of the handshake in src/listener.rs brings the connection's name to the client.
use shmem_ipc.Base.{
  ℕ, ◌+◌, ◌*◌, ◌/◌, ◌%◌, ◌^◌, ◌<◌, ◌≡◌, refl, ap, ◌∙◌, true, false, List, ◌∷◌, ◌++◌, arith, ltb,
  length, drop, length-append, take-length_append,
}
use shmem_ipc.Base.Words.{add64}
use shmem_ipc.Error.{Result, ok}
use shmem_ipc.Listener.{
  Listener, conn_name, send_conn_name, is_utf8, read_exact, read_name, read_conn_name, handshake,
}

read_exact_lem :
    (bytes rest : List ℕ)
    → read_exact (length bytes) (bytes ++ rest) ≡ ok (bytes, drop (length bytes) (bytes ++ rest))
read_exact_lem bytes rest =
    let enough : ltb (length (bytes ++ rest)) (length bytes) ≡ false =
      ground (arith, length-append bytes rest) in
    rw (enough, take-length_append bytes rest) refl

read_conn_name-cons :
    (low high : ℕ) (stream : List ℕ)
    → read_conn_name (low ∷ high ∷ stream) ≡ read_name (low + 256 * high) stream
unfolding read_conn_name
read_conn_name-cons low high stream =
    let enough : ltb (length (low ∷ high ∷ stream)) 2 ≡ false = ground arith in
    rw (enough, read_conn_name) refl

read_name_lem :
    (bytes rest : List ℕ)
    → is_utf8 bytes ≡ true
    → read_name (length bytes) (bytes ++ rest) ≡ ok bytes
unfolding read_name
read_name_lem bytes rest valid = rw (read_exact_lem bytes rest, valid, read_name) refl

-- A name that is shorter than 2 ^ 16 bytes, and UTF-8, is read as it was sent, whatever follows it.
pub read_conn_name-send_conn_name :
    (bytes rest : List ℕ)
    → length bytes < 2 ^ 16
    → is_utf8 bytes ≡ true
    → read_conn_name (send_conn_name bytes ++ rest) ≡ ok bytes
unfolding send_conn_name
read_conn_name-send_conn_name bytes rest short valid =
    let len : length bytes % 2 ^ 16 % 256 + 256 * (length bytes % 2 ^ 16 / 256 % 256)
        ≡ length bytes =
      omega arith in
    read_conn_name-cons _ _ (bytes ++ rest)
    ∙ ap (λ n. read_name n (bytes ++ rest)) len
    ∙ read_name_lem bytes rest valid

-- If the listener can create the channel of the connection's name and write to the stream, then the client reads from the
-- stream the very name under which the channel was created, provided that this is UTF-8 and
-- shorter than 2 ^ 16 bytes; and the listener's counter has gone up, so that the next name differs
-- in it.
pub handshake-read_conn_name {ℓ} :
    {A : Type ℓ} (create : List ℕ → Result A) {channel : A} (l : Listener) (rest : List ℕ)
    → create (conn_name l) ≡ ok channel
    → length (conn_name l) < 2 ^ 16
    → is_utf8 (conn_name l) ≡ true
    → let (result, l', wire) = handshake create (ok tt) l in
      (result ≡ ok channel)
      × (read_conn_name (wire ++ rest) ≡ ok (conn_name l))
      × (l' ≡ record l { counter = add64 l.counter 1 })
unfolding handshake
handshake-read_conn_name create l rest made short valid =
    rw (made, handshake) (refl, read_conn_name-send_conn_name (conn_name l) rest short valid, refl)
