-- ===== src/Tokio/Owners/Uses.antt =====
-- What each call on a Channel of src/tokio/mod.rs does to the clones and to the threads.
use shmem_ipc.Base.{ℕ, ◌+◌, ◌≡◌, refl, Option, some, arith}
use shmem_ipc.Tokio.Owners.{
  World, AsyncWait, Spawned, Half, new_wait, ensure_running, drop_some_wait, drop_inner, drop_ends,
  from_sync, half_from_sync, into_connection, split,
}
use shmem_ipc.Tokio.Owners.Calls.{
  Held, channel, connection, halves, nothing, use_send, use_recv, convert, separate, drop_whole,
  drop_send, drop_recv, use_wait, call,
}
use shmem_ipc.Tokio.Owners.Balanced.{
  wait_arcs, wait_threads, Live, clone-Live, Live-cast, WholeHalf, no_half, half, whole_ends, Whole,
  whole_channel, whole_connection, whole_halves, whole_nothing, half_arcs, half_threads, ends_arcs,
  ends_threads, arcs_of, threads_of, Balanced,
}
use shmem_ipc.Tokio.Owners.Drops.{
  ensure_running-Live, drop_ends-Live, drop_half-Live, waits_dropped, fresh_wait, from_sync-Live,
}

-- A call that succeeds, with what it leaves.
abbrev pub Ended : Option (Held × World) → Type 0
Ended out = (h : Held) × (w : World) × (out ≡ some (h, w)) × Balanced h w

pub convert-Balanced :
    (s r : AsyncWait) {w : World}
    → Live (ends_arcs (whole_ends s r)) (ends_threads (whole_ends s r)) w
    → Ended (call convert (channel (whole_ends s r)) w)
unfolding call into_connection from_sync new_wait drop_ends drop_some_wait drop_inner arcs_of
    threads_of
convert-Balanced s r l = (
  _,
  _,
  refl,
  record {
    whole = whole_connection fresh_wait fresh_wait;
    live = from_sync-Live (waits_dropped s r l);
  },
)

pub separate-Balanced :
    (s r : AsyncWait) {w : World}
    → Live (ends_arcs (whole_ends s r)) (ends_threads (whole_ends s r)) w
    → Ended (call separate (connection (whole_ends s r)) w)
unfolding call split half_from_sync new_wait drop_ends drop_some_wait drop_inner arcs_of threads_of
    half_arcs half_threads wait_arcs wait_threads
separate-Balanced s r l = (
  _,
  _,
  refl,
  record {
    whole = whole_halves (half fresh_wait) (half fresh_wait);
    live =
        clone-Live
          (clone-Live (clone-Live (waits_dropped s r l) 4 (omega arith) (omega arith)) 5
            (omega arith) (omega arith))
          6 (omega arith) (omega arith);
  },
)

-- One wait of a channel or connection is used, or that of a half.
module _ (z : Spawned) (s r : AsyncWait) {w : World}
    (l : Live (ends_arcs (whole_ends s r)) (ends_threads (whole_ends s r)) w) where
  send_used :
      let (_, s', w') = ensure_running z s w in
      Live (ends_arcs (whole_ends s' r)) (ends_threads (whole_ends s' r)) w'
  unfolding ends_arcs ends_threads
  send_used =
      Live-cast
        (ensure_running-Live z s (3 + wait_arcs r) (wait_threads r)
          (Live-cast l _ _ (omega arith) (omega arith)))
        _ _ (omega arith) (omega arith)

  recv_used :
      let (_, r', w') = ensure_running z r w in
      Live (ends_arcs (whole_ends s r')) (ends_threads (whole_ends s r')) w'
  unfolding ends_arcs ends_threads
  recv_used =
      Live-cast
        (ensure_running-Live z r (3 + wait_arcs s) (wait_threads s)
          (Live-cast l _ _ (omega arith) (omega arith)))
        _ _ (omega arith) (omega arith)

half_used :
    (z : Spawned) (x : AsyncWait) (k t : ℕ) {w : World}
    → Live (2 + wait_arcs x + k) (wait_threads x + t) w
    → let (_, x', w') = ensure_running z x w in Live (2 + wait_arcs x' + k) (wait_threads x' + t) w'
half_used z x k t l =
    Live-cast (ensure_running-Live z x (2 + k) t (Live-cast l _ _ (omega arith) (omega arith))) _ _
      (omega arith) (omega arith)

module _ {w : World} where
  drop_send-Balanced :
      {s r : Option Half}
      → WholeHalf s
      → WholeHalf r
      → Live (half_arcs s + half_arcs r) (half_threads s + half_threads r) w
      → Ended (call drop_send (halves s r) w)
  unfolding call arcs_of threads_of half_arcs half_threads
  drop_send-Balanced no_half y l = (_, _, refl, record { whole = whole_halves no_half y; live = l })
  drop_send-Balanced {r} (half x) y l = (
    _,
    _,
    refl,
    record {
      whole = whole_halves no_half y;
      live =
          Live-cast (drop_half-Live (half_arcs r) (half_threads r) (half x) l) _ _ (omega arith)
            (omega arith);
    },
  )

  drop_recv-Balanced :
      {s r : Option Half}
      → WholeHalf s
      → WholeHalf r
      → Live (half_arcs s + half_arcs r) (half_threads s + half_threads r) w
      → Ended (call drop_recv (halves s r) w)
  unfolding call arcs_of threads_of half_arcs half_threads
  drop_recv-Balanced x no_half l = (_, _, refl, record { whole = whole_halves x no_half; live = l })
  drop_recv-Balanced {s} x (half y) l = (
    _,
    _,
    refl,
    record {
      whole = whole_halves x no_half;
      live =
          Live-cast
            (drop_half-Live (half_arcs s) (half_threads s) (half y)
              (Live-cast l _ _ (omega arith) (omega arith)))
            _ _ (omega arith) (omega arith);
    },
  )

  pub use_send-Balanced :
      {h : Held} (z : Spawned)
      → Whole h
      → Live (arcs_of h) (threads_of h) w
      → Ended (call (use_send z) h w)
  unfolding call use_wait arcs_of threads_of half_arcs half_threads
  use_send-Balanced z (whole_channel s r) l =
      (_, _, refl, record { whole = whole_channel _ r; live = send_used z s r l })
  use_send-Balanced z (whole_connection s r) l =
      (_, _, refl, record { whole = whole_connection _ r; live = send_used z s r l })
  use_send-Balanced z (whole_halves no_half r) l =
      (_, _, refl, record { whole = whole_halves no_half r; live = l })
  use_send-Balanced z (whole_halves {r} (half x) other) l = (
    _,
    _,
    refl,
    record {
      whole = whole_halves (half _) other;
      live = half_used z x (half_arcs r) (half_threads r) l;
    },
  )
  use_send-Balanced z whole_nothing l = (_, _, refl, record { whole = whole_nothing; live = l })

  pub use_recv-Balanced :
      {h : Held} (z : Spawned)
      → Whole h
      → Live (arcs_of h) (threads_of h) w
      → Ended (call (use_recv z) h w)
  unfolding call use_wait arcs_of threads_of half_arcs half_threads
  use_recv-Balanced z (whole_channel s r) l =
      (_, _, refl, record { whole = whole_channel s _; live = recv_used z s r l })
  use_recv-Balanced z (whole_connection s r) l =
      (_, _, refl, record { whole = whole_connection s _; live = recv_used z s r l })
  use_recv-Balanced z (whole_halves s no_half) l =
      (_, _, refl, record { whole = whole_halves s no_half; live = l })
  use_recv-Balanced z (whole_halves {s} other (half x)) l = (
    _,
    _,
    refl,
    record {
      whole = whole_halves other (half _);
      live =
          Live-cast
            (half_used z x (half_arcs s) (half_threads s)
              (Live-cast l _ _ (omega arith) (omega arith)))
            _ _ (omega arith) (omega arith);
    },
  )
  use_recv-Balanced z whole_nothing l = (_, _, refl, record { whole = whole_nothing; live = l })

  pub drop-Balanced :
      {h : Held}
      → Whole h
      → Live (arcs_of h) (threads_of h) w
      → Ended (call drop_whole h w) × Ended (call drop_send h w) × Ended (call drop_recv h w)
  unfolding call arcs_of threads_of half_arcs half_threads
  drop-Balanced (whole_channel s r) l =
      let kept : Balanced (channel (whole_ends s r)) w = record {
        whole = whole_channel s r;
        live = l;
      } in
      (
        (_, _, refl, record { whole = whole_nothing; live = drop_ends-Live s r l }),
        (_, _, refl, kept),
        (_, _, refl, kept),
      )
  drop-Balanced (whole_connection s r) l =
      let kept : Balanced (connection (whole_ends s r)) w = record {
        whole = whole_connection s r;
        live = l;
      } in
      (
        (_, _, refl, record { whole = whole_nothing; live = drop_ends-Live s r l }),
        (_, _, refl, kept),
        (_, _, refl, kept),
      )
  drop-Balanced (whole_halves {s} {r} x y) l =
      let kept : Balanced (halves s r) w = record { whole = whole_halves x y; live = l } in
      ((_, _, refl, kept), drop_send-Balanced x y l, drop_recv-Balanced x y l)
  drop-Balanced whole_nothing l =
      let kept : Balanced nothing w = record { whole = whole_nothing; live = l } in
      ((_, _, refl, kept), (_, _, refl, kept), (_, _, refl, kept))
