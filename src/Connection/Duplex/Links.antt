-- ===== src/Connection/Duplex/Links.antt =====
-- The rings of both roles after a call of one of them (src/connection.rs).
use shmem_ipc.Base.{◌≡◌, refl, Option}
use shmem_ipc.Error.{Result}
use shmem_ipc.Ring.State.{RingShm, RingReceiver}
use shmem_ipc.Ring.Framed.{Payload}
use shmem_ipc.Ring.Queue.{Queue}
use shmem_ipc.Ring.Linked.{Linked}
use shmem_ipc.Ring.Blocking
use shmem_ipc.Ring.Blocking.{SendTurn, after_attempt, send_loop}
use shmem_ipc.Shared.State.{Role}
use shmem_ipc.Channel.{RingPlace}
use shmem_ipc.Channel.Rings.{other}
use shmem_ipc.Connection.{seen, stored}
use shmem_ipc.Connection.Apart.{Outside}
use shmem_ipc.Connection.Duplex.{Pair, set_role}
use shmem_ipc.Connection.Duplex.Alone.{Across, other-Linked, self-Linked}

module _ (places : Role → RingPlace) where
  -- The halves are at the places of their roles, and each ring holds its role's queue.
  pub record Joined (x : Pair) (queues : Role → Queue) : Type 0 where
    pub out_place : (r : Role) → (x.senders r).place ≡ places r
    pub in_place : (r : Role) → (x.receivers r).place ≡ places (other r)
    pub link :
        (r : Role)
        → Linked
            (places r).area
            (x.senders r).sender
            (x.receivers (other r)).receiver
            (seen (places r) x.mapping)
            (queues r)

  -- The state after a send of the role `by` on its place.
  abbrev pub sent_by : Role → (x : Pair) → Blocking.Sent → Pair
  sent_by by x (answer, s, shm) = record {
    senders =
        set_role by
          (record { sender = s; place = places by; spin_count = (x.senders by).spin_count })
          x.senders;
    receivers = x.receivers;
    mapping = stored (places by) shm x.mapping;
  }

  pub send_place :
      (by r : Role) (x : Pair) (out : Blocking.Sent)
      → (x.senders r).place ≡ places r
      → ((sent_by by x out).senders r).place ≡ places r
  send_place Role.server Role.server x out e = refl
  send_place Role.server Role.client x out e = e
  send_place Role.client Role.server x out e = e
  send_place Role.client Role.client x out e = refl

  pub send_link :
      (by r : Role) (x : Pair) (out : Blocking.Sent) (q : Queue) (queues : Role → Queue)
      → Across (places by) (places (other by))
      → Outside (places by).area x.mapping.mem out.2.mem
      → Linked (places by).area out.1 (x.receivers (other by)).receiver out.2 q
      → ((r : Role)
          → Linked
              (places r).area
              (x.senders r).sender
              (x.receivers (other r)).receiver
              (seen (places r) x.mapping)
              (queues r))
      → let y = sent_by by x out in
        Linked
          (places r).area
          (y.senders r).sender
          (y.receivers (other r)).receiver
          (seen (places r) y.mapping)
          (set_role by q queues r)
  send_link Role.server Role.server x out q queues across same l link =
      self-Linked (places Role.server) out.2 x.mapping l
  send_link Role.server Role.client x out q queues across same l link =
      other-Linked (places Role.server) (places Role.client) out.2 x.mapping across same
        (link Role.client)
  send_link Role.client Role.server x out q queues across same l link =
      other-Linked (places Role.client) (places Role.server) out.2 x.mapping across same
        (link Role.server)
  send_link Role.client Role.client x out q queues across same l link =
      self-Linked (places Role.client) out.2 x.mapping l

  abbrev pub received_by :
      Role → (x : Pair) → Result (Option Payload) × RingReceiver × RingShm → Pair
  received_by by x (answer, r, shm) = record {
    senders = x.senders;
    receivers =
        set_role by
          (record {
            receiver = r;
            place = places (other by);
            spin_count = (x.receivers by).spin_count;
          })
          x.receivers;
    mapping = stored (places (other by)) shm x.mapping;
  }

  pub recv_place :
      (by r : Role) (x : Pair) (out : Result (Option Payload) × RingReceiver × RingShm)
      → (x.receivers r).place ≡ places (other r)
      → ((received_by by x out).receivers r).place ≡ places (other r)
  recv_place Role.server Role.server x out e = refl
  recv_place Role.server Role.client x out e = e
  recv_place Role.client Role.server x out e = e
  recv_place Role.client Role.client x out e = refl

  pub recv_link :
      (by r : Role) (x : Pair) (out : Result (Option Payload) × RingReceiver × RingShm) (q : Queue)
      (queues : Role → Queue)
      → Across (places (other by)) (places by)
      → Outside (places (other by)).area x.mapping.mem out.2.mem
      → Linked (places (other by)).area (x.senders (other by)).sender out.1 out.2 q
      → ((r : Role)
          → Linked
              (places r).area
              (x.senders r).sender
              (x.receivers (other r)).receiver
              (seen (places r) x.mapping)
              (queues r))
      → let y = received_by by x out in
        Linked
          (places r).area
          (y.senders r).sender
          (y.receivers (other r)).receiver
          (seen (places r) y.mapping)
          (set_role (other by) q queues r)
  recv_link Role.server Role.server x out q queues across same l link =
      other-Linked (places Role.client) (places Role.server) out.2 x.mapping across same
        (link Role.server)
  recv_link Role.server Role.client x out q queues across same l link =
      self-Linked (places Role.client) out.2 x.mapping l
  recv_link Role.client Role.server x out q queues across same l link =
      self-Linked (places Role.server) out.2 x.mapping l
  recv_link Role.client Role.client x out q queues across same l link =
      other-Linked (places Role.server) (places Role.client) out.2 x.mapping across same
        (link Role.client)
