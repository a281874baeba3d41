-- ===== src/Connection/Duplex/Refines.antt =====
-- Both directions of a connection of src/connection.rs against two bounded queues.
use mathlib.Core.Path.{subst, ap₂}
use shmem_ipc.Base.{ℕ, ◌+◌, ◌≤◌, ◌<◌, ◌^◌, ◌≡◌, refl, ◌∙◌, ap, Bool, List, [], ◌∷◌, Option, arith}
use shmem_ipc.Error.{Result}
use shmem_ipc.Ring.Receiver.{try_recv}
use shmem_ipc.Ring.Framed.{Payload, frame_size}
use shmem_ipc.Ring.Queue
use shmem_ipc.Ring.Queue.{Queue}
use shmem_ipc.Ring.Linked.{Linked}
use shmem_ipc.Ring.Run.{steady, try_recv-refines}
use shmem_ipc.Ring.Blocking
use shmem_ipc.Ring.Blocking.{SendTurn, after_attempt, send_loop}
use shmem_ipc.Shared.State.{Role, Mapping}
use shmem_ipc.Channel.{RingPlace}
use shmem_ipc.Channel.Rings.{other}
use shmem_ipc.Connection.{seen, stored, SendHalf, RecvHalf, send, try_recv_half}
use shmem_ipc.Connection.Duplex.{
  Call, sends, receives, Reply, sending, receiving, Pair, set_role, alone, run, offer, run_queues,
  sent_bytes,
}
use shmem_ipc.Connection.Duplex.Alone.{Across, Offers, send-alone, mem-try_recv}
use shmem_ipc.Connection.Duplex.Links.{
  Joined, sent_by, send_place, send_link, received_by, recv_place, recv_link,
}

send_at :
    (h : SendHalf) (place : RingPlace) (ready : Result Bool) (p : Payload) (m : Mapping)
    → h.place ≡ place
    → send p (alone ready (seen h.place m) ∷ []) h m ≡ (
        let (answer, s, shm) =
          Blocking.send place.area p (alone ready (seen place m) ∷ []) h.sender (seen place m) in
        (
          answer,
          record { sender = s; place = place; spin_count = h.spin_count },
          stored place shm m,
        ))
unfolding send
send_at h place ready p m e =
    ap (λ pl. send p (alone ready (seen pl m) ∷ []) (record h { place = pl }) m) e

recv_at :
    (h : RecvHalf) (place : RingPlace) (ready : Result Bool) (m : Mapping)
    → h.place ≡ place
    → try_recv_half ready (steady (seen h.place m)) h m ≡ (
        let (answer, r, shm) = try_recv place.area ready h.receiver (steady (seen place m)) in
        (
          answer,
          record { receiver = r; place = place; spin_count = h.spin_count },
          stored place shm m,
        ))
unfolding try_recv_half
recv_at h place ready m e =
    ap (λ pl. try_recv_half ready (steady (seen pl m)) (record h { place = pl }) m) e

-- The bytes still to be counted.
abbrev pub Budget : List Call → Pair → Type 0
Budget calls x = (r : Role) → (x.senders r).sender.cached_wc + sent_bytes r calls < 2 ^ 64

module _ (places : Role → RingPlace) where
  send-Budget :
      (by r : Role) (ready : Result Bool) (p : Payload) (calls : List Call) (x : Pair)
      (out : Blocking.Sent)
      → out.1.cached_wc ≤ (x.senders by).sender.cached_wc + frame_size p
      → Budget (sends by ready p ∷ calls) x
      → ((sent_by places by x out).senders r).sender.cached_wc + sent_bytes r calls < 2 ^ 64
  send-Budget Role.server Role.server ready p calls x out grown b = omega (arith, b Role.server)
  send-Budget Role.server Role.client ready p calls x out grown b = b Role.client
  send-Budget Role.client Role.server ready p calls x out grown b = b Role.server
  send-Budget Role.client Role.client ready p calls x out grown b = omega (arith, b Role.client)

  first_send :
      (by : Role) (ready : Result Bool) (p : Payload) (calls : List Call)
      → (x : Pair) → Budget (sends by ready p ∷ calls) x
      → (x.senders by).sender.cached_wc + frame_size p < 2 ^ 64
  first_send Role.server ready p calls x b = omega (arith, b Role.server)
  first_send Role.client ready p calls x b = omega (arith, b Role.client)

  recv-Budget :
      (by : Role) (ready : Result Bool) (calls : List Call) (x : Pair)
      → Budget (receives by ready ∷ calls) x
      → Budget calls x
  recv-Budget Role.server ready calls x b Role.server = b Role.server
  recv-Budget Role.server ready calls x b Role.client = b Role.client
  recv-Budget Role.client ready calls x b Role.server = b Role.server
  recv-Budget Role.client ready calls x b Role.client = b Role.client

  -- The ring on which a role receives.
  from_other :
      (by : Role) (x : Pair) (queues : Role → Queue)
      → Joined places x queues
      → Linked
          (places (other by)).area
          (x.senders (other by)).sender
          (x.receivers by).receiver
          (seen (places (other by)) x.mapping)
          (queues (other by))
  from_other Role.server x queues j = j.link Role.client
  from_other Role.client x queues j = j.link Role.server

  back :
      (by : Role)
      → ((r : Role) → Across (places r) (places (other r)))
      → Across (places (other by)) (places by)
  back Role.server across = across Role.client
  back Role.client across = across Role.server

  pub run-Joined :
      (size : ℕ) (calls : List Call) (x : Pair) (queues : Role → Queue)
      → ((r : Role) → (places r).area.ring_data_size ≡ size)
      → ((r : Role) → Across (places r) (places (other r)))
      → Joined places x queues
      → Budget calls x
      → run calls x ≡ run_queues size calls queues
  unfolding run run_queues
  run-Joined size [] x queues sized across j b = refl
  run-Joined size (sends by ready p ∷ calls) x queues sized across j b =
      let place = places by in
      let h = x.senders by in
      let out =
        Blocking.send place.area p (alone ready (seen place x.mapping) ∷ []) h.sender
          (seen place x.mapping) in
      let offers =
        subst
          (λ n.
            Offers place.area (x.receivers (other by)).receiver (seen place x.mapping)
              h.sender.cached_wc (frame_size p) out (offer ready n p (queues by)))
          (sized by)
          (send-alone (across by).valid (j.link by) ready p (first_send by ready p calls x b)) in
      let later : Option (Result (Unit {0})) × SendHalf × Mapping → List Reply = λ t.
        sending t.0
        ∷ run calls (record {
          senders = set_role by t.1 x.senders;
          receivers = x.receivers;
          mapping = t.2;
        }) in
      let q = (offer ready size p (queues by)).1 in
      ap later (send_at h place ready p x.mapping (j.out_place by))
      ∙ ap₂ (λ answer rs. sending answer ∷ rs) offers.result
          (run-Joined size calls (sent_by places by x out) (set_role by q queues) sized across
            (record {
              out_place = λ r. send_place places by r x out (j.out_place r);
              in_place = j.in_place;
              link = λ r.
                  send_link places by r x out q queues (across by) offers.outside offers.linked
                    j.link;
            })
            (λ r. send-Budget by r ready p calls x out offers.grown b))
  run-Joined size (receives by ready ∷ calls) x queues sized across j b =
      let place = places (other by) in
      let h = x.receivers by in
      let out = try_recv place.area ready h.receiver (steady (seen place x.mapping)) in
      let l = from_other by x queues j in
      let recvs = try_recv-refines ready (across by).valid_other l in
      let later : Result (Option Payload) × RecvHalf × Mapping → List Reply = λ t.
        receiving t.0
        ∷ run calls (record {
          senders = x.senders;
          receivers = set_role by t.1 x.receivers;
          mapping = t.2;
        }) in
      let q = (Queue.recv_when ready (queues (other by))).1 in
      ap later (recv_at h place ready x.mapping (j.in_place by))
      ∙ ap₂ (λ answer rs. receiving answer ∷ rs) recvs.result
          (run-Joined size calls (received_by places by x out) (set_role (other by) q queues) sized
            across
            (record {
              out_place = j.out_place;
              in_place = λ r. recv_place places by r x out (j.in_place r);
              link = λ r.
                  recv_link places by r x out q queues (back by across)
                    (λ n o. ap (λ f. f n) (mem-try_recv (across by).valid_other l ready))
                    recvs.linked j.link;
            })
            (recv-Budget by ready calls x b))
