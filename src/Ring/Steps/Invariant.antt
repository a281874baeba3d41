-- ===== src/Ring/Steps/Invariant.antt =====
-- What holds at every point of the two processes' programs.
use shmem_ipc.Base.{◌+◌, ◌^◌, ◌≤◌, ◌<◌, ◌≡◌, ◌∷◌, ◌++◌, length}
use shmem_ipc.Memory.{Memory}
use shmem_ipc.Ring.Area.{Area, window}
use shmem_ipc.Ring.Encoding.{to_le_bytes}
use shmem_ipc.Ring.State.{RingSender, RingReceiver}
use shmem_ipc.Ring.Framed.{Payload, IsFrame, frame_size, frame_sizes}
use shmem_ipc.Ring.Queue.{Queue}
use shmem_ipc.Ring.Linked.{Linked, HasRoom}
use shmem_ipc.Ring.Recv
use shmem_ipc.Ring.Steps.{
  SendPc, reload, put_len, put_seq, put_body, publish, RecvPc, loaded, peeked, copied, failed,
  System,
}

-- What the sender has written so far beyond the published cursor.
abbrev pub SendInv : Area → SendPc → RingSender → Memory → Type 0
SendInv a (reload p) s mem =
    (frame_size p ≤ a.ring_data_size) × (s.cached_wc + frame_size p < 2 ^ 64)
SendInv a (put_len p) s mem = HasRoom a s p
SendInv a (put_seq p) s mem = HasRoom a s p × (window a mem s.cached_wc 4 ≡ to_le_bytes (length p))
SendInv a (put_body p) s mem =
    HasRoom a s p × (window a mem s.cached_wc 8 ≡ to_le_bytes (length p) ++ to_le_bytes s.next_seq)
SendInv a (publish p) s mem = HasRoom a s p × IsFrame a mem s.cached_wc s.next_seq p
SendInv a _ s mem = Unit

-- What the receiver's locals say of the queue.
abbrev pub RecvInv : RecvPc → RingReceiver → Queue → Type 0
RecvInv (loaded wc) r q =
    (seen : Queue) × (more : Queue) × (q ≡ seen ++ more) × (wc ≡ r.cached_rc + frame_sizes seen)
RecvInv (peeked message) r q =
    (p : Payload) × (rest : Queue) × (q ≡ p ∷ rest) × (message ≡ Recv.peeked r p)
RecvInv (copied message buf) r q = (rest : Queue) × (q ≡ buf ∷ rest) × (message ≡ Recv.peeked r buf)
RecvInv (failed e) r q = ⊥
RecvInv _ r q = Unit

pub record Inv (a : Area) (x : System) : Type 0 where
  pub queue : Queue
  pub linked : Linked a x.sender x.receiver x.shm queue
  pub at_send : SendInv a x.send_pc x.sender x.shm.mem
  pub at_recv : RecvInv x.recv_pc x.receiver queue
  pub fifo : x.sent ≡ x.delivered ++ queue
