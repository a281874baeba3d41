-- ===== src/Tokio/SentOnce/Tests.antt =====
-- A send of src/tokio/mod.rs that first finds the channel without its peer.
use shmem_ipc.Base.{◌≡◌, refl, true, false, List, [], ◌∷◌, some, arith}
use shmem_ipc.Error.{ok}
use shmem_ipc.Ring.State.{new_sender}
use shmem_ipc.Ring.Sender.{try_send_once}
use shmem_ipc.Ring.Tests.{area, area-IsArea, blank, hello, fresh-Linked}
use shmem_ipc.Tokio.{SendAttempt, SendTurn, spin_send, send_async}
use shmem_ipc.Tokio.SentOnce.{Finds, no_more, finds, Once, attempts_of}
use shmem_ipc.Tokio.SentOnce.Async.{answers_sent, send_async-Once}

abbrev alone : SendAttempt
alone = record { ready = ok false; shm = blank }

abbrev joined : SendAttempt
joined = record { ready = ok true; shm = blank }

abbrev turns : List SendTurn
turns =
    record { attempts = alone ∷ []; observed = ok 0; again = alone ∷ []; woken = ok tt }
    ∷ record { attempts = alone ∷ joined ∷ []; observed = ok 1; again = []; woken = ok tt }
    ∷ []

turns-Finds : Finds area hello new_sender (attempts_of turns)
unfolding attempts_of try_send_once
turns-Finds =
    finds fresh-Linked
      (λ h. finds fresh-Linked (λ h. finds fresh-Linked (λ h. finds fresh-Linked (λ h. no_more))))

send_async_sends : (send_async area hello turns new_sender blank).0 ≡ some (ok tt)
unfolding send_async spin_send try_send_once
send_async_sends = refl

send_async-Once_example :
    let (answer, s', m') = send_async area hello turns new_sender blank in
    Once area hello new_sender blank (attempts_of turns) (answers_sent answer) s' m'
send_async-Once_example = send_async-Once area-IsArea hello blank turns turns-Finds (omega arith)
