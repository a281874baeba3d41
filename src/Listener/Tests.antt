-- ===== src/Listener/Tests.antt =====
-- The theorems on src/listener.rs at concrete inputs.
use shmem_ipc.Base.{ℕ, ◌<◌, ◌^◌, ◌≡◌, refl, true, [], ◌∷◌, some, arith, length}
use shmem_ipc.Base.Digits.{decimal}
use shmem_ipc.Error.{ok}
use shmem_ipc.Listener.{
  Listener, conn_name, is_utf8, timeout, ensure_pending_accept, wait_for_pipe_timeout,
}
use shmem_ipc.Platform.{ProcessIdentity}
use shmem_ipc.Platform.Names.{incarnation}
use shmem_ipc.Listener.Unique.{conn_name-injective}
use shmem_ipc.Listener.Pending.{Left, wait_for_pipe_timeout-Left}

-- The thirteenth connection of the listener "svc", with the incarnation "4.28.1".
abbrev svc : Listener
svc = record {
  name = 115 ∷ 118 ∷ 99 ∷ [];
  incarnation = 52 ∷ 46 ∷ 50 ∷ 56 ∷ 46 ∷ 49 ∷ [];
  counter = 12;
}

svc_name :
    conn_name svc
    ≡ 115 ∷ 118 ∷ 99 ∷ 46 ∷ 99 ∷ 111 ∷ 110 ∷ 110 ∷ 46 ∷ 52 ∷ 46 ∷ 50 ∷ 56 ∷ 46 ∷ 49 ∷ 46 ∷ 49 ∷ 50
      ∷ []
unfolding conn_name decimal
svc_name = refl

svc_short : length (conn_name svc) < 2 ^ 16
unfolding conn_name decimal
svc_short = omega arith

svc_utf8 : is_utf8 (conn_name svc) ≡ true
unfolding conn_name decimal is_utf8
svc_utf8 = refl

five : ensure_pending_accept (ok 6) (some 5) ≡ ok 5
unfolding ensure_pending_accept
five = refl

-- A timeout of the wait on the instance 5.
wait_for_pipe_timeout-Left_example :
    let (r, st') = wait_for_pipe_timeout {A = ℕ} (ok 6) (λ _. timeout) (ok 7) (some 5) in
    Left 5 timeout (ok 7) r st'
wait_for_pipe_timeout-Left_example =
    wait_for_pipe_timeout-Left (ok 6) (λ _. timeout) (ok 7) (some 5) 5 five

-- The listeners of a process with the pid 4 and the birth 40.
abbrev four : ProcessIdentity
four = record { pid = 4; birth = 40 }

conn_name-injective_example : (four ≡ four) × (◌≡◌ {A = ℕ} 1 1) × (◌≡◌ {A = ℕ} 12 12)
conn_name-injective_example = conn_name-injective svc.name four four 1 1 12 12 refl

-- `svc` is such a listener.
svc_incarnation : incarnation four 1 ≡ svc.incarnation
unfolding incarnation
svc_incarnation = refl
