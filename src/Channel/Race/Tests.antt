-- ===== src/Channel/Race/Tests.antt =====
-- Two clients and a server's `close` that race for one channel.
use shmem_ipc.Base.{ℕ, ◌≤◌, ◌≡◌, refl, ◌⊎◌, List, [], ◌∷◌, ◌+◌}
use native.Mathlib.Decide.{ℕ_discrete}
use shmem_ipc.Error.{ok}
use shmem_ipc.Header.{closed, connected, as_u32, from_u32}
use shmem_ipc.Platform.{ProcessIdentity}
use shmem_ipc.Shared.State.{wake_all}
use shmem_ipc.Channel.{published, created}
use shmem_ipc.Channel.Tests.{channel}
use shmem_ipc.Channel.Race.{
  System, Fresh, load_state, retire_step, joined, after_load, client_step, turn_of, Reach, start,
  moves, retires,
}
use shmem_ipc.Channel.Race.Moves.{owns, Named}
use shmem_ipc.Channel.Race.Owner.{connected_whole, joined_alone}

abbrev ids : ℕ → ProcessIdentity
ids i = record { pid = 100 + i; birth = 7 + i }

-- Client 1 passes client 0 between its load and its claim; the server closes after client 1 has
-- connected.
abbrev begin : System
begin = record { mapping = channel; pc = λ _. load_state }

abbrev turns : List ℕ → System → System
turns [] x = x
turns (i ∷ is) x = turns is (turn_of ids i (ok tt) x)

abbrev connected_now : System
connected_now = turns (0 ∷ 1 ∷ 1 ∷ 1 ∷ 1 ∷ 1 ∷ 0 ∷ 1 ∷ []) begin

turns-Reach : (is : List ℕ) (x : System) → Reach ids channel x → Reach ids channel (turns is x)
turns-Reach [] x r = r
turns-Reach (i ∷ is) x r = turns-Reach is (turn_of ids i (ok tt) x) (moves i (ok tt) r)

now-Reach : Reach ids channel connected_now
now-Reach = turns-Reach (0 ∷ 1 ∷ 1 ∷ 1 ∷ 1 ∷ 1 ∷ 0 ∷ 1 ∷ []) begin start

channel-Fresh : Fresh channel
unfolding created
channel-Fresh = record { ready = refl }

one_wins : (connected_now.pc 1 ≡ joined) × (connected_now.mapping.global.state ≡ as_u32 connected)
unfolding turn_of client_step after_load published from_u32 ℕ_discrete wake_all created
one_wins = (refl, refl)

connected_whole_example :
    (i : ℕ) × (owns (connected_now.pc i) ≡ 1)
    × Named (ids i) connected_now.mapping.global
    × ((j : ℕ) → (j ≡ i) ⊎ (owns (connected_now.pc j) ≡ 0))
connected_whole_example = connected_whole channel-Fresh now-Reach one_wins.1

joined_alone_example :
    Named (ids 1) (retire_step closed connected_now.mapping).global
    × (3 ≤ (retire_step closed connected_now.mapping).global.state)
    × ((j : ℕ) → (j ≡ 1) ⊎ (owns (connected_now.pc j) ≡ 0))
joined_alone_example = joined_alone channel-Fresh (retires closed refl now-Reach) 1 one_wins.0
