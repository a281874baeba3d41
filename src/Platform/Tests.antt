-- ===== src/Platform/Tests.antt =====
-- The theorems on src/platform at concrete inputs.
use shmem_ipc.Base.{ℕ, ◌≡◌, refl, true, not, ◌&&◌, List, [], ◌∷◌, arith, ◌==◌}
use shmem_ipc.Base.Digits.{decimal, All}
use shmem_ipc.Error.{ok}
use shmem_ipc.Platform.{ProcessMonitor, is_alive}
use shmem_ipc.Platform.Proc.{is_whitespace, is_gone, process_stat}
use shmem_ipc.Platform.Proc.Fields.{IsField, decimal-IsField, stat_line, is_alive-process_stat}

abbrev decimals : List ℕ → List (List ℕ)
decimals [] = []
decimals (n ∷ ns) = decimal n ∷ decimals ns

decimals-IsField : (ns : List ℕ) → All IsField (decimals ns)
decimals-IsField [] = tt
decimals-IsField (n ∷ ns) = (decimal-IsField n, decimals-IsField ns)

-- "42 (a) b) S 1 2 … 18 987654321 99", where "a) b" is the program's name.
abbrev worker : List ℕ
worker = 52 ∷ 50 ∷ 32 ∷ 40 ∷ 97 ∷ 41 ∷ 32 ∷ 98 ∷ []

abbrev numbers : List ℕ
numbers = 1 ∷ 2 ∷ 3 ∷ 4 ∷ 5 ∷ 6 ∷ 7 ∷ 8 ∷ 9 ∷ 10 ∷ 11 ∷ 12 ∷ 13 ∷ 14 ∷ 15 ∷ 16 ∷ 17 ∷ 18 ∷ []

abbrev line : List ℕ
line = stat_line worker (83 ∷ []) (decimals numbers) 987654321 (decimals (99 ∷ []))

abbrev watched : ProcessMonitor
watched = record { identity = record { pid = 42; birth = 987654321 } }

running-IsField : IsField (83 ∷ [])
unfolding is_whitespace
running-IsField = (λ e. cc, ((refl, omega arith), tt))

is_alive-process_stat_example :
    is_alive (process_stat (λ _. ok line)) watched
    ≡ ok (not (is_gone (83 ∷ [])) && 987654321 == watched.identity.birth)
is_alive-process_stat_example =
    is_alive-process_stat (λ _. ok line) watched worker (83 ∷ []) (decimals numbers)
      (decimals (99 ∷ [])) 987654321 refl running-IsField (decimals-IsField numbers)
      (decimals-IsField (99 ∷ [])) refl (omega arith)

is_running : is_alive (process_stat (λ _. ok line)) watched ≡ ok true
unfolding is_gone
is_running = is_alive-process_stat_example
