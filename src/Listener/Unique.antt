-- ===== src/Listener/Unique.antt =====
-- The names that listeners of src/listener.rs give to connections are never given twice.
use shmem_ipc.Base.{ℕ, ◌≡◌, ◌∙◌, sym, List, [], ◌∷◌, ◌++◌, arith}
use mathlib.Core.List.{append_assoc}
use shmem_ipc.Base.Digits.{
  decimal, hex, digits_split, append_cancel, All, IsDigit, decimal-All, hex-All, decimal-injective,
  hex-injective,
}
use shmem_ipc.Platform.{ProcessIdentity}
use shmem_ipc.Platform.Names.{incarnation}
use shmem_ipc.Listener.{Listener, conn_name}

identity_eq : (i j : ProcessIdentity) → i.pid ≡ j.pid → i.birth ≡ j.birth → i ≡ j
identity_eq i j pid birth = cc (pid, birth)

-- No digit is a dot.
dot_splits :
    (a b c d : List ℕ)
    → All IsDigit a
    → All IsDigit c
    → a ++ (46 ∷ b) ≡ c ++ (46 ∷ d)
    → (a ≡ c) × (b ≡ d)
dot_splits a b c d p q h = digits_split 46 a b c d (λ x digit. omega arith) p q h

-- The listener `name` of the process `identity`, made as its `next`th, after `counter` connections.
abbrev pub incarnate : (name : List ℕ) → ProcessIdentity → (next counter : ℕ) → Listener
incarnate name identity next counter = record {
  name = name;
  incarnation = incarnation identity next;
  counter = counter;
}

dotted : ProcessIdentity → ℕ → ℕ → List ℕ
dotted i n c = decimal i.pid ++ (46 ∷ (hex i.birth ++ (46 ∷ (hex n ++ (46 ∷ decimal c)))))

conn_name_lem :
    (name : List ℕ) (i : ProcessIdentity) (n c : ℕ)
    → conn_name (incarnate name i n c)
      ≡ name ++ ((46 ∷ 99 ∷ 111 ∷ 110 ∷ 110 ∷ 46 ∷ []) ++ dotted i n c)
unfolding conn_name dotted incarnation
conn_name_lem name i n c = simp append_assoc

-- Two connections of listeners of one name have the same name only if the listeners were made in
-- the same process, by pid and birth, as the same number in it, and the connections have the same
-- number too.
pub conn_name-injective :
    (name : List ℕ) (i j : ProcessIdentity) (n m c d : ℕ)
    → conn_name (incarnate name i n c) ≡ conn_name (incarnate name j m d)
    → (i ≡ j) × (n ≡ m) × (c ≡ d)
unfolding dotted
conn_name-injective name i j n m c d h =
    let dots : dotted i n c ≡ dotted j m d =
      append_cancel (46 ∷ 99 ∷ 111 ∷ 110 ∷ 110 ∷ 46 ∷ []) _ _
        (append_cancel name _ _ (sym (conn_name_lem name i n c) ∙ h ∙ conn_name_lem name j m d)) in
    let (pid, later) = dot_splits _ _ _ _ (decimal-All i.pid) (decimal-All j.pid) dots in
    let (birth, last) = dot_splits _ _ _ _ (hex-All i.birth) (hex-All j.birth) later in
    let (number, count) = dot_splits _ _ _ _ (hex-All n) (hex-All m) last in
    let same : i ≡ j =
      identity_eq i j (decimal-injective i.pid j.pid pid) (hex-injective i.birth j.birth birth) in
    (same, hex-injective n m number, decimal-injective c d count)
