-- ===== src/Ring/Framed.antt =====
-- The messages that lie in a data area between two cursors, each framed by its length and
-- sequence number as `publish_message` of src/ring.rs writes it.
use shmem_ipc.Base.{
  ℕ, ◌+◌, ◌%◌, ◌^◌, ◌≤◌, ◌<◌, ◌≡◌, sym, ap, ◌∙◌, List, [], ◌∷◌, ◌++◌, arith, length,
}
use mathlib.Core.Path.{ap₂, subst₂}
use shmem_ipc.Base.Words.{add32, add64}
use shmem_ipc.Memory.{Memory}
use shmem_ipc.Ring.Area.{Area, IsArea, window, write_ring}
use shmem_ipc.Ring.Window.{window-append, window-write_ring, window-write_ring_before}
use shmem_ipc.Ring.Encoding.{to_le_bytes}
use shmem_ipc.Ring.State.{RingSender}
use shmem_ipc.Ring.Sender.{write_message}

abbrev pub Payload : Type 0
Payload = List ℕ

-- The bytes that a message takes in the ring.
abbrev pub frame_size : Payload → ℕ
frame_size p = 8 + length p

abbrev pub frame_sizes : List Payload → ℕ
frame_sizes [] = 0
frame_sizes (p ∷ q) = frame_size p + frame_sizes q

-- One message at cursor `c`.
pub record IsFrame (a : Area) (mem : Memory) (c seq : ℕ) (p : Payload) : Type 0 where
  pub head : window a mem c 8 ≡ to_le_bytes (length p) ++ to_le_bytes seq
  pub body : window a mem (c + 8) (length p) ≡ p
  pub fits : frame_size p ≤ a.ring_data_size
  pub word : seq < 2 ^ 32

-- From cursor `c`, where `seq` is due, the messages up to cursor `end`, where `next` is due.
pub data Framed (a : Area) (mem : Memory) (end next : ℕ) : ℕ → ℕ → List Payload → Type 0 where
  done : {c seq : ℕ} → c ≡ end → seq ≡ next → Framed a mem end next c seq []
  frame :
      {c seq : ℕ} {p : Payload} {q : List Payload}
      → IsFrame a mem c seq p
      → Framed a mem end next (c + frame_size p) (add32 seq 1) q
      → Framed a mem end next c seq (p ∷ q)

-- `mem` and `mem'` show the same bytes between two cursors.
abbrev pub Agree : Area → Memory → Memory → ℕ → ℕ → Type 0
Agree a mem mem' from to = (d n : ℕ) → from ≤ d → d + n ≤ to → window a mem' d n ≡ window a mem d n

pub Framed-nil :
    {a : Area} {mem : Memory} {end next c seq : ℕ}
    → Framed a mem end next c seq []
    → (c ≡ end) × (seq ≡ next)
Framed-nil (done e e') = (e, e')

pub Framed-cons :
    {a : Area} {mem : Memory} {end next c seq : ℕ} {p : Payload} {q : List Payload}
    → Framed a mem end next c seq (p ∷ q)
    → IsFrame a mem c seq p × Framed a mem end next (c + frame_size p) (add32 seq 1) q
Framed-cons (frame f rest) = (f, rest)

pub Framed-end :
    {a : Area} {mem : Memory} {end next c seq : ℕ} {q : List Payload}
    → Framed a mem end next c seq q
    → end ≡ c + frame_sizes q
Framed-end (done e _) = omega arith
Framed-end (frame f rest) = omega (arith, Framed-end rest)

IsFrame-Agree :
    {a : Area} {mem mem' : Memory} {c seq : ℕ} {p : Payload}
    → Agree a mem mem' c (c + frame_size p)
    → IsFrame a mem c seq p
    → IsFrame a mem' c seq p
IsFrame-Agree {c} {p} same f = record {
  head = same c 8 (omega arith) (omega arith) ∙ f.head;
  body = same (c + 8) (length p) (omega arith) (omega arith) ∙ f.body;
  fits = f.fits;
  word = f.word;
}

-- Messages stay where the bytes under them do.
pub Framed-Agree :
    {a : Area} {mem mem' : Memory} {end next c seq : ℕ} {q : List Payload}
    → Agree a mem mem' c end
    → Framed a mem end next c seq q
    → Framed a mem' end next c seq q
Framed-Agree same (done e e') = done e e'
Framed-Agree same (frame f rest) =
    frame (IsFrame-Agree (λ d n lo hi. same d n lo (omega (arith, Framed-end rest))) f)
      (Framed-Agree (λ d n lo hi. same d n (omega arith) hi) rest)

-- A message at the end cursor joins the queue.
pub Framed-snoc :
    {a : Area} {mem : Memory} {end next c seq : ℕ} {q : List Payload} {p : Payload}
    → Framed a mem end next c seq q
    → IsFrame a mem end next p
    → Framed a mem (end + frame_size p) (add32 next 1) c seq (q ++ (p ∷ []))
Framed-snoc {a} {mem} {p} (done e e') last =
    frame (subst₂ (λ c seq. IsFrame a mem c seq p) (sym e) (sym e') last)
      (done (ap (λ c. c + frame_size p) e) (ap (λ n. add32 n 1) e'))
Framed-snoc (frame f rest) last = frame f (Framed-snoc rest last)

module _ {a : Area} (v : IsArea a) (s : RingSender) (wc : ℕ) (p : Payload) (mem : Memory) where
  abbrev with_len : Memory
  with_len = write_ring a wc (to_le_bytes (length p)) mem

  abbrev with_seq : Memory
  with_seq = write_ring a (wc + 4) (to_le_bytes s.next_seq) with_len

  abbrev with_body : Memory
  with_body = write_ring a (wc + 8) p with_seq

  module _ (fits : frame_size p ≤ a.ring_data_size) (no_wrap : wc + frame_size p < 2 ^ 64) where
    -- Neither the cursors nor the length wrap.
    write_message-eq : write_message a s wc p mem ≡ with_body
    unfolding write_message
    write_message-eq =
        let len : length p % 2 ^ 32 ≡ length p = omega (arith, v.small) in
        let four : add64 wc 4 ≡ wc + 4 = omega arith in
        let eight : add64 wc 8 ≡ wc + 8 = omega arith in simp (len, four, eight)

    head_lem : window a with_body wc 8 ≡ to_le_bytes (length p) ++ to_le_bytes s.next_seq
    unfolding to_le_bytes
    head_lem =
        window-write_ring_before v (wc + 8) p with_seq wc 8 (omega arith) (omega arith)
        ∙ window-append a with_seq wc 4 4
        ∙ ap₂ ◌++◌
            (window-write_ring_before v (wc + 4) (to_le_bytes s.next_seq) with_len wc 4
                (omega arith) (omega (arith, v.large))
              ∙ window-write_ring v wc (to_le_bytes (length p)) mem (omega (arith, v.large)))
            (window-write_ring v (wc + 4) (to_le_bytes s.next_seq) with_len
              (omega (arith, v.large)))

    -- The three writes of a message leave its frame at the cursor.
    pub write_message-IsFrame :
        s.next_seq < 2 ^ 32 → IsFrame a (write_message a s wc p mem) wc s.next_seq p
    write_message-IsFrame word = rw write_message-eq (record {
      head = head_lem;
      body = window-write_ring v (wc + 8) p with_seq (omega arith);
      fits = fits;
      word = word;
    })

    -- They do not touch the bytes that the reader has not released.
    pub write_message-Agree :
        (from : ℕ)
        → wc + frame_size p ≤ from + a.ring_data_size
        → Agree a mem (write_message a s wc p mem) from wc
    unfolding to_le_bytes
    write_message-Agree from room d n lo hi = rw write_message-eq (
        window-write_ring_before v (wc + 8) p with_seq d n (omega arith) (omega arith)
        ∙ window-write_ring_before v (wc + 4) (to_le_bytes s.next_seq) with_len d n (omega arith)
            (omega arith)
        ∙ window-write_ring_before v wc (to_le_bytes (length p)) mem d n (omega arith)
            (omega arith))
