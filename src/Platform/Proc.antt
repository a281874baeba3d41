-- ===== src/Platform/Proc.antt =====
-- What src/platform/linux.rs reads in /proc: `process_stat` and `parse_process_stat`. Text is a
-- list of its characters' code points.
pub mod Fields
use shmem_ipc.Base.{
  ℕ, zero, suc, ◌^◌, Bool, true, false, not, ◌&&◌, ◌||◌, List, [], ◌∷◌, Option, some, none, leb,
  ◌==◌, if◌then◌else◌,
}
use shmem_ipc.Base.Digits.{parse_from}
use shmem_ipc.Error.{Error, IoError, Result, ok, err, ◌>>=◌}

-- What follows the separator, if the text begins with it; here ") ".
after_separator : List ℕ → Option (List ℕ)
after_separator [] = none
after_separator (a ∷ []) = none
after_separator (a ∷ b ∷ rest) = if a == 41 && b == 32 then some rest else none

-- `rsplit_once(") ")`: what stands before the last separator, and what follows it.
unfoldable pub rsplit_once : List ℕ → Option (List ℕ × List ℕ)
unfolding after_separator
rsplit_once [] = none
rsplit_once (c ∷ text) = elim (rsplit_once text) [
  | some (before, after) ↦ some (c ∷ before, after)
  | none ↦ elim (after_separator (c ∷ text)) [ none ↦ none | some after ↦ some ([], after) ]
]

-- `char::is_whitespace`
unfoldable pub is_whitespace : ℕ → Bool
is_whitespace c =
    (leb 9 c && leb c 13)
    || c == 32
    || c == 0x85
    || c == 0xA0
    || c == 0x1680
    || (leb 0x2000 c && leb c 0x200A)
    || c == 0x2028
    || c == 0x2029
    || c == 0x202F
    || c == 0x205F
    || c == 0x3000

-- A word that has ended, in front of the later ones.
end_word : List ℕ → List (List ℕ) → List (List ℕ)
end_word [] words = words
end_word (c ∷ word) words = (c ∷ word) ∷ words

-- The word at the start of the text, which may be empty, and the later ones.
split_words : List ℕ → List ℕ × List (List ℕ)
unfolding is_whitespace end_word
split_words [] = ([], [])
split_words (c ∷ text) =
    let (word, words) = split_words text in
    if is_whitespace c then ([], end_word word words) else (c ∷ word, words)

unfoldable pub split_whitespace : List ℕ → List (List ℕ)
unfolding split_words end_word
split_whitespace text = let (word, words) = split_words text in end_word word words

-- `Iterator::nth`
abbrev pub nth {ℓ} : {A : Type ℓ} → List A → ℕ → Option A
nth [] i = none
nth (x ∷ xs) zero = some x
nth (x ∷ xs) (suc i) = nth xs i

-- `parse::<u64>`: a sign + may come first; then there must be a digit.
unfoldable pub parse_u64 : List ℕ → Option ℕ
unfolding parse_from
parse_u64 [] = none
parse_u64 (c ∷ []) = parse_from 10 (2 ^ 64) 0 (c ∷ [])
parse_u64 (c ∷ d ∷ rest) =
    if c == 43 then parse_from 10 (2 ^ 64) 0 (d ∷ rest) else parse_from 10 (2 ^ 64) 0 (c ∷ d ∷ rest)

-- `matches!(state, "Z" | "X" | "x")`
unfoldable pub is_gone : List ℕ → Bool
is_gone [] = false
is_gone (c ∷ []) = c == 90 || c == 88 || c == 120
is_gone (c ∷ d ∷ rest) = false

unfoldable pub parse_fields : List (List ℕ) → Result (ℕ × Bool)
unfolding parse_u64 is_gone
parse_fields [] = err Error.invalid_header
parse_fields (state ∷ fields) = elim (nth fields 18) [
  | none ↦ err Error.invalid_header
  | some value ↦ elim (parse_u64 value) [
    | none ↦ err Error.invalid_header
    | some birth ↦ ok (birth, not (is_gone state))
  ]
]

unfoldable pub parse_process_stat : List ℕ → Result (ℕ × Bool)
unfolding rsplit_once split_whitespace parse_fields
parse_process_stat stat = elim (rsplit_once stat) [
  | none ↦ err Error.invalid_header
  | some (_, fields) ↦ parse_fields (split_whitespace fields)
]

-- `process_stat`; `read` is what reading the file of a pid in /proc returns.
unfoldable pub process_stat : (read : ℕ → Result (List ℕ)) → ℕ → Result (ℕ × Bool)
unfolding parse_process_stat
process_stat read pid = elim (read pid) [
  | err (Error.io IoError.not_found) ↦ err Error.peer_disconnected
  | err error ↦ err error
  | ok stat ↦ parse_process_stat stat
]
