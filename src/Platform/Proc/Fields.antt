-- ===== src/Platform/Proc/Fields.antt =====
-- `parse_process_stat` of src/platform/linux.rs reads a line of /proc back, whatever the name of
-- the program is.
use shmem_ipc.Base.{
  ℕ, ◌≡◌, ◌≢◌, ◌<◌, ◌^◌, refl, ap, ◌∙◌, false, not, ◌&&◌, List, [], ◌∷◌, ◌++◌, some, none, arith,
  length, ◌==◌,
}
use mathlib.Core.List.{append-nil}
use mathlib.Core.Path.{subst}
use shmem_ipc.Base.Digits.{
  decimal, All, IsDigit, decimal-All, decimal-ne-nil, parse_from-decimal, parse_from,
}
use shmem_ipc.Error.{Result, ok}
use shmem_ipc.Platform.{ProcessMonitor, is_alive}
use shmem_ipc.Platform.Proc.{
  after_separator, rsplit_once, is_whitespace, end_word, split_words, split_whitespace, nth,
  parse_u64, is_gone, parse_fields, parse_process_stat, process_stat,
}

-- No character of a field ends it, or may end the name of the program.
abbrev pub IsFieldChar : ℕ → Type 0
IsFieldChar c = (is_whitespace c ≡ false) × (c ≢ 41)

abbrev pub IsField : List ℕ → Type 0
IsField word = (word ≢ []) × All IsFieldChar word

-- The fields behind a first one, and the end of the line.
abbrev pub spaced : List (List ℕ) → List ℕ
spaced [] = 10 ∷ []
spaced (word ∷ words) = 32 ∷ (word ++ spaced words)

abbrev NoParen : List ℕ → Type 0
NoParen text = All (λ c. c ≢ 41) text

append-NoParen : (word rest : List ℕ) → All IsFieldChar word → NoParen rest → NoParen (word ++ rest)
append-NoParen [] rest w r = r
append-NoParen (c ∷ word) rest ((_, ne), w) r = (ne, append-NoParen word rest w r)

spaced-NoParen : (words : List (List ℕ)) → All IsField words → NoParen (spaced words)
spaced-NoParen [] w = (omega arith, tt)
spaced-NoParen (word ∷ words) ((_, w), ws) =
    (omega arith, append-NoParen word (spaced words) w (spaced-NoParen words ws))

after_separator-eq-none : (c : ℕ) (text : List ℕ) → c ≢ 41 → after_separator (c ∷ text) ≡ none
unfolding after_separator
after_separator-eq-none c [] ne = refl
after_separator-eq-none c (d ∷ text) ne = ground arith

rsplit_once-eq-none : (text : List ℕ) → NoParen text → rsplit_once text ≡ none
unfolding rsplit_once
rsplit_once-eq-none [] h = refl
rsplit_once-eq-none (c ∷ text) (ne, h) =
    rw (rsplit_once-eq-none text h, after_separator-eq-none c text ne, rsplit_once) refl

rsplit_once_lem :
    (before after : List ℕ)
    → NoParen after
    → rsplit_once (before ++ (41 ∷ 32 ∷ after)) ≡ some (before, after)
unfolding rsplit_once after_separator
rsplit_once_lem [] after h =
    rw
      (rsplit_once-eq-none after h, after_separator-eq-none 32 after (omega arith), after_separator)
      refl
rsplit_once_lem (c ∷ before) after h = rw (rsplit_once_lem before after h, rsplit_once) refl

split_words-append :
    (word rest : List ℕ)
    → All IsFieldChar word
    → split_words (word ++ rest) ≡ (word ++ (split_words rest).0, (split_words rest).1)
unfolding split_words
split_words-append [] rest w = refl
split_words-append (c ∷ word) rest ((solid, _), w) =
    rw (split_words-append word rest w, solid, split_words) refl

end_word_lem :
    (word : List ℕ) (words : List (List ℕ)) → word ≢ [] → end_word (word ++ []) words ≡ word ∷ words
unfolding end_word
end_word_lem [] words ne = absurd (ne refl)
end_word_lem (c ∷ word) words ne = ap (λ w. (c ∷ w) ∷ words) (append-nil word)

split_words-spaced :
    (words : List (List ℕ)) → All IsField words → split_words (spaced words) ≡ ([], words)
unfolding split_words is_whitespace end_word
split_words-spaced [] w = refl
split_words-spaced (word ∷ words) ((ne, w), ws) =
    rw
      (
        split_words-append word (spaced words) w,
        split_words-spaced words ws,
        end_word_lem word words ne,
      )
      refl

split_whitespace-spaced :
    (word : List ℕ) (words : List (List ℕ))
    → IsField word
    → All IsField words
    → split_whitespace (word ++ spaced words) ≡ word ∷ words
unfolding split_whitespace
split_whitespace-spaced word words (ne, w) ws =
    rw (split_words-append word (spaced words) w, split_words-spaced words ws)
      (end_word_lem word words ne)

nth-append {ℓ} :
    {A : Type ℓ} (before after : List A) (x : A)
    → nth (before ++ (x ∷ after)) (length before) ≡ some x
nth-append [] after x = refl
nth-append (y ∷ before) after x = nth-append before after x

-- A digit is no sign.
parse_u64-digits :
    (text : List ℕ) → All IsDigit text → text ≢ [] → parse_u64 text ≡ parse_from 10 (2 ^ 64) 0 text
unfolding parse_u64
parse_u64-digits [] d ne = absurd (ne refl)
parse_u64-digits (c ∷ []) d ne = refl
parse_u64-digits (c ∷ e ∷ text) ((low, _, _), d) ne =
    let digit : (c == 43) ≡ false = ground arith in rw (digit, parse_u64) refl

parse_u64-decimal : (n : ℕ) → n < 2 ^ 64 → parse_u64 (decimal n) ≡ some n
parse_u64-decimal n fits =
    parse_u64-digits (decimal n) (decimal-All n) (decimal-ne-nil n)
    ∙ parse_from-decimal (2 ^ 64) n fits

digits-IsFieldChar : (text : List ℕ) → All IsDigit text → All IsFieldChar text
unfolding is_whitespace
digits-IsFieldChar [] d = tt
digits-IsFieldChar (c ∷ text) (range, d) = ((ground arith, omega arith), digits-IsFieldChar text d)

pub decimal-IsField : (n : ℕ) → IsField (decimal n)
decimal-IsField n = (decimal-ne-nil n, digits-IsFieldChar (decimal n) (decimal-All n))

append-IsField : (xs ys : List (List ℕ)) → All IsField xs → All IsField ys → All IsField (xs ++ ys)
append-IsField [] ys p q = q
append-IsField (x ∷ xs) ys (px, p) q = (px, append-IsField xs ys p q)

parse_fields_lem :
    (state : List ℕ) (before after : List (List ℕ)) (birth : ℕ)
    → length before ≡ 18
    → birth < 2 ^ 64
    → parse_fields (state ∷ (before ++ (decimal birth ∷ after))) ≡ ok (birth, not (is_gone state))
unfolding parse_fields
parse_fields_lem state before after birth count fits =
    let found : nth (before ++ (decimal birth ∷ after)) 18 ≡ some (decimal birth) =
      subst (λ n. nth (before ++ (decimal birth ∷ after)) n ≡ some (decimal birth)) count
        (nth-append before after (decimal birth)) in
    rw (found, parse_u64-decimal birth fits, parse_fields) refl

-- A line of /proc: `head` is the pid and the name of the program with its opening parenthesis.
abbrev pub stat_line :
    (head state : List ℕ) (before : List (List ℕ)) (birth : ℕ) (after : List (List ℕ)) → List ℕ
stat_line head state before birth after =
    head ++ (41 ∷ 32 ∷ (state ++ spaced (before ++ (decimal birth ∷ after))))

parse_process_stat_lem :
    (head state : List ℕ) (before after : List (List ℕ)) (birth : ℕ)
    → IsField state
    → All IsField before
    → All IsField after
    → length before ≡ 18
    → birth < 2 ^ 64
    → parse_process_stat (stat_line head state before birth after) ≡ ok (birth, not (is_gone state))
unfolding parse_process_stat
parse_process_stat_lem head state before after birth s b a count fits =
    let fields = before ++ (decimal birth ∷ after) in
    let all : All IsField fields =
      append-IsField before (decimal birth ∷ after) b (decimal-IsField birth, a) in
    rw
      (
        rsplit_once_lem head (state ++ spaced fields)
            (append-NoParen state (spaced fields) s.1 (spaced-NoParen fields all)),
        split_whitespace-spaced state fields s all,
        parse_fields_lem state before after birth count fits,
        parse_process_stat,
      )
      refl

-- If the line that /proc has for the watched pid gives a state, eighteen fields, the birth and
-- further fields, none of them empty or with white space or a closing parenthesis in it, then the
-- observer answers whether that birth is the watched one and the state is none of Z, X and x,
-- whatever characters the program's name in front has, parentheses and spaces included. The birth
-- is below 2 ^ 64.
pub is_alive-process_stat :
    (read : ℕ → Result (List ℕ)) (monitor : ProcessMonitor) (head state : List ℕ)
    (before after : List (List ℕ)) (birth : ℕ)
    → read monitor.identity.pid ≡ ok (stat_line head state before birth after)
    → IsField state
    → All IsField before
    → All IsField after
    → length before ≡ 18
    → birth < 2 ^ 64
    → is_alive (process_stat read) monitor
      ≡ ok (not (is_gone state) && birth == monitor.identity.birth)
unfolding is_alive process_stat
is_alive-process_stat read monitor head state before after birth line s b a count fits =
    rw (line, parse_process_stat_lem head state before after birth s b a count fits, process_stat)
      refl
