-- ===== src/Platform/Windows/EventName.antt =====
-- `event_name` and `stable_name_hash` of src/platform/windows.rs. Text is a list of its UTF-16
-- units, which for these names are the ASCII codes.
use shmem_ipc.Base.{
  ℕ, ◌*◌, ◌%◌, ◌^◌, ◌≡◌, refl, ap, ◌∙◌, sym, List, [], ◌∷◌, ◌++◌, get_or, ◌==◌, if◌then◌else◌,
}
use Prim.Native.Nat.{bit_xor}
use shmem_ipc.Base.Digits.{
  All, IsDigit, digits_split, append_cancel, padded, padded-injective, padded-All,
}

pub data WaitSlot : Type 0 where
  ring_a_writer ring_a_reader ring_b_writer ring_b_reader : WaitSlot

pub data SignalKind : Type 0 where
  sync async : SignalKind

-- `WaitSlot::suffix`: a_writer, a_reader, b_writer, b_reader
unfoldable pub slot_suffix : WaitSlot → List ℕ
slot_suffix ring_a_writer = 97 ∷ 95 ∷ 119 ∷ 114 ∷ 105 ∷ 116 ∷ 101 ∷ 114 ∷ []
slot_suffix ring_a_reader = 97 ∷ 95 ∷ 114 ∷ 101 ∷ 97 ∷ 100 ∷ 101 ∷ 114 ∷ []
slot_suffix ring_b_writer = 98 ∷ 95 ∷ 119 ∷ 114 ∷ 105 ∷ 116 ∷ 101 ∷ 114 ∷ []
slot_suffix ring_b_reader = 98 ∷ 95 ∷ 114 ∷ 101 ∷ 97 ∷ 100 ∷ 101 ∷ 114 ∷ []

-- `SignalKind::suffix`: sync, async
unfoldable pub kind_suffix : SignalKind → List ℕ
kind_suffix sync = 115 ∷ 121 ∷ 110 ∷ 99 ∷ []
kind_suffix async = 97 ∷ 115 ∷ 121 ∷ 110 ∷ 99 ∷ []

-- FNV-1a over the name's bytes, from `hash` on.
unfoldable pub hash_from : (hash : ℕ) → List ℕ → ℕ
hash_from hash [] = hash
hash_from hash (byte ∷ bytes) = hash_from (bit_xor hash byte * 0x100000001b3 % 2 ^ 64) bytes

unfoldable pub stable_name_hash : List ℕ → ℕ
unfolding hash_from
stable_name_hash channel_name = hash_from 0xcbf29ce484222325 channel_name

-- `Local\shmem_ipc_`
abbrev pub prefix : List ℕ
prefix = 76 ∷ 111 ∷ 99 ∷ 97 ∷ 108 ∷ 92 ∷ 115 ∷ 104 ∷ 109 ∷ 101 ∷ 109 ∷ 95 ∷ 105 ∷ 112 ∷ 99 ∷ 95 ∷ []

-- What follows the key: the suffixes, and the terminating zero.
suffixes : WaitSlot → SignalKind → List ℕ
unfolding slot_suffix kind_suffix
suffixes slot kind = slot_suffix slot ++ (95 ∷ (kind_suffix kind ++ (0 ∷ [])))

unfoldable pub event_name : (channel_name : List ℕ) (wait_key : ℕ) → WaitSlot → SignalKind → List ℕ
unfolding stable_name_hash padded suffixes
event_name channel_name wait_key slot kind =
    prefix
    ++ (padded 16 (stable_name_hash channel_name)
        ++ (95 ∷ (padded 16 wait_key ++ (95 ∷ suffixes slot kind))))

-- The suffixes are told apart by their characters at 0, 2 and 9.
slot_of : List ℕ → WaitSlot
slot_of text =
    if get_or text 0 0 == 97
    then if get_or text 2 0 == 119 then ring_a_writer else ring_a_reader
    else if get_or text 2 0 == 119
    then ring_b_writer
    else ring_b_reader

kind_of : List ℕ → SignalKind
kind_of text = if get_or text 9 0 == 115 then sync else async

suffixes_read :
    (slot : WaitSlot) (kind : SignalKind)
    → (slot_of (suffixes slot kind) ≡ slot) × (kind_of (suffixes slot kind) ≡ kind)
unfolding suffixes slot_of kind_of
suffixes_read ring_a_writer sync = (refl, refl)
suffixes_read ring_a_writer async = (refl, refl)
suffixes_read ring_a_reader sync = (refl, refl)
suffixes_read ring_a_reader async = (refl, refl)
suffixes_read ring_b_writer sync = (refl, refl)
suffixes_read ring_b_writer async = (refl, refl)
suffixes_read ring_b_reader sync = (refl, refl)
suffixes_read ring_b_reader async = (refl, refl)

suffixes-injective :
    (s t : WaitSlot) (k l : SignalKind) → suffixes s k ≡ suffixes t l → (s ≡ t) × (k ≡ l)
suffixes-injective s t k l h = (
  sym (suffixes_read s k).0 ∙ ap slot_of h ∙ (suffixes_read t l).0,
  sym (suffixes_read s k).1 ∙ ap kind_of h ∙ (suffixes_read t l).1,
)

underscore_splits :
    (a b c d : List ℕ)
    → All IsDigit a
    → All IsDigit c
    → a ++ (95 ∷ b) ≡ c ++ (95 ∷ d)
    → (a ≡ c) × (b ≡ d)
underscore_splits a b c d p q h = digits_split 95 a b c d (λ x digit. digit.2) p q h

-- Two event names are the same only if they are for channel names of the same hash, the same wait
-- key, the same side of the same ring, and the same kind of signal.
pub event_name-injective :
    (name other : List ℕ) (key key' : ℕ) (s t : WaitSlot) (k l : SignalKind)
    → event_name name key s k ≡ event_name other key' t l
    → (stable_name_hash name ≡ stable_name_hash other) × (key ≡ key') × (s ≡ t) × (k ≡ l)
unfolding event_name
event_name-injective name other key key' s t k l h =
    let (hash, later) =
      underscore_splits _ _ _ _ (padded-All 16 (stable_name_hash name))
        (padded-All 16 (stable_name_hash other)) (append_cancel prefix _ _ h) in
    let (keys, ends) = underscore_splits _ _ _ _ (padded-All 16 key) (padded-All 16 key') later in
    let (slots, kinds) = suffixes-injective s t k l ends in
    (padded-injective 16 _ _ hash, padded-injective 16 _ _ keys, slots, kinds)
