-- ===== src/Channel/Config.antt =====
-- `validate_config` of src/channel.rs accepts the sizes that a ring can have, and no other.
use mathlib.Core.Path.{subst⁻¹}
use shmem_ipc.Base.{
  ℕ, ◌^◌, ◌≤◌, ◌<◌, ◌≡◌, ◌≢◌, refl, ◌↔◌, arith, count_ones, count_ones-eq-one, count_ones-power,
}
use native.Mathlib.Nat.{pow-le-pow_right}
use native.Mathlib.Decide.{dec_lt}
use shmem_ipc.Error.{Error, IoError, Result, ok, err}
use shmem_ipc.Ring.Area.{IsArea}
use shmem_ipc.Channel.{ChannelConfig, is_power_of_two, validate_config, ring_place}

-- A size that a ring can have.
abbrev pub IsRingSize : ℕ → Type 0
IsRingSize size = (64 ≤ size) × (size < 2 ^ 32) × (k : ℕ) × (size ≡ 2 ^ k)

accepted : (config : ChannelConfig) → validate_config config ≡ ok tt → IsRingSize config.ring_size
unfolding validate_config is_power_of_two
accepted config h =
    let low : 64 ≤ config.ring_size = ground arith in
    let high : config.ring_size < 2 ^ 32 = ground arith in
    let one : count_ones 64 config.ring_size ≡ 1 = ground arith in
    let (k, e) = count_ones-eq-one 64 config.ring_size (omega arith) one in (low, high, k, e)

exponent_lt : (k : ℕ) → 2 ^ k < 2 ^ 32 → k < 64
exponent_lt k h = elim (dec_lt k 64) [
  | yes p ↦ p
  | no p ↦
      absurd (omega (arith, pow-le-pow_right {n = 2} (omega arith) {i = 64} {j = k} (omega arith)))
]

accepts : (config : ChannelConfig) → IsRingSize config.ring_size → validate_config config ≡ ok tt
unfolding validate_config is_power_of_two
accepts config (low, high, k, e) =
    let one : count_ones 64 config.ring_size ≡ 1 =
      subst⁻¹ (λ n. count_ones 64 n ≡ 1) e
        (count_ones-power 64 k (exponent_lt k (omega (arith, e)))) in
    ground arith

-- `validate_config` answers `Ok` exactly for a ring size that is a power of two from 64 up to
-- u32::MAX, and `InvalidInput` otherwise.
pub validate_config_iff :
    (config : ChannelConfig)
    → ((validate_config config ≡ ok tt) ↔ IsRingSize config.ring_size)
      × ((r : Result (Unit {0}))
          → validate_config config ≡ r
          → r ≢ ok tt
          → r ≡ err (Error.io IoError.invalid_input))
unfolding validate_config
validate_config_iff config = ((accepted config, accepts config), λ r e other. ground arith)

-- An accepted size makes each ring's data area a valid one.
pub ring_place-IsArea :
    (header_at data_at : ℕ) (config : ChannelConfig)
    → validate_config config ≡ ok tt
    → IsArea (ring_place header_at data_at config.ring_size).area
unfolding ring_place
ring_place-IsArea header_at data_at config h =
    let (low, high, k, e) = accepted config h in
    record { log = k; power = e; mask = refl; large = low; small = high }
