-- ===== src/Network/Backoff.antt =====
-- `wifi_cfg_calc_backoff_delay` of src/esp_wifi_config_network.c.
pub mod Saturating
use esp_wifi_config.Common.{ℕ, ◌*◌, ◌%◌, ◌^◌, Bool, ◌||◌, Option, none, some, ltb, if◌then◌else◌}

-- `uint32_t << int`: C leaves a shift by the width or more undefined.
pub shl32 : ℕ → ℕ → Option ℕ
shl32 x k = if ltb k 32 then some (x * 2 ^ k % 4294967296) else none

-- The delay is capped at the maximum; a sum that wrapped below the base counts as above it.
pub cap_delay : ℕ → ℕ → ℕ → ℕ
cap_delay base max_delay delay = if ltb max_delay delay || ltb delay base then max_delay else delay

-- `none` where the shift is undefined.
unfoldable pub calc_backoff_delay : ℕ → ℕ → ℕ → Option ℕ
unfolding shl32 cap_delay
calc_backoff_delay base max_delay retry = elim (shl32 base retry) [
  | none ↦ none
  | some delay ↦ some (cap_delay base max_delay delay)
]
