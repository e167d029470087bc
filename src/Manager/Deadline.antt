-- ===== src/Manager/Deadline.antt =====
-- The deadline of a reconnect on a tick counter that wraps around.
use esp_wifi_config.Common.{ℕ, ◌+◌, ◌-◌, ◌%◌, ◌^◌, ◌<◌, ◌≡◌, leb, ltb, arith}
use esp_wifi_config.Manager.{due_passed}

elapsed :
    (start wait gone : ℕ)
    → wait < 2147483648
    → gone < 2147483648
    → ltb
        (((start + gone) % 4294967296 + (4294967296 - (start + wait) % 4294967296)) % 4294967296)
        2147483648
      ≡ leb wait gone
elapsed start wait gone hw hg = ground arith

-- A deadline that lies less than 2^31 ticks ahead counts as passed exactly from its own tick on, for
-- the next 2^31 ticks from the start, wherever the 32-bit tick counter wraps around in between.
pub due_passed-wrap :
    (start wait gone : ℕ)
    → wait < 2 ^ 31
    → gone < 2 ^ 31
    → due_passed ((start + gone) % 2 ^ 32) ((start + wait) % 2 ^ 32) ≡ leb wait gone
due_passed-wrap start wait gone hw hg = elapsed start wait gone hw hg
