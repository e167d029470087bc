-- ===== src/Network/Sort.antt =====
-- `sort_networks_by_priority` of src/esp_wifi_config_network.c: bubble sort, descending. The list
-- is the first `network_count` entries of the array.
pub mod Order
use esp_wifi_config.Common.{ℕ, zero, suc, ◌-◌, List, [], ◌∷◌, length, ltb, if◌then◌else◌}
use esp_wifi_config.Network.Types.{Network}

-- The inner loop: `j` takes the given number of values, from 0 on. A swap moves the entry that
-- the next comparison looks at one place on.
pass : ℕ → List Network → List Network
pass zero xs = xs
pass (suc k) [] = []
pass (suc k) (x ∷ []) = x ∷ []
pass (suc k) (x ∷ y ∷ xs) =
    let swap = ltb x.priority y.priority in
    (if swap then y else x) ∷ pass k ((if swap then x else y) ∷ xs)

-- The outer loop: each round compares one pair less, down to one.
rounds : ℕ → List Network → List Network
rounds zero xs = xs
rounds (suc m) xs = rounds m (pass (suc m) xs)

unfoldable pub sort_networks_by_priority : List Network → List Network
unfolding pass rounds
sort_networks_by_priority xs = if ltb (length xs) 2 then xs else rounds (length xs - 1) xs
