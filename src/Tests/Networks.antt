-- ===== src/Tests/Networks.antt =====
-- The saved networks, their order, the reconnect delays and the flash format, on concrete inputs.
use esp_wifi_config.Common.{ℕ, ◌≡◌, ◌^◌, ◌*◌, refl, List, [], ◌∷◌, some, arith, min}
use esp_wifi_config.Common.Bytes.{codes}
use esp_wifi_config.Network.Types.{Network}
use esp_wifi_config.Network.Sort.{sort_networks_by_priority}
use esp_wifi_config.Network.Backoff.{calc_backoff_delay}
use esp_wifi_config.Network.Backoff.Saturating.{calc_backoff_delay-saturates}
use esp_wifi_config.Network.Store.{Store}
use esp_wifi_config.Network.Store.Map.{
  Call, add, update, forget, calls, calls_promised, view, calls_refine,
}
use esp_wifi_config.Network.Store.Valid.{IsValid}
use esp_wifi_config.Nvs.{wifi_cfg_nvs_save_networks}
use esp_wifi_config.Table.{find}
use esp_wifi_config.Tests.Flash.{Memory, blank, memory}
use esp_wifi_config.Network.Sort.Order.{Descending, of_priority, sort_networks_by_priority-stable}
use mathlib.Core.List.{Perm}

abbrev home : Network
home = record { ssid = codes "home"; password = codes "secret12"; priority = 10 }

abbrev cafe : Network
cafe = record { ssid = codes "cafe"; password = []; priority = 20 }

abbrev start : Store (Memory Network)
start = record { networks = home ∷ []; flash = blank; posted = [] }

start-IsValid : IsValid start
unfolding find
start-IsValid = record { unique = (refl, tt); fits = omega arith }

abbrev script : List Call
script = add cafe ∷ add cafe ∷ update home ∷ forget (codes "home") ∷ forget (codes "home") ∷ []

calls_refine_example :
    ((calls (memory Network) script start).0 ≡ (calls_promised script (view start)).0)
    × (view (calls (memory Network) script start).1 ≡ (calls_promised script (view start)).1)
    × IsValid (calls (memory Network) script start).1
calls_refine_example = calls_refine (memory Network) script start start-IsValid

sort_networks_by_priority_test : sort_networks_by_priority (home ∷ cafe ∷ []) ≡ cafe ∷ home ∷ []
unfolding sort_networks_by_priority
sort_networks_by_priority_test = refl

calc_backoff_delay-saturates_example :
    calc_backoff_delay 5000 60000 3 ≡ some (min (5000 * 2 ^ 3) 60000)
calc_backoff_delay-saturates_example =
    calc_backoff_delay-saturates 5000 60000 3 (omega arith) (omega arith) (omega arith)

sort_networks_by_priority-stable_example :
    Perm (sort_networks_by_priority (home ∷ cafe ∷ [])) (home ∷ cafe ∷ [])
    × Descending (sort_networks_by_priority (home ∷ cafe ∷ []))
    × ((p : ℕ)
        → of_priority p (sort_networks_by_priority (home ∷ cafe ∷ []))
          ≡ of_priority p (home ∷ cafe ∷ []))
sort_networks_by_priority-stable_example = sort_networks_by_priority-stable (home ∷ cafe ∷ [])

-- The write to flash goes through: the flash that it leaves stands on the right.
added : Memory Network
added = (wifi_cfg_nvs_save_networks (memory Network) (home ∷ cafe ∷ []) blank).1
