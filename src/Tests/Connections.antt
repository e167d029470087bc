-- ===== src/Tests/Connections.antt =====
-- The manager task, the connect sequence and the scan, on concrete inputs.
use esp_wifi_config.Common.{
  ℕ, zero, suc, ◌+◌, ◌++◌, ◌<◌, ◌≤◌, ◌≡◌, ◌⊎◌, refl, List, [], ◌∷◌, true, false, arith, length,
  take,
}
use esp_wifi_config.Common.Bytes.{codes}
use esp_wifi_config.Network.Types.{Network}
use esp_wifi_config.Network.Sort.{sort_networks_by_priority}
use esp_wifi_config.Manager.{wifi_disconnected, wifi_connected, Config, Manager, running, undefined}
use esp_wifi_config.Manager.Suppressed.{
  Input, driver_drops, message_disconnected, deadline, run, Quiet, run-suppressed,
}
use esp_wifi_config.Manager.Reconnect.{Report, run_reports, Waiting, run_reports-undefined}
use esp_wifi_config.Network.Connect.{
  Outcome, came_up, failed, Retries, prov_on_failure, Connecting, announce, start_connect_sequence,
}
use esp_wifi_config.Network.Connect.First.{start_connect_sequence-first}
use esp_wifi_config.Network.Connect.Attempts.{GoesOn, FirstUp, AllDown}
use esp_wifi_config.Network.Scan.{merge_duplicates}
use esp_wifi_config.Network.Scan.Merged.{merge_duplicates-strongest}
use esp_wifi_config.Network.Scan.Inner.{scan_ssid, Seen, Covers}
use esp_wifi_config.Table.Laws.{Unique}
use esp_wifi_config.Wifi.{ScanResult, auth_open, auth_wpa2_psk, auth_wpa_wpa2_psk}

abbrev config : Config
config = record {
  auto_reconnect = true;
  max_reconnect_attempts = 0;
  restart_when_exhausted = false;
  retry_interval_ms = 5000;
  retry_max_interval_ms = 60000;
}

abbrev ms_to_ticks : ℕ → ℕ
ms_to_ticks ms = ms

abbrev on_air : Manager
on_air = record {
  state = wifi_connected;
  connected_ssid = codes "home";
  connected_bit = true;
  fail_bit = false;
  connecting = false;
  reconnect_suppressed = true;
  reconnect_pending = true;
  reconnect_due_tick = 100;
  retry_count = 0;
  reconnect_attempt_count = 0;
  sequences = 0;
  posted = [];
}

abbrev inputs : List Input
inputs =
    driver_drops (codes "home")
    ∷ deadline 200
    ∷ message_disconnected 200 (codes "home") 8
    ∷ deadline 9000
    ∷ []

run-suppressed_example :
    (m' : Manager) × (run config ms_to_ticks inputs on_air ≡ running m')
    × Quiet config ms_to_ticks on_air m'
run-suppressed_example = run-suppressed config ms_to_ticks inputs on_air refl

abbrev off_air : Manager
off_air = record on_air {
  state = wifi_disconnected;
  connected_ssid = [];
  connected_bit = false;
  reconnect_suppressed = false;
  retry_count = 31;
}

abbrev report : Report
report = record { at = 1000; ssid = codes "home"; reason = 201 }

run_reports-undefined_example :
    ((32 < 31 + length (report ∷ report ∷ []))
      × (run_reports config ms_to_ticks (report ∷ report ∷ []) off_air ≡ undefined))
    ⊎ ((31 + length (report ∷ report ∷ []) ≤ 32)
        × ((m' : Manager) × (run_reports config ms_to_ticks (report ∷ report ∷ []) off_air
              ≡ running m')
            × Waiting config ms_to_ticks (31 + length (report ∷ report ∷ [])) m'))
run_reports-undefined_example =
    run_reports-undefined config ms_to_ticks (report ∷ report ∷ []) 31 off_air
      (record { automatic = refl; unlimited = refl })
      (record {
        away = record {
          no_ssid = refl;
          no_bit = refl;
          allowed = refl;
          idle = refl;
          attempts = refl;
        };
        pending = refl;
      })
      (omega arith)

abbrev home : Network
home = record { ssid = codes "home"; password = codes "secret12"; priority = 10 }

abbrev cafe : Network
cafe = record { ssid = codes "cafe"; password = []; priority = 20 }

abbrev retries : Retries
retries = record { max_retry_per_network = 3; interval = 1000; max_interval = 8000 }

abbrev only_second : ℕ → ℕ → Outcome
only_second zero r = failed
only_second (suc j) r = came_up

only_second-GoesOn : (j r : ℕ) → GoesOn (only_second j r)
only_second-GoesOn zero r = (ground arith, ground arith, ground arith)
only_second-GoesOn (suc j) r = (ground arith, ground arith, ground arith)

abbrev begin : Connecting
begin = record {
  manager = off_air;
  networks = home ∷ cafe ∷ [];
  provisioning_active = false;
  provisioning_calls = 0;
  actions = [];
}

start_connect_sequence-first_example :
    (((start_connect_sequence retries prov_on_failure false only_second begin).manager.connecting
        ≡ false)
      × ((start_connect_sequence retries prov_on_failure false only_second begin).networks
          ≡ sort_networks_by_priority begin.networks))
    × (((k : ℕ) × FirstUp retries only_second 0 (sort_networks_by_priority begin.networks) k
          × ((start_connect_sequence retries prov_on_failure false only_second
                begin).manager.retry_count
              ≡ 0)
          × ((start_connect_sequence retries prov_on_failure false only_second begin).manager.posted
              ≡ [] ++ announce (take (suc k) (sort_networks_by_priority begin.networks))))
        ⊎ (AllDown retries only_second 0 (sort_networks_by_priority begin.networks)
            × ((start_connect_sequence retries prov_on_failure false only_second
                  begin).manager.state
                ≡ wifi_disconnected)
            × ((start_connect_sequence retries prov_on_failure false only_second
                  begin).manager.posted
                ≡ [] ++ announce (sort_networks_by_priority begin.networks))))
start_connect_sequence-first_example =
    start_connect_sequence-first retries prov_on_failure only_second begin only_second-GoesOn
      (omega arith)

abbrev weak : ScanResult
weak = record { ssid = codes "home"; rssi = 170; auth = auth_wpa2_psk }

abbrev strong : ScanResult
strong = record { ssid = codes "home"; rssi = 220; auth = auth_wpa_wpa2_psk }

abbrev seen : List ScanResult
seen = weak ∷ record { ssid = codes "cafe"; rssi = 190; auth = auth_open } ∷ strong ∷ []

merge_duplicates-strongest_example :
    Unique scan_ssid (merge_duplicates seen)
    × ((b : ScanResult) → Seen (merge_duplicates seen) b → Seen seen b)
    × ((x : ScanResult) → Seen seen x → Covers (merge_duplicates seen) x)
merge_duplicates-strongest_example = merge_duplicates-strongest seen

abbrev idle : Connecting
idle = record begin { manager = record off_air { reconnect_pending = false } }
