-- ===== src/Network/Scan.antt =====
-- `wifi_cfg_scan` of src/esp_wifi_config_network.c. How the driver's scan goes is given.
pub mod Inner
pub mod Merged
use esp_wifi_config.Common.{
  ℕ, zero, suc, ◌+◌, ◌%◌, ◌^◌, List, [], ◌∷◌, ◌++◌, map, Option, none, some, Bool, true, false,
  ◌||◌, length, take, ltb, if◌then◌else◌,
}
use esp_wifi_config.Common.Bytes.{Bytes, str_eq}
use esp_wifi_config.Event.{Event, scan_done}
use esp_wifi_config.Network.Types.{EspErr, esp_ok, invalid_state, no_mem, timeout}
use esp_wifi_config.Wifi.{ScanResult}
use esp_wifi_config.Manager.{WifiState, wifi_connecting, Manager}

-- The strength as a number that compares as the `int8_t` does.
abbrev pub strength : ScanResult → ℕ
strength r = (r.rssi + 128) % 256

-- The stronger signal of two results with one SSID is kept, under the first one's place.
abbrev pub keep_stronger : ScanResult → ScanResult → ScanResult
keep_stronger r x =
    if ltb (strength r) (strength x) then record r { rssi = x.rssi; auth = x.auth } else r

-- The inner loop for the entry `r`: what it becomes, and the entries behind it that stay.
unfoldable pub merge_into : ScanResult → List ScanResult → ScanResult × List ScanResult
merge_into r [] = (r, [])
merge_into r (x ∷ xs) =
    let merged = merge_into (keep_stronger r x) xs in
    let (r1, rest) = merge_into r xs in if str_eq r.ssid x.ssid then merged else (r1, x ∷ rest)

-- The outer loop, on fuel: each round leaves fewer entries to look at.
unfoldable pub merge_rounds : ℕ → List ScanResult → List ScanResult
unfolding merge_into
merge_rounds zero rs = rs
merge_rounds (suc fuel) [] = []
merge_rounds (suc fuel) (r ∷ rs) = let (r1, rest) = merge_into r rs in r1 ∷ merge_rounds fuel rest

pub merge_duplicates : List ScanResult → List ScanResult
unfolding merge_rounds
merge_duplicates rs = merge_rounds (length rs) rs

-- `esp_wifi_scan_start` and the wait for its end, the memory for the records, and the records.
pub data ScanRun : Type 0 where
  start_error : EspErr → ScanRun
  stopped timed_out out_of_memory : ScanRun
  records : List ScanResult → ScanRun

abbrev is_connecting : WifiState → Bool
is_connecting wifi_connecting = true
is_connecting _ = false

-- A record as it is copied out: 32 bytes of the SSID.
abbrev copied : ScanResult → ScanResult
copied r = record r { ssid = take 32 r.ssid }

-- A connection that is being made is given up for the scan.
unfoldable pub wifi_cfg_scan : ScanRun → ℕ → Manager → EspErr × Option (List ScanResult) × Manager
unfolding merge_duplicates
wifi_cfg_scan run max_count m =
    let m1 = if m.connecting || is_connecting m.state then record m { connecting = false } else m in
    elim run [
      | start_error e ↦ (e, none, m1)
      | stopped ↦ (invalid_state, none, m1)
      | timed_out ↦ (timeout, none, m1)
      | out_of_memory ↦ (no_mem, none, m1)
      | records rs ↦
          let found = merge_duplicates (map copied (take max_count rs)) in
          (
            esp_ok,
            some found,
            record m1 { posted = m1.posted ++ scan_done (length found % 2 ^ 16) ∷ [] },
          )
    ]
