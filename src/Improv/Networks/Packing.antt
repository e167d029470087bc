-- ===== src/Improv/Networks/Packing.antt =====
-- What the responses with scan results hold.
use esp_wifi_config.Common.{
  ℕ, ◌+◌, ◌-◌, leb, ◌≤◌, ◌<◌, ◌≡◌, refl, sym, ap, ◌∙◌, List, [], ◌∷◌, ◌++◌, map, append_assoc,
  append-nil, inl, inr, arith, Bool-cases, All, length, length-append, length-take, ltb,
  if◌then◌else◌,
}
use esp_wifi_config.Common.Bytes.{Bytes}
use esp_wifi_config.Common.Decimal.{decimal}
use esp_wifi_config.Wifi.{
  AuthMode, auth_open, auth_wep, auth_wpa_psk, auth_wpa2_psk, auth_wpa_wpa2_psk, auth_wpa3_psk,
  auth_wpa2_wpa3_psk, auth_wpa2_enterprise, auth_wapi_psk, auth_other, ScanResult,
}
use esp_wifi_config.Improv.Core.{Transport, Effect, respond, Improv, append_tlv_string}
use esp_wifi_config.Improv.Networks.{
  single, chunked, auth_mode_str, rssi_str, append_network, needed, pack_single, send_chunks,
  send_networks,
}
use esp_wifi_config.Improv.Settings.Deferred.{send_rpc_result_fits}

-- Strings one behind the other, each behind its length.
abbrev pub tlv : List Bytes → Bytes
tlv [] = []
tlv (s ∷ ss) = (length s ∷ s) ++ tlv ss

-- What is told of a network.
abbrev pub strings : ScanResult → List Bytes
strings r = r.ssid ∷ rssi_str r.rssi ∷ auth_mode_str r.auth ∷ []

abbrev pub all_strings : List ScanResult → List Bytes
all_strings [] = []
all_strings (r ∷ rs) = strings r ++ all_strings rs

pub append_tlv_string_room :
    (size : ℕ) (str buf : Bytes)
    → length buf + 1 + length str ≤ size
    → size ≤ 255
    → append_tlv_string size str buf ≡ buf ++ (length str ∷ str)
unfolding append_tlv_string
append_tlv_string_room size str buf room small = ground arith

needed-length : (r : ScanResult) → length (tlv (strings r)) ≡ needed r
unfolding needed
needed-length r = omega (
  arith,
  length-append (length r.ssid ∷ r.ssid) (tlv (rssi_str r.rssi ∷ auth_mode_str r.auth ∷ [])),
  length-append (length (rssi_str r.rssi) ∷ rssi_str r.rssi) (tlv (auth_mode_str r.auth ∷ [])),
  length-append (length (auth_mode_str r.auth) ∷ auth_mode_str r.auth) [],
)

append_network_room :
    (size : ℕ) (r : ScanResult) (buf : Bytes)
    → length buf + needed r ≤ size
    → size ≤ 255
    → append_network size r buf ≡ buf ++ tlv (strings r)
unfolding append_network needed
append_network_room size r buf room small =
    let one = length r.ssid ∷ r.ssid in
    let two = length (rssi_str r.rssi) ∷ rssi_str r.rssi in
    let three = length (auth_mode_str r.auth) ∷ auth_mode_str r.auth in
    rw
      (
        append_tlv_string_room size r.ssid buf (omega arith) small,
        append_tlv_string_room size (rssi_str r.rssi) (buf ++ one)
            (omega (arith, length-append buf one)) small,
        append_tlv_string_room size (auth_mode_str r.auth) ((buf ++ one) ++ two)
            (omega (arith, length-append buf one, length-append (buf ++ one) two)) small,
      )
      (append_assoc (buf ++ one) two three
        ∙ append_assoc buf one (two ++ three)
        ∙ ap (λ (u : Bytes). buf ++ (one ++ (two ++ u))) (sym (append-nil three)))

tlv-append : (ss ts : List Bytes) → tlv (ss ++ ts) ≡ tlv ss ++ tlv ts
tlv-append [] ts = refl
tlv-append (s ∷ ss) ts =
    ap (λ (u : Bytes). (length s ∷ s) ++ u) (tlv-append ss ts)
    ∙ sym (append_assoc (length s ∷ s) (tlv ss) (tlv ts))

-- The network that comes next, if any, has no room behind the payload.
abbrev pub NoRoom : ℕ → Bytes → List ScanResult → Type 0
NoRoom size payload [] = Unit
NoRoom size payload (r ∷ rs) = size < length payload + needed r

-- A payload that holds as many of the networks as have room, from the first on.
pub record Packed (size : ℕ) (rs : List ScanResult) (buf payload : Bytes) : Type 0 where
  pub kept : List ScanResult
  pub left : List ScanResult
  pub in_order : rs ≡ kept ++ left
  pub holds : payload ≡ buf ++ tlv (all_strings kept)
  pub within : length payload ≤ size
  pub no_room : NoRoom size payload left

pack_single-Packed :
    (size : ℕ) (rs : List ScanResult) (buf : Bytes)
    → length buf ≤ size
    → size ≤ 255
    → Packed size rs buf (pack_single size rs buf)
unfolding pack_single
pack_single-Packed size [] buf room small = record {
  kept = [];
  left = [];
  in_order = refl;
  holds = sym (append-nil buf);
  within = room;
  no_room = tt;
}
pack_single-Packed size (r ∷ rs) buf room small =
    elim (Bool-cases (ltb size (length buf + needed r))) [
      | inl full ↦ rw full (record {
        kept = [];
        left = r ∷ rs;
        in_order = refl;
        holds = sym (append-nil buf);
        within = room;
        no_room = ground arith;
      })
      | inr free ↦
          let grown = append_network_room size r buf (ground arith) small in
          let fits : length (append_network size r buf) ≤ size =
            rw grown (ground (arith, length-append buf (tlv (strings r)), needed-length r)) in
          let later = pack_single-Packed size rs (append_network size r buf) fits small in
          rw free (record {
            kept = r ∷ later.kept;
            left = later.left;
            in_order = ap (λ (xs : List ScanResult). r ∷ xs) later.in_order;
            holds =
                later.holds
                ∙ ap (λ (u : Bytes). u ++ tlv (all_strings later.kept)) grown
                ∙ append_assoc buf (tlv (strings r)) (tlv (all_strings later.kept))
                ∙ ap (λ (u : Bytes). buf ++ u)
                    (sym (tlv-append (strings r) (all_strings later.kept)));
            within = later.within;
            no_room = later.no_room;
          })
    ]

auth_mode_str-short : (a : AuthMode) → length (auth_mode_str a) ≤ 9
unfolding auth_mode_str
auth_mode_str-short auth_open = omega arith
auth_mode_str-short auth_wep = omega arith
auth_mode_str-short auth_wpa_psk = omega arith
auth_mode_str-short auth_wpa2_psk = omega arith
auth_mode_str-short auth_wpa_wpa2_psk = omega arith
auth_mode_str-short auth_wpa3_psk = omega arith
auth_mode_str-short auth_wpa2_wpa3_psk = omega arith
auth_mode_str-short auth_wpa2_enterprise = omega arith
auth_mode_str-short auth_wapi_psk = omega arith
auth_mode_str-short auth_other = omega arith

-- The texts of the modes and of the signal strength are short.
needed-le : (r : ScanResult) → length r.ssid ≤ 32 → needed r ≤ 51
unfolding needed rssi_str
needed-le r short = omega (
  arith,
  auth_mode_str-short r.auth,
  length-take 7 (if leb 128 r.rssi then b'-' ∷ decimal (256 - r.rssi) else decimal r.rssi),
)

-- The response with one network.
abbrev pub network_response : Transport → ScanResult → Effect
network_response t r = respond t (4 ∷ length (tlv (strings r)) ∷ tlv (strings r))

module _ {W : Type 0} where
  send_chunks_lem :
      (size : ℕ) (rs : List ScanResult) (t : Transport) (m : Improv W)
      → 51 ≤ size
      → size ≤ 255
      → All (λ r. length r.ssid ≤ 32) rs
      → send_chunks size rs t m ≡ record m { effects = m.effects ++ map (network_response t) rs }
  unfolding send_chunks
  send_chunks_lem size [] t m roomy small short =
      λ i. record m { effects = sym (append-nil m.effects) i }
  send_chunks_lem size (r ∷ rs) t m roomy small (fit, fits) =
      let grown = append_network_room size r [] (omega (arith, needed-le r fit)) small in
      rw
        (
          grown,
          send_rpc_result_fits 4 (tlv (strings r)) t m
              (omega (arith, needed-length r, needed-le r fit)),
        )
        (send_chunks_lem size rs t (record m { effects = m.effects ++ network_response t r ∷ [] })
            roomy small fits
          ∙ λ i. record m {
            effects =
                append_assoc m.effects (network_response t r ∷ []) (map (network_response t) rs) i;
          })

  -- Over serial every network of a scan is told in a response of its own, in the order of the scan
  -- and with all its strings, and then an empty response ends the list, as long as the SSIDs have at
  -- most 32 bytes and the transport carries payloads of 51 bytes.
  pub send_networks-chunked :
      (size : ℕ) (rs : List ScanResult) (t : Transport) (m : Improv W)
      → 51 ≤ size
      → size ≤ 255
      → All (λ r. length r.ssid ≤ 32) rs
      → (send_networks chunked size rs t m).effects
        ≡ m.effects ++ map (network_response t) rs ++ respond t (4 ∷ 0 ∷ []) ∷ []
  unfolding send_networks
  send_networks-chunked size rs t m roomy small short =
      rw (send_chunks_lem size rs t m roomy small short) (
        ap (λ (m1 : Improv W). m1.effects)
          (send_rpc_result_fits 4 [] t
            (record m { effects = m.effects ++ map (network_response t) rs }) (omega arith)))

  -- Over BLE one response goes out, whose payload is no longer than the transport can carry: it
  -- tells of the first networks of the scan with all their strings, and the first network that is
  -- left out would not have fitted.
  pub send_networks-single :
      (size : ℕ) (rs : List ScanResult) (t : Transport) (m : Improv W)
      → size ≤ 255
      → (payload : Bytes) × Packed size rs [] payload
        × ((send_networks single size rs t m).effects
            ≡ m.effects ++ respond t (4 ∷ length payload ∷ payload) ∷ [])
  unfolding send_networks
  send_networks-single size rs t m small =
      let packed = pack_single-Packed size rs [] (omega arith) small in
      (
        pack_single size rs [],
        packed,
        ap (λ (m1 : Improv W). m1.effects)
            (send_rpc_result_fits 4 (pack_single size rs []) t m (omega (arith, packed.within))),
      )
