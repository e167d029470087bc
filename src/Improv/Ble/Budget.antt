-- ===== src/Improv/Ble/Budget.antt =====
-- A response over BLE against what a notification on the connection can hold.
use mathlib.Core.Path.{subst}
use esp_wifi_config.Common.{
  ℕ, ◌+◌, ◌≡◌, ◌≤◌, refl, ap, ◌∙◌, List, [], ◌∷◌, ◌++◌, map, Option, none, some, Bool, true, length,
  length-append, take, if◌then◌else◌, arith, Option-cases, Bool-cases, inl, inr, append-nil,
}
use esp_wifi_config.Common.Bytes.{Bytes}
use esp_wifi_config.Wifi.{ScanResult, WifiApi}
use esp_wifi_config.Improv.Core.{
  ImprovState, ImprovError, error_none, error_unknown, invalid_rpc, Transport, serial, ble, Effect,
  notify, respond, identify, Improv, improv_set_error,
}
use esp_wifi_config.Improv.Networks.{single, payload_room, handle_get_wifi_networks, send_networks}
use esp_wifi_config.Improv.Networks.Packing.{Packed, send_networks-single}
use esp_wifi_config.Improv.Rpc.{DeviceInfo, dispatch, improv_handle_rpc}
use esp_wifi_config.Improv.Rpc.Dispatch.{improv_handle_rpc-whole}
use esp_wifi_config.Improv.Serial.{improv_checksum}
use esp_wifi_config.Improv.Ble.{
  Notice, state_notice, error_notice, result_notice, Link, with_checksum, notify_link,
  is_error_none, improv_ble_max_result_payload, ble_response_cb, ble_state_change_cb, play,
  through_core, handle_command,
}
use esp_wifi_config.Improv.Ble.Frame.{framed, framed-valid}

-- The results among the notifications.
abbrev pub results : List Notice → List Bytes
results [] = []
results (result_notice r ∷ ns) = r ∷ results ns
results (state_notice s ∷ ns) = results ns
results (error_notice e ∷ ns) = results ns

results-append : (xs ys : List Notice) → results (xs ++ ys) ≡ results xs ++ results ys
results-append [] ys = refl
results-append (result_notice r ∷ xs) ys = ap (λ (rs : List Bytes). r ∷ rs) (results-append xs ys)
results-append (state_notice s ∷ xs) ys = results-append xs ys
results-append (error_notice e ∷ xs) ys = results-append xs ys

-- The budget leaves room for the overhead of the notification and of the result.
budget_fits : (mtu : ℕ) → 23 ≤ mtu → improv_ble_max_result_payload (some mtu) + 6 ≤ mtu
unfolding improv_ble_max_result_payload
budget_fits mtu h = ground arith

budget_room :
    (mtu : Option ℕ)
    → (payload_room (improv_ble_max_result_payload mtu) ≡ improv_ble_max_result_payload mtu)
      × (improv_ble_max_result_payload mtu ≤ 255)
unfolding improv_ble_max_result_payload
budget_room none = ground arith
budget_room (some mtu) = ground arith

module _ {W : Type 0} where
  play-append : (es fs : List Effect) (l : Link W) → play (es ++ fs) l ≡ play fs (play es l)
  unfolding play
  play-append [] fs l = refl
  play-append (respond ble d ∷ es) fs l = play-append es fs _
  play-append (respond serial d ∷ es) fs l = play-append es fs l
  play-append (notify ble s e ∷ es) fs l = play-append es fs _
  play-append (notify serial s e ∷ es) fs l = play-append es fs l
  play-append (identify ∷ es) fs l = play-append es fs l

  -- The connection and what was answered so far.
  record Told (mtu : Option ℕ) (rs : List Bytes) (l : Link W) : Type 0 where
    pub same_mtu : l.mtu ≡ mtu
    pub so_far : results l.notices ≡ rs

  notify_link-Told :
      {mtu : Option ℕ} {rs : List Bytes} (n : Notice) (l : Link W)
      → results (n ∷ []) ≡ []
      → Told mtu rs l
      → Told mtu rs (notify_link n l)
  notify_link-Told n l silent t = elim (Option-cases l.mtu) [
    | inl none_there ↦ ground arith
    | inr (mtu, there) ↦
        ground (arith, results-append l.notices (n ∷ []), append-nil (results l.notices))
  ]

  state_change-Told :
      {mtu : Option ℕ} {rs : List Bytes} (s : ImprovState) (e : ImprovError) (l : Link W)
      → Told mtu rs l
      → Told mtu rs (ble_state_change_cb s e l)
  unfolding ble_state_change_cb
  state_change-Told s e l t =
      let told = notify_link-Told (state_notice s) l refl t in
      elim (Bool-cases (is_error_none e)) [
        | inl fine ↦ rw fine told
        | inr wrong ↦
            rw wrong (notify_link-Told (error_notice e) (notify_link (state_notice s) l) refl told)
      ]

  -- The notifications of a change of state tell no results.
  play_notify-Told :
      {mtu : Option ℕ} {rs : List Bytes} (s : ImprovState) (e : ImprovError) (ts : List Transport)
      (l : Link W)
      → Told mtu rs l
      → Told mtu rs (play (map (λ t. notify t s e) ts) l)
  unfolding play
  play_notify-Told s e [] l t = t
  play_notify-Told s e (serial ∷ ts) l t = play_notify-Told s e ts l t
  play_notify-Told s e (ble ∷ ts) l t = play_notify-Told s e ts _ (state_change-Told s e l t)

  -- A result that the transport can hold.
  response-Told :
      (mtu : ℕ) (rs : List Bytes) (d : Bytes) (l : Link W)
      → length d ≤ 257
      → Told (some mtu) rs l
      → Told (some mtu) (rs ++ with_checksum d ∷ []) (ble_response_cb d l)
        × ((ble_response_cb d l).rpc_result ≡ with_checksum d)
  unfolding ble_response_cb
  response-Told mtu rs d l fits t =
      ground (arith, results-append l.notices (result_notice (with_checksum d) ∷ []))

module _ {W : Type 0} (api : WifiApi W) (info : DeviceInfo) where
  open api use {scan}

  abbrev checksum_of_scan : ℕ
  checksum_of_scan = improv_checksum (4 ∷ 0 ∷ [])

  scan_request :
      (budget : ℕ) (rs : List ScanResult) (w : W) (m : Improv W)
      → scan m.wifi ≡ (some rs, w)
      → dispatch api info true 4 [] ble single budget m
        ≡ send_networks single (payload_room budget) (take 20 rs) ble (record m { wifi = w })
  unfolding dispatch handle_get_wifi_networks
  scan_request budget rs w m scanned =
      ap
        (λ (r : Option (List ScanResult) × W). elim r.0 as (λ _. Improv W) [
          | none ↦ improv_set_error error_unknown (record m { wifi = r.1 })
          | some found ↦
              send_networks single (payload_room budget) (take 20 found) ble
                (record m { wifi = r.1 })
        ])
        scanned

  -- The effects of a scan request are the notifications of the cleared error and one response.
  scan_effects :
      (mtu : Option ℕ) (rs : List ScanResult) (w : W) (m : Improv W)
      → scan m.wifi ≡ (some rs, w)
      → m.effects ≡ []
      → (payload : Bytes) × Packed (improv_ble_max_result_payload mtu) (take 20 rs) [] payload
        × ((improv_handle_rpc api info true
              (framed 4 [])
              ble
              single
              (improv_ble_max_result_payload mtu)
              m).effects
            ≡ map (λ t. notify t m.state error_none) m.state_cbs
              ++ respond ble (4 ∷ length payload ∷ payload) ∷ [])
  unfolding improv_set_error
  scan_effects mtu rs w m scanned fresh =
      let budget = improv_ble_max_result_payload mtu in
      let (same, small) = budget_room mtu in
      let m1 = improv_set_error error_none m in
      let (payload, packed, sent) =
        send_networks-single budget (take 20 rs) ble (record m1 { wifi = w }) small in
      (
        payload,
        packed,
        ap (λ (x : Improv W). x.effects)
              (improv_handle_rpc-whole api info true 4 [] (checksum_of_scan ∷ []) ble single budget
                  m
                ∙ scan_request budget rs w m1 scanned
                ∙ ap
                    (λ (size : ℕ).
                      send_networks single size (take 20 rs) ble (record m1 { wifi = w }))
                    same)
            ∙ sent
            ∙ ap
                (λ (es : List Effect).
                  (es ++ map (λ t. notify t m.state error_none) m.state_cbs)
                  ++ respond ble (4 ∷ length payload ∷ payload) ∷ [])
                fresh,
      )

  abbrev scanned_core : Link W → Improv W
  scanned_core l =
      improv_handle_rpc api info true (framed 4 []) ble single (improv_ble_max_result_payload l.mtu)
        (record l.core { effects = [] })

  -- The callbacks of a scan request, the response last.
  handle_command-played :
      (l : Link W) (es : List Effect) (d : Bytes)
      → (scanned_core l).effects ≡ es ++ respond ble d ∷ []
      → let m1 = scanned_core l in
        let l0 : Link W = record l {
          core = record m1 { effects = l.core.effects ++ m1.effects };
        } in
        handle_command api info true (framed 4 []) l ≡ ble_response_cb d (play es l0)
  unfolding handle_command play
  handle_command-played l es d effects =
      let m1 = scanned_core l in
      let l0 : Link W = record l { core = record m1 { effects = l.core.effects ++ m1.effects } } in
      ap
        (λ (b : Bool).
          if b then play m1.effects l0 else through_core (improv_set_error invalid_rpc) l)
        (framed-valid 4 [])
      ∙ ap (λ (x : List Effect). play x l0) effects
      ∙ play-append es (respond ble d ∷ []) l0

  -- A valid scan request over BLE is answered by one notification with the networks of the scan that
  -- fit, in their order: it is a valid frame itself, no longer than a notification on the connection
  -- can be (three bytes less than its MTU), and the same bytes are left to be read.
  pub handle_command-scan :
      (mtu : ℕ) (rs : List ScanResult) (w : W) (l : Link W)
      → 23 ≤ mtu
      → l.mtu ≡ some mtu
      → scan l.core.wifi ≡ (some rs, w)
      → let l1 = handle_command api info true (framed 4 []) l in
        (payload : Bytes) × Packed
          (improv_ble_max_result_payload (some mtu))
          (take 20 rs)
          []
          payload
        × (l1.rpc_result ≡ framed 4 payload)
        × (results l1.notices ≡ results l.notices ++ framed 4 payload ∷ [])
        × (length (framed 4 payload) + 3 ≤ mtu)
  handle_command-scan mtu rs w l wide connected scanned =
      let m0 = record l.core { effects = [] } in
      let m1 =
        improv_handle_rpc api info true (framed 4 []) ble single
          (improv_ble_max_result_payload l.mtu) m0 in
      let l0 : Link W = record l { core = record m1 { effects = l.core.effects ++ m1.effects } } in
      let (payload, packed, effects) = scan_effects l.mtu rs w m0 scanned refl in
      let packed1 : Packed (improv_ble_max_result_payload (some mtu)) (take 20 rs) [] payload =
        subst (λ (o : Option ℕ). Packed (improv_ble_max_result_payload o) (take 20 rs) [] payload)
          connected packed in
      let told =
        play_notify-Told l.core.state error_none l.core.state_cbs l0
          (record { same_mtu = connected; so_far = refl }) in
      let (answered, stored) =
        response-Told mtu (results l.notices) (4 ∷ length payload ∷ payload) _
          (omega (arith, packed1.within, budget_fits mtu wide, budget_room (some mtu))) told in
      let played =
        handle_command-played l (map (λ t. notify t l.core.state error_none) l.core.state_cbs)
          (4 ∷ length payload ∷ payload) effects in
      (
        payload,
        packed1,
        ap (λ (x : Link W). x.rpc_result) played ∙ stored,
        ap (λ (x : Link W). results x.notices) played ∙ answered.so_far,
        omega (
          arith,
          packed1.within,
          budget_fits mtu wide,
          length-append payload (improv_checksum (4 ∷ length payload ∷ payload) ∷ []),
        ),
      )
