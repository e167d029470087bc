-- ===== src/Improv/Rpc/Dispatch.antt =====
-- Whole RPC packets.
use esp_wifi_config.Common.{
  ℕ, ◌<◌, ◌≡◌, ◌⊎◌, refl, ◌∙◌, ◌∷◌, ◌++◌, some, arith, Bool, false, length, length-append,
  take_prefix, ltb, lt→ltb,
}
use esp_wifi_config.Common.Bytes.{Bytes}
use esp_wifi_config.Network.Types.{esp_ok, invalid_state}
use esp_wifi_config.Wifi.{WifiApi}
use esp_wifi_config.Improv.Core.{
  provisioning, error_none, invalid_rpc, Transport, Improv, improv_set_error,
}
use esp_wifi_config.Improv.Networks.{Style}
use esp_wifi_config.Improv.Settings.{settings_network, handle_send_wifi_settings}
use esp_wifi_config.Improv.Settings.Parse.{settings_layout, parse_settings_iff}
use esp_wifi_config.Improv.Settings.Deferred.{notified, handle_send_wifi_settings-saved}
use esp_wifi_config.Improv.Rpc.{DeviceInfo, dispatch, improv_handle_rpc}

not_shorter : (payload junk : Bytes) → ltb (length (payload ++ junk)) (length payload) ≡ false
not_shorter payload junk = ground (arith, length-append payload junk)

module _ {W : Type 0} (api : WifiApi W) (info : DeviceInfo) where
  open api use {add_network, saved}

  pub improv_handle_rpc-whole :
      (allocated : Bool) (cmd : ℕ) (payload junk : Bytes) (t : Transport) (style : Style)
      (max_payload : ℕ) (m : Improv W)
      → improv_handle_rpc api info allocated
          (cmd ∷ length payload ∷ (payload ++ junk))
          t
          style
          max_payload
          m
        ≡ dispatch api info allocated cmd payload t style max_payload
            (improv_set_error error_none m)
  unfolding improv_handle_rpc
  improv_handle_rpc-whole allocated cmd payload junk t style max_payload m =
      rw (not_shorter payload junk, take_prefix payload junk) refl

  dispatch-settings :
      (allocated : Bool) (payload : Bytes) (t : Transport) (style : Style) (max_payload : ℕ)
      (m : Improv W)
      → dispatch api info allocated 1 payload t style max_payload m
        ≡ handle_send_wifi_settings api payload t m
  unfolding dispatch
  dispatch-settings allocated payload t style max_payload m = refl

  -- A packet that brings settings in their layout is served whatever bytes follow in it or behind
  -- it: the network is the saved one of its SSID, the device is provisioning without an error, and
  -- the answer is owed to the transport that the packet came from, unless the manager refuses a new
  -- network.
  pub improv_handle_rpc-settings :
      (allocated : Bool) (ssid password tail junk : Bytes) (t : Transport) (style : Style)
      (max_payload : ℕ) (m : Improv W)
      → ((add_network (settings_network ssid password) m.wifi).0 ≡ esp_ok)
        ⊎ ((add_network (settings_network ssid password) m.wifi).0 ≡ invalid_state)
      → let payload = settings_layout ssid password tail in
        let m1 =
          improv_handle_rpc api info allocated
            (1 ∷ length payload ∷ (payload ++ junk))
            t
            style
            max_payload
            m in
        (m1.state ≡ provisioning)
        × (m1.error ≡ error_none)
        × (m1.pending ≡ some t)
        × (saved m1.wifi (settings_network ssid password).ssid
            ≡ some (settings_network ssid password))
  unfolding improv_set_error
  improv_handle_rpc-settings allocated ssid password tail junk t style max_payload m accepted =
      let payload = settings_layout ssid password tail in
      rw
        (improv_handle_rpc-whole allocated 1 payload junk t style max_payload m
          ∙ dispatch-settings allocated payload t style max_payload _)
        (handle_send_wifi_settings-saved api payload t (improv_set_error error_none m)
          ((parse_settings_iff payload ssid password).1 (tail, refl)) accepted)

  -- A packet that is shorter than its length byte says is reported as an invalid RPC and has no
  -- other effect: nothing is saved, answered or started.
  pub improv_handle_rpc-short :
      (allocated : Bool) (cmd n : ℕ) (rest : Bytes) (t : Transport) (style : Style)
      (max_payload : ℕ) (m : Improv W)
      → length rest < n
      → improv_handle_rpc api info allocated (cmd ∷ n ∷ rest) t style max_payload m
        ≡ record m { error = invalid_rpc; effects = m.effects ++ notified m m.state invalid_rpc }
  unfolding improv_handle_rpc improv_set_error
  improv_handle_rpc-short allocated cmd n rest t style max_payload m short =
      rw (lt→ltb (length rest) n short) refl
