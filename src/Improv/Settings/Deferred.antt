-- ===== src/Improv/Settings/Deferred.antt =====
-- From the settings to their answer.
use esp_wifi_config.Common.{
  ℕ, ◌+◌, ◌≤◌, ◌<◌, ◌≡◌, ◌⊎◌, refl, sym, ap, ◌∙◌, List, [], ◌∷◌, ◌++◌, map, none, some, inl, inr,
  arith, true, length, length-take, append-nil, Bool-cases, if◌then◌else◌,
}
use esp_wifi_config.Common.Bytes.{Bytes, codes}
use esp_wifi_config.Network.Types.{Network, esp_ok, invalid_state}
use esp_wifi_config.Wifi.{WifiApi}
use esp_wifi_config.Improv.Core.{
  ImprovState, authorization_required, authorized, provisioning, provisioned, ImprovError,
  error_none, unable_to_connect, Transport, Effect, notify, respond, Improv, same_state,
  improv_set_state, improv_set_error, send_rpc_result, append_tlv_string,
}
use esp_wifi_config.Improv.Settings.{
  parse_settings, settings_network, save_and_connect, handle_send_wifi_settings, redirect_url,
  improv_on_got_ip, improv_on_disconnected,
}

same_state-eq : (s s' : ImprovState) → same_state s s' ≡ true → s ≡ s'
same_state-eq authorization_required authorization_required e = refl
same_state-eq authorized authorized e = refl
same_state-eq provisioning provisioning e = refl
same_state-eq provisioned provisioned e = refl
same_state-eq authorization_required authorized e = absurd (ground arith)
same_state-eq authorization_required provisioning e = absurd (ground arith)
same_state-eq authorization_required provisioned e = absurd (ground arith)
same_state-eq authorized authorization_required e = absurd (ground arith)
same_state-eq authorized provisioning e = absurd (ground arith)
same_state-eq authorized provisioned e = absurd (ground arith)
same_state-eq provisioning authorization_required e = absurd (ground arith)
same_state-eq provisioning authorized e = absurd (ground arith)
same_state-eq provisioning provisioned e = absurd (ground arith)
same_state-eq provisioned authorization_required e = absurd (ground arith)
same_state-eq provisioned authorized e = absurd (ground arith)
same_state-eq provisioned provisioning e = absurd (ground arith)

module _ {W : Type 0} where
  -- The notifications of all the callbacks.
  abbrev pub notified : Improv W → ImprovState → ImprovError → List Effect
  notified m s e = map (λ t. notify t s e) m.state_cbs

  abbrev pub changes : Improv W → ImprovState → List Effect
  changes m s = if same_state m.state s then [] else notified m s m.error

  pub improv_set_state_lem :
      (s : ImprovState) (m : Improv W)
      → improv_set_state s m ≡ record m { state = s; effects = m.effects ++ changes m s }
  unfolding improv_set_state
  improv_set_state_lem s m = elim (Bool-cases (same_state m.state s)) [
    | inl same ↦
        rw (same, improv_set_state)
          (λ i. record m {
            state = same_state-eq m.state s same i;
            effects = sym (append-nil m.effects) i;
          })
    | inr differs ↦ rw (differs, improv_set_state) refl
  ]

pub append_tlv_string_fits :
    (size : ℕ) (str : Bytes)
    → length str + 1 ≤ size
    → length str < 256
    → append_tlv_string size str [] ≡ length str ∷ str
unfolding append_tlv_string
append_tlv_string_fits size str room short = ground arith

pub send_rpc_result_fits :
    {W : Type 0} (cmd : ℕ) (payload : Bytes) (t : Transport) (m : Improv W)
    → length payload ≤ 255
    → send_rpc_result cmd payload t m
      ≡ record m { effects = m.effects ++ respond t (cmd ∷ length payload ∷ payload) ∷ [] }
unfolding send_rpc_result
send_rpc_result_fits cmd payload t m short = ground arith

module _ {W : Type 0} (api : WifiApi W) where
  open api use {
    status_ip, add_network, update_network, saved, saved-add_network, saved-update_network,
    saved-connect,
  }

  abbrev pub url_field : W → Bytes
  url_field w = length (redirect_url api w) ∷ redirect_url api w

  save_and_connect-saved :
      (n : Network) (w : W)
      → ((add_network n w).0 ≡ esp_ok) ⊎ ((add_network n w).0 ≡ invalid_state)
      → saved (save_and_connect api n w) n.ssid ≡ some n
  unfolding save_and_connect
  save_and_connect-saved n w (inl added) =
      saved-connect n.ssid n.ssid _ ∙ rw added (saved-add_network n w added)
  save_and_connect-saved n w (inr known) =
      saved-connect n.ssid n.ssid _ ∙ rw known (saved-update_network n w known)

  -- The settings of a well-formed message are saved, whether the SSID was known or not, unless the
  -- manager refuses them for another reason; the device is then provisioning, without an error,
  -- and owes the answer to the transport that asked.
  pub handle_send_wifi_settings-saved :
      (payload : Bytes) {ssid password : Bytes} (t : Transport) (m : Improv W)
      → parse_settings payload ≡ some (ssid, password)
      → ((add_network (settings_network ssid password) m.wifi).0 ≡ esp_ok)
        ⊎ ((add_network (settings_network ssid password) m.wifi).0 ≡ invalid_state)
      → let m1 = handle_send_wifi_settings api payload t m in
        let n = settings_network ssid password in
        (m1.state ≡ provisioning)
        × (m1.error ≡ error_none)
        × (m1.pending ≡ some t)
        × (saved m1.wifi n.ssid ≡ some n)
  unfolding handle_send_wifi_settings improv_set_error
  handle_send_wifi_settings-saved payload {ssid} {password} t m parsed accepted =
      rw (parsed, handle_send_wifi_settings)
        (rw (improv_set_state_lem provisioning (improv_set_error error_none m)) (
          refl,
          refl,
          refl,
          save_and_connect-saved (settings_network ssid password) m.wifi accepted,
        ))

  url_response : (w : W) → append_tlv_string 128 (redirect_url api w) [] ≡ url_field w
  url_response w =
      append_tlv_string_fits 128 (redirect_url api w)
        (omega (arith, length-take 63 (codes "http://" ++ status_ip w)))
        (omega (arith, length-take 63 (codes "http://" ++ status_ip w)))

  got_ip_lem :
      (t : Transport) (m : Improv W)
      → improv_on_got_ip api (record m { state = provisioning; pending = some t }) ≡ record m {
        state = provisioned;
        pending = none;
        effects =
            (m.effects ++ notified m provisioned m.error)
            ++ respond t (1 ∷ length (url_field m.wifi) ∷ url_field m.wifi) ∷ [];
      }
  unfolding improv_on_got_ip improv_set_state
  got_ip_lem t m =
      rw
        (
          url_response m.wifi,
          send_rpc_result_fits 1 (url_field m.wifi) t
              (record m {
                state = provisioned;
                pending = some t;
                effects = m.effects ++ notified m provisioned m.error;
              })
              (omega (arith, length-take 63 (codes "http://" ++ status_ip m.wifi))),
        )
        refl

  -- A device that owes an answer gives it when it gets an address, once: it is provisioned, it tells
  -- the state callbacks, and then it sends to the transport that asked a result with the URL of the
  -- address. A second address changes nothing.
  pub improv_on_got_ip-answers :
      (t : Transport) (m : Improv W)
      → m.state ≡ provisioning
      → m.pending ≡ some t
      → let m1 = improv_on_got_ip api m in
        (m1.state ≡ provisioned)
        × (m1.pending ≡ none)
        × (m1.effects
            ≡ m.effects
              ++ notified m provisioned m.error
              ++ respond t (1 ∷ length (url_field m.wifi) ∷ url_field m.wifi) ∷ [])
        × (improv_on_got_ip api m1 ≡ m1)
  unfolding improv_on_got_ip
  improv_on_got_ip-answers t m busy owed =
      let at_work : m ≡ record m { state = provisioning; pending = some t } =
        λ i. record m { state = busy i; pending = owed i } in
      let done = ap (improv_on_got_ip api) at_work ∙ got_ip_lem t m in
      rw done (refl, refl, refl, refl)

  -- A device that is provisioning and loses the connection reports the error and is authorized
  -- again; the answer is no longer owed, and an address that comes later sends none.
  pub improv_on_disconnected-reports :
      (m : Improv W)
      → m.state ≡ provisioning
      → let m1 = improv_on_disconnected api m in
        (m1.state ≡ authorized)
        × (m1.error ≡ unable_to_connect)
        × (m1.pending ≡ none)
        × (m1.effects
            ≡ m.effects
              ++ notified m provisioning unable_to_connect
              ++ notified m authorized unable_to_connect)
        × (improv_on_got_ip api m1 ≡ m1)
  unfolding improv_on_got_ip improv_on_disconnected improv_set_state improv_set_error
  improv_on_disconnected-reports m busy =
      let at_work : m ≡ record m { state = provisioning } = λ i. record m { state = busy i } in
      rw (ap (improv_on_disconnected api) at_work) (refl, refl, refl, refl, refl)
