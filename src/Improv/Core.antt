-- ===== src/Improv/Core.antt =====
-- The state of src/esp_wifi_config_improv.c, its notifications and responses.
use esp_wifi_config.Common.{
  ℕ, ◌+◌, ◌%◌, List, [], ◌∷◌, ◌++◌, map, Option, Bool, true, false, length, ltb, if◌then◌else◌,
}
use esp_wifi_config.Common.Bytes.{Bytes}

-- `improv_state_t`
pub data ImprovState : Type 0 where
  authorization_required authorized provisioning provisioned : ImprovState

-- `improv_error_t`
pub data ImprovError : Type 0 where
  error_none invalid_rpc unknown_rpc unable_to_connect not_authorized error_unknown : ImprovError

-- Whom a callback belongs to: each transport registers one for the state and passes one for the
-- responses.
pub data Transport : Type 0 where
  serial ble : Transport

-- What the core calls: a state callback, a response callback with an RPC result, `on_identify`.
pub data Effect : Type 0 where
  notify : Transport → ImprovState → ImprovError → Effect
  respond : Transport → Bytes → Effect
  identify : Effect

-- The static variables, the manager that is called, and the calls made, the latest last.
-- `pending` is `s_pending_wifi_cb`.
pub record Improv (W : Type 0) : Type 0 where
  pub state : ImprovState
  pub error : ImprovError
  pub state_cbs : List Transport
  pub pending : Option Transport
  pub wifi : W
  pub effects : List Effect

abbrev pub same_state : ImprovState → ImprovState → Bool
same_state authorization_required authorization_required = true
same_state authorized authorized = true
same_state provisioning provisioning = true
same_state provisioned provisioned = true
same_state _ _ = false

module _ {W : Type 0} where
  abbrev pub notify_all : Improv W → Improv W
  notify_all m = record m { effects = m.effects ++ map (λ t. notify t m.state m.error) m.state_cbs }

  unfoldable pub improv_set_state : ImprovState → Improv W → Improv W
  improv_set_state s m = if same_state m.state s then m else notify_all (record m { state = s })

  unfoldable pub improv_set_error : ImprovError → Improv W → Improv W
  improv_set_error e m = notify_all (record m { error = e })

  -- MAX_STATE_CBS is 2.
  unfoldable pub improv_register_state_cb : Transport → Improv W → Improv W
  improv_register_state_cb t m =
      if ltb (length m.state_cbs) 2 then record m { state_cbs = m.state_cbs ++ t ∷ [] } else m

  -- A payload that the length byte cannot describe is dropped.
  unfoldable pub send_rpc_result : ℕ → Bytes → Transport → Improv W → Improv W
  send_rpc_result cmd payload t m =
      if ltb 257 (2 + length payload)
      then m
      else record m { effects = m.effects ++ respond t (cmd ∷ length payload ∷ payload) ∷ [] }

-- A string with its length before it is appended to a buffer of the size given, or nothing is.
unfoldable pub append_tlv_string : ℕ → Bytes → Bytes → Bytes
append_tlv_string size str buf =
    if ltb size (length buf + 1 + length str) then buf else buf ++ length str % 256 ∷ str
