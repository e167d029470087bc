-- ===== src/Vars.antt =====
-- The custom variables of src/esp_wifi_config_ap.c: set, get and delete. The validator is the
-- application's callback, a parameter.
pub mod Valid
pub mod Map
pub mod Long
use esp_wifi_config.Common.{
  ℕ, ◌-◌, List, [], ◌∷◌, ◌++◌, Option, none, some, Bool, true, false, length, take, leb, ◌==◌,
  if◌then◌else◌,
}
use esp_wifi_config.Common.Bytes.{Bytes}
use esp_wifi_config.Event.{Event, var_changed}
use esp_wifi_config.Network.Types.{EspErr, esp_ok, invalid_arg, no_mem, not_found}
use esp_wifi_config.Nvs.Driver.{NvsDriver}
use esp_wifi_config.Nvs.{wifi_cfg_nvs_save_vars}
use esp_wifi_config.Table.{find, replace, remove}

-- `wifi_var_t`
pub record Var : Type 0 where
  pub key : Bytes  -- char[32]
  pub value : Bytes  -- char[128]

-- WIFI_CFG_MAX_VARS, at the value that a build without Kconfig uses.
abbrev pub max_vars : ℕ
max_vars = 10

abbrev pub key_of : Var → Bytes
key_of v = v.key

-- `strncpy` into the arrays of a variable that keep their last byte: the text is cut to fit.
abbrev pub key_field : Bytes → Bytes
key_field key = take 31 key

abbrev pub value_field : Bytes → Bytes
value_field value = take 127 value

-- `on_before_var_set`, if one is configured, is asked first.
abbrev pub accepted : Option (Bytes → Bytes → Bool) → Bytes → Bytes → Bool
accepted none key value = true
accepted (some accepts) key value = accepts key value

pub record VarStore (F : Type 0) : Type 0 where
  pub vars : List Var
  pub flash : F
  pub posted : List Event

module _ (drv : NvsDriver Var) where
  open drv use {Flash}

  commit_vars : Event → List Var → VarStore Flash → VarStore Flash
  commit_vars e vs s = record s {
    vars = vs;
    flash = (wifi_cfg_nvs_save_vars drv vs s.flash).1;
    posted = s.posted ++ e ∷ [];
  }

  add_var : Bytes → Bytes → VarStore Flash → EspErr × VarStore Flash
  unfolding commit_vars
  add_var key value s = if leb max_vars (length s.vars) then (no_mem, s) else (
    esp_ok,
    commit_vars (var_changed (key_field key) (value_field value))
        (s.vars ++ record { key = key_field key; value = value_field value } ∷ []) s,
  )

  -- The key that is searched for is the whole one.
  unfoldable pub store_var : Bytes → Bytes → VarStore Flash → EspErr × VarStore Flash
  unfolding add_var commit_vars
  store_var key value s =
      elim (replace key_of key (λ v. record v { value = value_field value }) s.vars) [
        | some vs ↦ (esp_ok, commit_vars (var_changed (key_field key) (value_field value)) vs s)
        | none ↦ add_var key value s
      ]

  unfoldable pub set_var :
      Option (Bytes → Bytes → Bool) → Bytes → Bytes → VarStore Flash → EspErr × VarStore Flash
  unfolding store_var
  set_var validator key value s =
      if accepted validator key value then store_var key value s else (invalid_arg, s)

  unfoldable pub del_var : Bytes → VarStore Flash → EspErr × VarStore Flash
  unfolding commit_vars
  del_var key s = elim (remove key_of key s.vars) [
    | some vs ↦ (esp_ok, commit_vars (var_changed (key_field key) []) vs s)
    | none ↦ (not_found, s)
  ]

  -- The text that is copied out. With `max_len` 0 the terminator is written before the buffer: `none`.
  unfoldable pub get_var : Bytes → ℕ → VarStore Flash → Option (EspErr × Option Bytes)
  get_var key max_len s = elim (find key_of key s.vars) [
    | some v ↦ if max_len == 0 then none else some (esp_ok, some (take (max_len - 1) v.value))
    | none ↦ some (not_found, none)
  ]
