-- ===== src/Network/Store.antt =====
-- The saved networks of src/esp_wifi_config_network.c: add, update, remove, get, list. A call made
-- before initialisation (`g_wifi_cfg == NULL`) or with a null argument is `none`.
pub mod Map
pub mod Valid
pub mod Persist
pub mod Upsert
use esp_wifi_config.Common.{
  ℕ, ◌+◌, List, [], ◌∷◌, ◌++◌, Option, none, some, Bool, length, take, leb, if◌then◌else◌,
}
use esp_wifi_config.Common.Bytes.{Bytes}
use esp_wifi_config.Event.{Event, network_added, network_updated, network_removed}
use esp_wifi_config.Network.Types.{
  Network, EspErr, esp_ok, invalid_arg, invalid_state, no_mem, not_found, max_networks,
}
use esp_wifi_config.Nvs.Driver.{NvsDriver}
use esp_wifi_config.Nvs.{wifi_cfg_nvs_save_networks}
use esp_wifi_config.Table.{find, replace, remove}

-- The part of the context that these calls work on: the first `network_count` entries of the
-- array, the flash, and the events handed to the event loop, the latest last.
pub record Store (F : Type 0) : Type 0 where
  pub networks : List Network
  pub flash : F
  pub posted : List Event

abbrev pub ssid_of : Network → Bytes
ssid_of n = n.ssid

module _ (drv : NvsDriver Network) where
  open drv use {Flash}

  -- The new array is saved, whatever comes of that, and the event is posted.
  pub commit_networks : Event → List Network → Store Flash → Store Flash
  commit_networks e ns s = record s {
    networks = ns;
    flash = (wifi_cfg_nvs_save_networks drv ns s.flash).1;
    posted = s.posted ++ e ∷ [];
  }

  add_new : Network → Store Flash → EspErr × Store Flash
  add_new n s =
      if leb max_networks (length s.networks)
      then (no_mem, s)
      else (esp_ok, commit_networks (network_added n) (s.networks ++ n ∷ []) s)

  unfoldable pub add_network : Network → Store Flash → EspErr × Store Flash
  unfolding add_new commit_networks
  add_network n s = elim (find ssid_of n.ssid s.networks) [
    | some _ ↦ (invalid_state, s)
    | none ↦ add_new n s
  ]

  unfoldable pub update_network : Network → Store Flash → EspErr × Store Flash
  unfolding commit_networks
  update_network n s = elim (replace ssid_of n.ssid (λ _. n) s.networks) [
    | some ns ↦ (esp_ok, commit_networks (network_updated n) ns s)
    | none ↦ (not_found, s)
  ]

  unfoldable pub remove_network : Bytes → Store Flash → EspErr × Store Flash
  unfolding commit_networks
  remove_network ssid s = elim (remove ssid_of ssid s.networks) [
    | some ns ↦ (esp_ok, commit_networks (network_removed ssid) ns s)
    | none ↦ (not_found, s)
  ]

  -- The guard that the calls which change the networks begin with.
  abbrev pub guarded :
      {A : Type 0}
      → (A → Store Flash → EspErr × Store Flash)
      → Option (Store Flash)
      → Option A
      → EspErr × Option (Store Flash)
  guarded f none a = (invalid_arg, none)
  guarded f (some s) none = (invalid_arg, some s)
  guarded f (some s) (some a) = let (r, s') = f a s in (r, some s')

  unfoldable pub wifi_cfg_add_network :
      Option (Store Flash) → Option Network → EspErr × Option (Store Flash)
  unfolding add_network
  wifi_cfg_add_network = guarded add_network

  unfoldable pub wifi_cfg_update_network :
      Option (Store Flash) → Option Network → EspErr × Option (Store Flash)
  unfolding update_network
  wifi_cfg_update_network = guarded update_network

  unfoldable pub wifi_cfg_remove_network :
      Option (Store Flash) → Option Bytes → EspErr × Option (Store Flash)
  unfolding remove_network
  wifi_cfg_remove_network = guarded remove_network

  -- The network that is copied out, if any.
  unfoldable pub wifi_cfg_get_network :
      Option (Store Flash) → Option Bytes → EspErr × Option Network
  wifi_cfg_get_network none ssid = (invalid_arg, none)
  wifi_cfg_get_network (some s) none = (invalid_arg, none)
  wifi_cfg_get_network (some s) (some ssid) = elim (find ssid_of ssid s.networks) [
    | some n ↦ (esp_ok, some n)
    | none ↦ (not_found, none)
  ]

  -- The networks that are copied out; their number is the count.
  unfoldable pub wifi_cfg_list_networks : Option (Store Flash) → ℕ → EspErr × List Network
  wifi_cfg_list_networks none max_count = (invalid_arg, [])
  wifi_cfg_list_networks (some s) max_count = (esp_ok, take max_count s.networks)
