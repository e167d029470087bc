-- ===== src/Network.antt =====
-- src/esp_wifi_config_network.c: saved networks, their order, the backoff delay, scan results.
-- The constants and the record stand in `Types`; each operation has a module of its own.
pub mod Types
pub mod Backoff
pub mod Sort
pub mod Store
pub mod Connect
pub mod Scan
pub use Types.{
  Network, max_networks, EspErr, esp_ok, esp_fail, invalid_arg, invalid_state, no_mem, not_found,
  timeout,
}
