-- ===== src/Improv.antt =====
-- The Improv provisioning protocol: its serial transport and its core.
pub mod Serial
pub mod Ble
pub mod Core
pub mod Settings
pub mod Networks
pub mod Rpc
