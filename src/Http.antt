-- ===== src/Http.antt =====
-- The HTTP front end, src/esp_wifi_config_http.c.
pub mod Body
pub mod Request
pub mod Access
pub mod Handlers
pub mod Routes
pub mod Documents
