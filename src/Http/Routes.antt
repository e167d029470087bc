-- ===== src/Http/Routes.antt =====
-- The table of routes of src/esp_wifi_config_http.c: all of them but the OPTIONS catch-all,
-- whose answer has no document and changes nothing.
pub mod Guard
use esp_wifi_config.Http.Request.{Request}
use esp_wifi_config.Http.Handlers.{Surroundings, Site, Served}
use esp_wifi_config.Http.Handlers.Networks.{
  handler_post_networks, handler_delete_network, handler_put_network,
}
use esp_wifi_config.Http.Handlers.Device.{
  handler_put_var, handler_delete_var, handler_post_connect, handler_post_disconnect,
  handler_put_ap_config, handler_post_ap_start, handler_post_ap_stop,
}
use esp_wifi_config.Http.Handlers.Reads.{
  handler_get_status, handler_get_scan, handler_get_networks, handler_get_ap_status,
  handler_get_ap_config, handler_get_vars, handler_post_factory_reset,
}

pub data Route : Type 0 where
  post_networks put_network delete_network put_var delete_var : Route
  post_connect post_disconnect put_ap_config post_ap_start post_ap_stop : Route
  get_status get_scan get_networks get_ap_status get_ap_config get_vars post_factory_reset : Route

module _ (around : Surroundings) where
  open around use {network_flash, var_flash}

  abbrev pub Here : Type 0
  Here = Site network_flash.Flash var_flash.Flash

  unfoldable pub serve : Route → Request → Here → Served network_flash.Flash var_flash.Flash
  serve post_networks = handler_post_networks around
  serve put_network = handler_put_network around
  serve delete_network = handler_delete_network around
  serve put_var = handler_put_var around
  serve delete_var = handler_delete_var around
  serve post_connect = handler_post_connect around
  serve post_disconnect = handler_post_disconnect around
  serve put_ap_config = handler_put_ap_config around
  serve post_ap_start = handler_post_ap_start around
  serve post_ap_stop = handler_post_ap_stop around
  serve get_status = handler_get_status around
  serve get_scan = handler_get_scan around
  serve get_networks = handler_get_networks around
  serve get_ap_status = handler_get_ap_status around
  serve get_ap_config = handler_get_ap_config around
  serve get_vars = handler_get_vars around
  serve post_factory_reset = handler_post_factory_reset around
