-- ===== src/Http/Routes/Guard.antt =====
-- A request that the access check refuses changes nothing and learns nothing, whatever its route.
use esp_wifi_config.Common.{◌≡◌, ◌≢◌, ◌⊎◌, refl, some, true, false, Bool-cases, inl, inr, All}
use esp_wifi_config.Common.Bytes.{codes}
use esp_wifi_config.Http.Request.{Request, Reply, send_error}
use esp_wifi_config.Http.Access.{hook_passes, check_auth, check_api_access}
use esp_wifi_config.Http.Access.Credentials.{Credentials, check_auth_iff}
use esp_wifi_config.Http.Handlers.{Surroundings, checked, reply_with}
use esp_wifi_config.Http.Handlers.Networks.{
  handler_post_networks, handler_delete_network, handler_put_network,
}
use esp_wifi_config.Http.Handlers.Device.{
  handler_put_var, handler_delete_var, handler_post_connect, handler_post_disconnect,
  handler_put_ap_config, handler_post_ap_start, handler_post_ap_stop,
}
use esp_wifi_config.Http.Handlers.Reads.{
  handler_get_status, handler_get_scan, handler_get_networks, handler_get_ap_status,
  handler_get_ap_config, handler_get_vars, handler_post_factory_reset,
}
use esp_wifi_config.Http.Routes.{
  Route, post_networks, put_network, delete_network, put_var, delete_var, post_connect,
  post_disconnect, put_ap_config, post_ap_start, post_ap_stop, get_status, get_scan, get_networks,
  get_ap_status, get_ap_config, get_vars, post_factory_reset, serve, Here,
}

module _ (around : Surroundings) where
  open around use {access, base64_decode}

  -- The reply of the access check is all that comes of a refused request.
  serve-refused :
      (route : Route) (req : Request) (site : Here around) (refusal : Reply)
      → checked around req ≡ some refusal
      → serve around route req site ≡ reply_with refusal site req.connection
  unfolding serve handler_post_networks handler_delete_network handler_put_network handler_put_var
      handler_delete_var handler_post_connect handler_post_disconnect handler_put_ap_config
      handler_post_ap_start handler_post_ap_stop handler_get_status handler_get_scan
      handler_get_networks handler_get_ap_status handler_get_ap_config handler_get_vars
      handler_post_factory_reset
  serve-refused post_networks req site refusal h = rw h
  serve-refused put_network req site refusal h = rw h
  serve-refused delete_network req site refusal h = rw h
  serve-refused put_var req site refusal h = rw h
  serve-refused delete_var req site refusal h = rw h
  serve-refused post_connect req site refusal h = rw h
  serve-refused post_disconnect req site refusal h = rw h
  serve-refused put_ap_config req site refusal h = rw h
  serve-refused post_ap_start req site refusal h = rw h
  serve-refused post_ap_stop req site refusal h = rw h
  serve-refused get_status req site refusal h = rw h
  serve-refused get_scan req site refusal h = rw h
  serve-refused get_networks req site refusal h = rw h
  serve-refused get_ap_status req site refusal h = rw h
  serve-refused get_ap_config req site refusal h = rw h
  serve-refused get_vars req site refusal h = rw h
  serve-refused post_factory_reset req site refusal h = rw h

  -- Without the check of the credentials passed, the check refuses.
  refusal_of :
      (req : Request)
      → check_auth access base64_decode req ≡ false
      → (refusal : Reply) × (checked around req ≡ some refusal)
        × ((refusal ≡ send_error 401 (codes "Unauthorized"))
            ⊎ (refusal ≡ send_error 403 (codes "Forbidden")))
  unfolding check_api_access
  refusal_of req fails =
      elim (Bool-cases (hook_passes access base64_decode access.pre_request_hook req)) [
        | inl passes ↦
            (send_error 401 (codes "Unauthorized"), rw (passes, fails, check_api_access), inl refl)
        | inr stopped ↦
            (send_error 403 (codes "Forbidden"), rw (stopped, check_api_access), inr refl)
      ]

  -- With authentication on, and no colon in the configured user name, a request without the
  -- credentials is answered with 401 or 403 on every route of the table but the OPTIONS catch-all:
  -- the factory reset, the scan and the documents included. It changes no store and makes no call,
  -- and the refusal is all that is sent.
  pub serve-unauthorized :
      (route : Route) (req : Request) (site : Here around)
      → access.enable_auth ≡ true
      → All (λ c. c ≢ b':') access.auth_username
      → ¬ Credentials access base64_decode req.authorization
      → let r = serve around route req site in
        (r.site ≡ site)
        × ((r.reply ≡ send_error 401 (codes "Unauthorized"))
            ⊎ (r.reply ≡ send_error 403 (codes "Forbidden")))
  serve-unauthorized route req site on plain none_given =
      elim (Bool-cases (check_auth access base64_decode req)) [
        | inl passes ↦
            absurd (none_given ((check_auth_iff access base64_decode plain req on).0 passes))
        | inr fails ↦
            let (refusal, refused, code) = refusal_of req fails in
            rw (serve-refused route req site refusal refused) (refl, code)
      ]
