-- ===== src/Tests/Sessions.antt =====
-- Sessions of the provisioning manager on concrete inputs.
use esp_wifi_config.Common.{◌≡◌, refl, List, [], ◌∷◌, ◌++◌, none, Bool, true, false, arith}
use esp_wifi_config.Common.Bytes.{codes}
use esp_wifi_config.Network.Types.{Network, esp_ok}
use esp_wifi_config.Network.Store.{Store}
use esp_wifi_config.Network.Store.Map.{view}
use esp_wifi_config.Network.Store.Upsert.{upserted}
use esp_wifi_config.ProvBle.{
  ProvConfig, Prov, StartRun, Happening, received, failed, succeeded, begun, ended, disconnected,
  start, stop, restart_message, candidate, run,
}
use esp_wifi_config.ProvBle.Candidate.{
  run-confirmed_saved, run-unconfirmed_discarded, run-failed_reboots,
}
use esp_wifi_config.ProvBle.Forgotten.{run-failed_forgotten}
use esp_wifi_config.ProvBle.Stopping.{run-stop_final, run-stop_lost}
use esp_wifi_config.Tests.Flash.{Memory, blank, memory}

-- The defaults: the device restarts behind a success.
abbrev cfg : ProvConfig
cfg = record {
  disable_reboot_on_provisioning_success = false;
  disable_disconnect_restart = false;
  reset_on_failure = true;
  stop_after_success = false;
  max_failed_attempts = 3;
  reboot_max_wait_ms = 15000;
  on_credentials_received = false;
  on_credentials_failed = true;
  on_credentials_success = false;
}

-- A session that is up, with no network saved; `queued` is whether its restart is queued.
abbrev session : Bool → Prov (Memory Network)
session queued = record {
  initialized = true;
  active = true;
  failed_attempts = 0;
  coex_pref_set = true;
  pending_network = none;
  creds_received = false;
  restart_pending = queued;
  explicit_stop = false;
  event_handler_registered = true;
  disconnect_handler_registered = true;
  restart_count = 0;
  reboot_timer = true;
  restart_messages = 0;
  restarted = false;
  store = record { networks = []; flash = blank; posted = [] };
  calls = [];
}

abbrev smooth : StartRun
smooth = record {
  init_result = esp_ok;
  coex_set = true;
  start_result = esp_ok;
  handler_registered = true;
}

abbrev events : List (Happening cfg (memory Network))
events = succeeded ∷ disconnected ∷ ended ∷ restart_message smooth ∷ []

run-failed_forgotten_example :
    let s' = run cfg (memory Network) (failed 0 ∷ events) (session false) in
    (s'.store.networks ≡ []) × (s'.store.flash ≡ blank)
run-failed_forgotten_example =
    run-failed_forgotten cfg (memory Network) 0 events (session false) refl (ground arith)

abbrev again : List (Happening cfg (memory Network))
again = stop ∷ start smooth ∷ []

abbrev sent : List (Happening cfg (memory Network)) → Store (Memory Network)
sent es =
    (run cfg (memory Network) (received (codes "home") (codes "secret12") ∷ es)
      (session false)).store

run-confirmed_saved_example :
    view (sent (again ++ succeeded ∷ []))
    ≡ (upserted
        (candidate cfg (memory Network) (codes "home") (codes "secret12"))
        (view (session false).store)).1
run-confirmed_saved_example =
    run-confirmed_saved cfg (memory Network) (codes "home") (codes "secret12") again (session false)
      refl refl (refl, (refl, tt))

-- The stop and the start lead to the begin of a session: the confirmation comes for nothing.
run-unconfirmed_discarded_example :
    ((sent (again ++ begun ∷ succeeded ∷ [])).networks ≡ [])
    × ((sent (again ++ begun ∷ succeeded ∷ [])).flash ≡ blank)
run-unconfirmed_discarded_example =
    run-unconfirmed_discarded cfg (memory Network) (codes "home") (codes "secret12") again
      (succeeded ∷ []) begun (session false) refl refl (refl, (refl, tt)) refl (refl, tt)

run-failed_reboots_example :
    let s' =
      run cfg
        (memory Network)
        (received (codes "home") (codes "wrong") ∷ failed 0 ∷ disconnected ∷ [])
        (session false) in
    (s'.restarted ≡ true) × (s'.store.networks ≡ [])
run-failed_reboots_example =
    run-failed_reboots cfg (memory Network) (codes "home") (codes "wrong") 0 (session false) refl
      refl refl refl refl

abbrev later : List (Happening cfg (memory Network))
later = disconnected ∷ ended ∷ restart_message smooth ∷ begun ∷ []

run-stop_final_example :
    let s' = run cfg (memory Network) (stop ∷ later) (session true) in
    (s'.restart_messages ≡ 0) × (s'.restart_pending ≡ false)
run-stop_final_example =
    run-stop_final cfg (memory Network) later (session true) refl refl refl (ground arith)

run-stop_lost_example :
    (run cfg (memory Network) (ended ∷ stop ∷ restart_message smooth ∷ []) (session true)).active
    ≡ true
run-stop_lost_example =
    run-stop_lost cfg (memory Network) smooth (session true) refl refl refl refl refl
