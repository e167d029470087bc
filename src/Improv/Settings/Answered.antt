-- ===== src/Improv/Settings/Answered.antt =====
-- What is sent from the settings on, whatever becomes of the connection.
use esp_wifi_config.Common.{◌+◌, List, [], ◌∷◌, ◌++◌, length}
use esp_wifi_config.Common.Bytes.{Bytes, codes}
use esp_wifi_config.Wifi.{WifiApi}
use esp_wifi_config.Improv.Core.{Transport, Effect, notify, respond, identify, Improv}
use esp_wifi_config.Improv.Settings.{improv_on_got_ip, improv_on_disconnected}

-- The RPC results among the effects.
abbrev pub responses : List Effect → List (Transport × Bytes)
responses [] = []
responses (respond t b ∷ es) = (t, b) ∷ responses es
responses (notify t s e ∷ es) = responses es
responses (identify ∷ es) = responses es

-- What the manager reports of the connection.
pub data LinkEvent : Type 0 where
  got_ip lost : LinkEvent

-- The answer to the settings: the URL of the address if the first report is one of an address, and
-- none otherwise.
abbrev pub answers : Transport → Bytes → List LinkEvent → List (Transport × Bytes)
answers t ip [] = []
answers t ip (lost ∷ later) = []
answers t ip (got_ip ∷ later) =
    (t, 1 ∷ (length ip + 8) ∷ (length ip + 7) ∷ (codes "http://" ++ ip)) ∷ []

module _ {W : Type 0} (api : WifiApi W) where
  open api use {status_ip}

  abbrev pub link_event : LinkEvent → Improv W → Improv W
  link_event got_ip m = improv_on_got_ip api m
  link_event lost m = improv_on_disconnected api m

  abbrev pub run_link : List LinkEvent → Improv W → Improv W
  run_link [] m = m
  run_link (e ∷ es) m = run_link es (link_event e m)
