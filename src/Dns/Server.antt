-- ===== src/Dns/Server.antt =====
-- The responder of src/esp_wifi_config_dns.c around the answer: what the task does with a datagram,
-- and the start and stop. The socket and the task are the platform's.
use esp_wifi_config.Common.{
  ℕ, ◌≡◌, ◌++◌, Option, not, arith, none, some, Bool, true, false, length, drop, ltb, ◌==◌,
  if◌then◌else◌,
}
use esp_wifi_config.Common.Bytes.{Bytes}
use esp_wifi_config.Network.Types.{EspErr, esp_ok, esp_fail}
use esp_wifi_config.Dns.{header_size, Response, build_response}
use esp_wifi_config.Dns.Name.{dns_parse_name}

-- What a round of the task comes to; `read_behind` is a read behind the buffer for the name.
pub data Round : Type 0 where
  silent read_behind : Round
  answered : Response → Round

abbrev pub answer_named : Option Bytes → ℕ → Bytes → Bytes → Round
answer_named none ap_ip tx q = read_behind
answer_named (some domain) ap_ip tx q =
    if ap_ip == 0 then silent else answered (build_response tx q ap_ip)

-- A round of the task: the buffers as the round before left them, the datagram (none for an error or
-- the timeout) and the address of the access point, 0 where there is none.
unfoldable pub serve_datagram : Bytes → Bytes → Option Bytes → ℕ → Round
serve_datagram rx tx none ap_ip = silent
serve_datagram rx tx (some q) ap_ip =
    if ltb (length q) header_size
    then silent
    else answer_named (dns_parse_name (q ++ drop (length q) rx) header_size 64) ap_ip tx q

pub record DnsServer : Type 0 where
  pub dns_running : Bool
  pub dns_sock : Bool

-- What comes of the calls of a start.
pub record DnsStart : Type 0 where
  pub socket_opened : Bool
  pub socket_bound : Bool
  pub task_created : Bool

unfoldable pub wifi_cfg_dns_start : DnsStart → DnsServer → EspErr × DnsServer
wifi_cfg_dns_start go s =
    if s.dns_running
    then (esp_ok, s)
    else if not go.socket_opened
    then (esp_fail, record s { dns_sock = false })
    else if not go.socket_bound
    then (esp_fail, record s { dns_sock = false })
    else if not go.task_created
    then (esp_fail, record { dns_running = false; dns_sock = false })
    else (esp_ok, record { dns_running = true; dns_sock = true })

unfoldable pub wifi_cfg_dns_stop : DnsServer → EspErr × DnsServer
wifi_cfg_dns_stop s =
    if not s.dns_running
    then (esp_ok, s)
    else (esp_ok, record { dns_running = false; dns_sock = false })

-- The socket is open exactly while the responder runs, whatever fails on the way.
pub dns_start_sock :
    (go : DnsStart) (s : DnsServer)
    → s.dns_running ≡ s.dns_sock
    → (wifi_cfg_dns_start go s).1.dns_running ≡ (wifi_cfg_dns_start go s).1.dns_sock
unfolding wifi_cfg_dns_start
dns_start_sock go s h = grind arith

pub dns_stop_sock :
    (s : DnsServer)
    → s.dns_running ≡ s.dns_sock
    → (wifi_cfg_dns_stop s).1.dns_running ≡ (wifi_cfg_dns_stop s).1.dns_sock
unfolding wifi_cfg_dns_stop
dns_stop_sock s h = grind arith
