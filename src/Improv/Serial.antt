-- ===== src/Improv/Serial.antt =====
-- The framing of src/esp_wifi_config_improv_serial.c: `serial_send_packet` and the parser of
-- `serial_rx_task`.
pub mod Frames
pub mod Corruption
use esp_wifi_config.Common.{
  ℕ, zero, suc, ◌+◌, ◌%◌, List, [], ◌∷◌, ◌++◌, Option, none, some, Bool, true, false, length,
  get_elem?, ltb, leb, ◌==◌, if◌then◌else◌,
}
use esp_wifi_config.Common.Bytes.{Bytes, codes}

-- `improv_checksum` from a first sum on
unfoldable pub checksum_from : ℕ → Bytes → ℕ
checksum_from sum [] = sum
checksum_from sum (b ∷ payload) = checksum_from ((sum + b) % 256) payload

abbrev pub improv_checksum : Bytes → ℕ
improv_checksum payload = checksum_from 0 payload

-- IMPROV_SERIAL_HEADER
abbrev pub serial_header : Bytes
serial_header = codes "IMPROV"

-- The bytes before the checksum.
abbrev pub frame_body : ℕ → Bytes → Bytes
frame_body pkt_type payload = serial_header ++ 1 ∷ pkt_type ∷ length payload ∷ payload

-- What is written to the UART: nothing if the transport does not run or the length is no byte.
unfoldable pub serial_send_packet : Bool → ℕ → Bytes → Bytes
unfolding checksum_from
serial_send_packet running pkt_type payload =
    if running
    then if ltb 255 (length payload)
      then []
      else frame_body pkt_type payload ++ improv_checksum (frame_body pkt_type payload) ∷ []
    else []

-- `rx_parse_state_t`
pub data RxState : Type 0 where
  rx_header rx_version rx_type rx_length rx_data rx_checksum : RxState

-- The locals of the task; `rx_buf` holds the first `data_idx` bytes of the buffer.
pub record Rx : Type 0 where
  pub parse_state : RxState
  pub header_idx : ℕ
  pub pkt_type : ℕ
  pub pkt_len : ℕ
  pub rx_buf : Bytes
  pub checksum : ℕ

-- What a valid packet asks for: `none` is a type that is ignored.
pub data Request : Type 0 where
  rpc_command : Bytes → Request
  current_state : Request

abbrev pub request_of : ℕ → Bytes → Option Request
request_of pkt_type payload =
    if pkt_type == 3
    then some (rpc_command payload)
    else if pkt_type == 1
    then some current_state
    else none

abbrev pub matches_header : ℕ → ℕ → Bool
matches_header i byte = elim (get_elem? serial_header i) [ some h ↦ byte == h | none ↦ false ]

-- One round of the loop, for one byte that was read.
unfoldable pub rx_byte : ℕ → Rx → Rx × Option Request
unfolding checksum_from
rx_byte byte rx = elim rx.parse_state [
  | rx_header ↦ (
    if matches_header rx.header_idx byte
        then if rx.header_idx + 1 == 6
          then record rx {
            parse_state = rx_version;
            header_idx = 0;
            checksum = improv_checksum serial_header;
          }
          else record rx { header_idx = rx.header_idx + 1 }
        else record rx { header_idx = 0 },
    none,
  )
  | rx_version ↦ (
    record rx {
      parse_state = if byte == 1 then rx_type else rx_header;
      checksum = (rx.checksum + byte) % 256;
    },
    none,
  )
  | rx_type ↦ (
    record rx { parse_state = rx_length; pkt_type = byte; checksum = (rx.checksum + byte) % 256 },
    none,
  )
  | rx_length ↦ (
    record rx {
      parse_state = if byte == 0 then rx_checksum else rx_data;
      pkt_len = byte;
      rx_buf = [];
      checksum = (rx.checksum + byte) % 256;
    },
    none,
  )
  | rx_data ↦ (
    record rx {
      parse_state = if leb rx.pkt_len (length rx.rx_buf + 1) then rx_checksum else rx_data;
      rx_buf = rx.rx_buf ++ byte ∷ [];
      checksum = (rx.checksum + byte) % 256;
    },
    none,
  )
  | rx_checksum ↦ (
    record rx { parse_state = rx_header },
    if byte == rx.checksum then request_of rx.pkt_type rx.rx_buf else none,
  )
]

abbrev pub and_then : Option Request → List Request → List Request
and_then none rs = rs
and_then (some r) rs = r ∷ rs

-- The bytes of a stream, and the requests that are served in turn.
unfoldable pub rx_run : Bytes → Rx → Rx × List Request
unfolding rx_byte
rx_run [] rx = (rx, [])
rx_run (b ∷ bs) rx =
    let (rx1, r) = rx_byte b rx in let (rx2, rs) = rx_run bs rx1 in (rx2, and_then r rs)

-- The state that the task begins with.
abbrev pub rx_start : Rx
rx_start = record {
  parse_state = rx_header;
  header_idx = 0;
  pkt_type = 0;
  pkt_len = 0;
  rx_buf = [];
  checksum = 0;
}
