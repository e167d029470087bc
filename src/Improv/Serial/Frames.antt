-- ===== src/Improv/Serial/Frames.antt =====
-- The parser on whole frames.
use esp_wifi_config.Common.{
  ℕ, suc, ◌+◌, ◌%◌, ◌≤◌, ◌≡◌, refl, sym, ap, ◌∙◌, List, [], ◌∷◌, ◌++◌, Option, none, some, true,
  false, length, leb, ◌==◌, if◌then◌else◌, arith, inl, inr, Bool-cases, ==_iff, append_assoc,
  le→leb, length-append,
}
use esp_wifi_config.Common.Bytes.{Bytes}
use esp_wifi_config.Improv.Serial.{
  checksum_from, improv_checksum, serial_header, frame_body, serial_send_packet, rx_header, rx_data,
  rx_checksum, Rx, Request, request_of, rx_byte, and_then, rx_run,
}

-- The parser stands before a frame; what the other variables hold does not matter.
pub record Idle (rx : Rx) : Type 0 where
  pub at_header : rx.parse_state ≡ rx_header
  pub at_first : rx.header_idx ≡ 0

and_then-append :
    (r : Option Request) (xs ys : List Request) → and_then r (xs ++ ys) ≡ and_then r xs ++ ys
and_then-append none xs ys = refl
and_then-append (some r) xs ys = refl

-- Two runs one after the other.
rx_run-append :
    (s t : Bytes) (rx : Rx)
    → rx_run (s ++ t) rx
      ≡ ((rx_run t (rx_run s rx).0).0, (rx_run s rx).1 ++ (rx_run t (rx_run s rx).0).1)
unfolding rx_run
rx_run-append [] t rx = refl
rx_run-append (b ∷ s) t rx = rw (rx_run-append s t (rx_byte b rx).0) (
    ap (λ (rs : List Request). ((rx_run t (rx_run s (rx_byte b rx).0).0).0, rs))
      (and_then-append (rx_byte b rx).1 _ _))

abbrev reading : ℕ → ℕ → Bytes → ℕ → Rx
reading pkt_type pkt_len buf sum = record {
  parse_state = rx_data;
  header_idx = 0;
  pkt_type = pkt_type;
  pkt_len = pkt_len;
  rx_buf = buf;
  checksum = sum;
}

-- The parser before the checksum byte, with the packet that it has read.
abbrev expecting : ℕ → ℕ → Bytes → ℕ → Rx
expecting pkt_type pkt_len buf sum = record {
  parse_state = rx_checksum;
  header_idx = 0;
  pkt_type = pkt_type;
  pkt_len = pkt_len;
  rx_buf = buf;
  checksum = sum;
}

more_to_read : (pkt_len n m : ℕ) → pkt_len ≡ n + suc (suc m) → leb pkt_len (n + 1) ≡ false
more_to_read pkt_len n m e = ground arith

-- The data field is read into the buffer.
rx_run-reading :
    (b : ℕ) (s buf : Bytes) (pkt_type pkt_len sum : ℕ)
    → pkt_len ≡ length buf + length (b ∷ s)
    → rx_run (b ∷ s) (reading pkt_type pkt_len buf sum)
      ≡ (expecting pkt_type pkt_len (buf ++ b ∷ s) (checksum_from sum (b ∷ s)), [])
unfolding rx_run rx_byte checksum_from
rx_run-reading b [] buf pkt_type pkt_len sum e =
    rw (le→leb pkt_len (length buf + 1) (omega arith)) refl
rx_run-reading b (b1 ∷ s) buf pkt_type pkt_len sum e =
    let again =
      rx_run-reading b1 s (buf ++ b ∷ []) pkt_type pkt_len ((sum + b) % 256)
        (omega (arith, length-append buf (b ∷ []))) in
    rw (more_to_read pkt_len (length buf) (length s) e)
      (again ∙ rw (append_assoc buf (b ∷ []) (b1 ∷ s)) refl)

Idle-eq : (rx : Rx) → Idle rx → rx ≡ record rx { parse_state = rx_header; header_idx = 0 }
Idle-eq rx idle = λ i. record rx { parse_state = idle.at_header i; header_idx = idle.at_first i }

-- The header, the version, the type and the length.
rx_run-head :
    (rx : Rx) (pkt_type pkt_len : ℕ)
    → rx_run
        (serial_header ++ 1 ∷ pkt_type ∷ pkt_len ∷ [])
        (record rx { parse_state = rx_header; header_idx = 0 })
      ≡ (
        (if pkt_len == 0
            then expecting pkt_type pkt_len []
                (improv_checksum (serial_header ++ 1 ∷ pkt_type ∷ pkt_len ∷ []))
            else reading pkt_type pkt_len []
                (improv_checksum (serial_header ++ 1 ∷ pkt_type ∷ pkt_len ∷ []))),
        [],
      )
unfolding rx_run rx_byte checksum_from
rx_run-head rx pkt_type pkt_len = elim (Bool-cases (pkt_len == 0)) [
  | inl nothing ↦ rw nothing refl
  | inr something ↦ rw something refl
]

suc_ne_zero : (n : ℕ) → (suc n == 0) ≡ false
suc_ne_zero n = ground arith

rx_run-frame_body :
    (rx : Rx) (pkt_type : ℕ) (payload : Bytes)
    → rx_run (frame_body pkt_type payload) (record rx { parse_state = rx_header; header_idx = 0 })
      ≡ (
        expecting pkt_type (length payload) payload (improv_checksum (frame_body pkt_type payload)),
        [],
      )
unfolding checksum_from
rx_run-frame_body rx pkt_type [] = rx_run-head rx pkt_type 0
rx_run-frame_body rx pkt_type (b ∷ s) =
    let head = serial_header ++ 1 ∷ pkt_type ∷ suc (length s) ∷ [] in
    rx_run-append head (b ∷ s) (record rx { parse_state = rx_header; header_idx = 0 })
    ∙ rw
        (
          rx_run-head rx pkt_type (suc (length s)),
          suc_ne_zero (length s),
          rx_run-reading b s [] pkt_type (suc (length s)) (improv_checksum head) (omega arith),
        )
        refl

-- What the parser holds behind a frame.
abbrev after_frame : ℕ → Bytes → Rx
after_frame pkt_type payload = record {
  parse_state = rx_header;
  header_idx = 0;
  pkt_type = pkt_type;
  pkt_len = length payload;
  rx_buf = payload;
  checksum = improv_checksum (frame_body pkt_type payload);
}

-- The requests that a packet with a checksum gives rise to.
abbrev pub served : ℕ → Bytes → ℕ → List Request
served pkt_type payload k =
    and_then
      (if k == improv_checksum (frame_body pkt_type payload)
        then request_of pkt_type payload
        else none)
      []

rx_run-frame :
    (rx : Rx) (pkt_type : ℕ) (payload : Bytes) (k : ℕ)
    → Idle rx
    → rx_run (frame_body pkt_type payload ++ k ∷ []) rx
      ≡ (after_frame pkt_type payload, served pkt_type payload k)
rx_run-frame rx pkt_type payload k idle = rw (Idle-eq rx idle) (
    rx_run-append (frame_body pkt_type payload) (k ∷ [])
      (record rx { parse_state = rx_header; header_idx = 0 })
    ∙ rw (rx_run-frame_body rx pkt_type payload) (unfold rx_run rx_byte in refl))

-- A parser that stands before a frame reads a packet of any type and length up to 255 to its end
-- and stands before the next frame again; it serves the packet exactly if the last byte is the
-- checksum of all the bytes before it, and else serves nothing.
pub rx_run_frame :
    (rx : Rx) (pkt_type : ℕ) (payload : Bytes) (k : ℕ)
    → Idle rx
    → Idle (rx_run (frame_body pkt_type payload ++ k ∷ []) rx).0
      × ((rx_run (frame_body pkt_type payload ++ k ∷ []) rx).1 ≡ served pkt_type payload k)
rx_run_frame rx pkt_type payload k idle =
    rw (rx_run-frame rx pkt_type payload k idle)
      (record { at_header = refl; at_first = refl }, refl)

-- The packets of a sender, one behind the other on the line.
abbrev pub send_all : List (ℕ × Bytes) → Bytes
send_all [] = []
send_all ((pkt_type, payload) ∷ ps) = serial_send_packet true pkt_type payload ++ send_all ps

abbrev pub requests : List (ℕ × Bytes) → List Request
requests [] = []
requests ((pkt_type, payload) ∷ ps) = and_then (request_of pkt_type payload) (requests ps)

abbrev pub Short : List (ℕ × Bytes) → Type 0
Short [] = Unit
Short ((pkt_type, payload) ∷ ps) = (length payload ≤ 255) × Short ps

serial_send_packet_short :
    (pkt_type : ℕ) (payload : Bytes)
    → length payload ≤ 255
    → serial_send_packet true pkt_type payload
      ≡ frame_body pkt_type payload ++ improv_checksum (frame_body pkt_type payload) ∷ []
unfolding serial_send_packet
serial_send_packet_short pkt_type payload h = ground arith

served_right :
    (pkt_type : ℕ) (payload : Bytes)
    → served pkt_type payload (improv_checksum (frame_body pkt_type payload))
      ≡ and_then (request_of pkt_type payload) []
served_right pkt_type payload =
    rw ((==_iff _ (improv_checksum (frame_body pkt_type payload))).1 refl) refl

rx_run-sent :
    (rx : Rx) (pkt_type : ℕ) (payload : Bytes)
    → length payload ≤ 255
    → Idle rx
    → Idle (rx_run (serial_send_packet true pkt_type payload) rx).0
      × ((rx_run (serial_send_packet true pkt_type payload) rx).1
          ≡ and_then (request_of pkt_type payload) [])
rx_run-sent rx pkt_type payload fits idle =
    rw (serial_send_packet_short pkt_type payload fits, ← served_right pkt_type payload)
      (rx_run_frame rx pkt_type payload (improv_checksum (frame_body pkt_type payload)) idle)

-- The packets that one side sends, each with at most 255 bytes of data, are those that the parser
-- of the other side serves, in their order and none left out, if it stood before a frame.
pub rx_run-send_all :
    (ps : List (ℕ × Bytes)) (rx : Rx)
    → Short ps
    → Idle rx
    → Idle (rx_run (send_all ps) rx).0 × ((rx_run (send_all ps) rx).1 ≡ requests ps)
rx_run-send_all [] rx short idle = unfold rx_run in (idle, refl)
rx_run-send_all ((pkt_type, payload) ∷ ps) rx (fits, short) idle =
    let frame = serial_send_packet true pkt_type payload in
    let (waiting, first) = rx_run-sent rx pkt_type payload fits idle in
    let (ready, rest) = rx_run-send_all ps (rx_run frame rx).0 short waiting in
    rw (rx_run-append frame (send_all ps) rx, first, rest)
      (ready, sym (and_then-append (request_of pkt_type payload) [] (requests ps)))
