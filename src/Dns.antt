-- ===== src/Dns.antt =====
-- src/esp_wifi_config_dns.c: the answer of the captive portal's DNS responder. The buffer that the
-- answer is built in is a parameter, since it keeps the bytes of the answer before.
pub mod Question
pub mod Name
pub mod Server
use esp_wifi_config.Common.{
  ℕ, zero, suc, ◌+◌, ◌/◌, ◌%◌, ◌^◌, List, [], ◌∷◌, ◌++◌, Option, none, some, Bool, true, false,
  length, take, drop, ltb, ◌==◌, if◌then◌else◌,
}
use esp_wifi_config.Common.Bytes.{Bytes}

-- DNS_MAX_PACKET_SIZE
abbrev pub max_packet_size : ℕ
max_packet_size = 512

-- sizeof(dns_header_t)
abbrev pub header_size : ℕ
header_size = 12

-- What the question's end comes to from the bytes left of the query: each label is skipped by the
-- length that it starts with. The fuel is the number of bytes.
unfoldable pub skip_labels : ℕ → Bytes → ℕ
skip_labels zero bs = 0
skip_labels (suc fuel) [] = 0
skip_labels (suc fuel) (b ∷ bs) =
    let rest = skip_labels fuel (drop b bs) in if b == 0 then 0 else b + 1 + rest

-- The header with the flags of an answer, 0x8180, and one answer; the rest is kept.
abbrev pub answer_header : Bytes → Bytes
answer_header q = take 2 q ++ 129 ∷ 128 ∷ take 2 (drop 4 q) ++ 0 ∷ 1 ∷ drop 8 q

-- The answer record: a pointer to the question, type A, class IN, 60 seconds, and the address with
-- its lowest byte first.
abbrev pub answer_record : ℕ → Bytes
answer_record ip =
    192
    ∷ 12
    ∷ 0
    ∷ 1
    ∷ 0
    ∷ 1
    ∷ 0
    ∷ 0
    ∷ 0
    ∷ 60
    ∷ 0
    ∷ 4
    ∷ ip % 256
    ∷ ip / 2 ^ 8 % 256
    ∷ ip / 2 ^ 16 % 256
    ∷ ip / 2 ^ 24 % 256
    ∷ []

-- `overrun` is a write behind the buffer, which C leaves undefined.
pub data Response : Type 0 where
  too_short overrun : Response
  reply : Bytes → Response

-- The offset of the answer record.
abbrev pub answer_offset : Bytes → ℕ
answer_offset q = header_size + skip_labels (length q) (drop header_size q) + 5

unfoldable pub build_response : Bytes → Bytes → ℕ → Response
unfolding skip_labels
build_response buffer q ip =
    if ltb (length q) header_size
    then too_short
    else if ltb max_packet_size (answer_offset q + 16)
    then overrun
    else reply
        (take (answer_offset q) (answer_header q ++ drop (length q) buffer) ++ answer_record ip)
