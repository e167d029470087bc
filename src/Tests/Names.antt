-- ===== src/Tests/Names.antt =====
-- The DNS responder on a concrete query.
use esp_wifi_config.Common.{◌≤◌, ◌<◌, ◌≡◌, refl, some, List, [], ◌∷◌, ◌++◌, arith, length}
use esp_wifi_config.Common.Bytes.{Bytes, codes}
use esp_wifi_config.Dns.Name.{parse_labels, dns_parse_name}
use esp_wifi_config.Dns.{reply, overrun, answer_record, build_response}
use esp_wifi_config.Dns.Question.{Header, labels_of, answered, question_of, build_response-question}

abbrev header : Header
header = record {
  id_high = 18;
  id_low = 52;
  flags_high = 1;
  flags_low = 0;
  qdcount_high = 0;
  qdcount_low = 1;
  ancount_high = 0;
  ancount_low = 0;
  nscount_high = 0;
  nscount_low = 0;
  arcount_high = 0;
  arcount_low = 0;
}

abbrev name : List Bytes
name = codes "a" ∷ codes "io" ∷ []

abbrev kind : Bytes
kind = 0 ∷ 1 ∷ 0 ∷ 1 ∷ []

build_response-question_example :
    (length (labels_of name) ≤ 479
      → build_response [] (question_of header name kind ++ []) 16885952
        ≡ reply (question_of (answered header) name kind ++ answer_record 16885952))
    × (479 < length (labels_of name)
        → build_response [] (question_of header name kind ++ []) 16885952 ≡ overrun)
build_response-question_example =
    build_response-question [] header name kind [] 16885952 (omega arith, (omega arith, tt)) refl

answer_record_test :
    answer_record 16885952
    ≡ 192 ∷ 12 ∷ 0 ∷ 1 ∷ 0 ∷ 1 ∷ 0 ∷ 0 ∷ 0 ∷ 60 ∷ 0 ∷ 4 ∷ 192 ∷ 168 ∷ 1 ∷ 1 ∷ []
answer_record_test = refl

dns_parse_name_test : dns_parse_name (question_of header name kind) 12 64 ≡ some (codes "a.io")
unfolding dns_parse_name parse_labels labels_of
dns_parse_name_test = refl

-- A label that is cut leaves the offset within it: its last byte, 2, is taken for a length.
parse_labels_cut_test : parse_labels 9 3 [] (3 ∷ 97 ∷ 98 ∷ 2 ∷ 0 ∷ []) ≡ some (codes "ab")
unfolding parse_labels
parse_labels_cut_test = refl
