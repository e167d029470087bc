-- ===== src/Tests/Documents.antt =====
-- JSON documents on concrete inputs.
use esp_wifi_config.Common.{◌^◌, ◌-◌, ◌≡◌, refl, [], ◌∷◌, ◌++◌, none, some, true, arith}
use esp_wifi_config.Common.Bytes.{Bytes, codes}
use esp_wifi_config.Common.Decimal.{decimal, decimal_onto}
use esp_wifi_config.Json.{Sink, write_ok, escape_of, json_finish, json_init}
use esp_wifi_config.Json.Raw.{Accepts}
use esp_wifi_config.Json.Text.{escape_text}
use esp_wifi_config.Json.Document.{
  Value, str_value, int_value, object, array, no_members, member, no_items, item, print,
  print_members, print_items, Writable, WritableMembers, WritableItems, emit,
}
use esp_wifi_config.Json.Finish.{emit_streamed}

-- A sink that keeps all it is given.
abbrev keep : Sink Bytes
keep c d = (write_ok, c ++ d)

keep-Accepts : Accepts (some keep) (λ c. c)
keep-Accepts c d = (refl, refl)

-- A scan result with a tab in its name, and a signal strength of -71.
abbrev networks : Value
networks = object (
    member (codes "networks")
      (array (
        item
          (object (
            member (codes "ssid") (str_value (b'a' ∷ 9 ∷ []))
              (member (codes "rssi") (int_value (2 ^ 64 - 71)) no_members)))
          no_items))
      no_members)

print_test : print networks ≡ codes "{\"networks\":[{\"ssid\":\"a\\t\",\"rssi\":-71}]}"
unfolding print print_members print_items escape_text escape_of decimal decimal_onto
print_test = refl

networks-Writable : Writable 8 networks
unfolding Writable WritableMembers WritableItems
networks-Writable = ground arith

emit_streamed_example :
    let w = json_finish (some keep) (emit (some keep) none networks (json_init true 4 [])) in
    (w.err ≡ write_ok) × (w.ctx ≡ [] ++ print networks)
emit_streamed_example =
    emit_streamed keep (λ c. c) keep-Accepts networks 4 [] (omega arith) networks-Writable
