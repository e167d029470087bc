-- ===== src/Json/Document.antt =====
-- Whole documents: what the calls of a client that walks over a value write, and that the result
-- is the value's JSON text, for buffers of any size.
use esp_wifi_config.Common.{
  ℕ, ◌-◌, ◌^◌, ◌<◌, [], ◌∷◌, ◌++◌, Option, none, some, Bool, true, false, if◌then◌else◌,
}
use esp_wifi_config.Common.Bytes.{Bytes, codes}
use esp_wifi_config.Json.{
  Writer, Sink, json_obj_open, json_obj_close, json_arr_open, json_arr_close, json_str, json_int,
  json_bool,
}
use esp_wifi_config.Json.Number.{numeral}
use esp_wifi_config.Json.Step.{comma, quoted, key_text}

mutual
  -- A JSON value as the writer can express it; an integer is the bit pattern of an `int64_t`.
  pub data Value : Type 0 where
    str_value : Bytes → Value
    int_value : ℕ → Value
    bool_value : Bool → Value
    object : Members → Value
    array : Items → Value

  pub data Members : Type 0 where
    no_members : Members
    member : Bytes → Value → Members → Members

  pub data Items : Type 0 where
    no_items : Items
    item : Value → Items → Items

unfoldable mutual
  -- The JSON text of a value; the flag tells whether a comma is due.
  pub print : Value → Bytes
  print (str_value s) = quoted s
  print (int_value n) = numeral n
  print (bool_value b) = if b then codes "true" else codes "false"
  print (object ms) = b'{' ∷ [] ++ (print_members false ms ++ b'}' ∷ [])
  print (array xs) = b'[' ∷ [] ++ (print_items false xs ++ b']' ∷ [])

  pub print_members : Bool → Members → Bytes
  print_members c no_members = []
  print_members c (member key v ms) =
      ((comma c ++ key_text (some key)) ++ print v) ++ print_members true ms

  pub print_items : Bool → Items → Bytes
  print_items c no_items = []
  print_items c (item v xs) = ((comma c ++ key_text none) ++ print v) ++ print_items true xs

unfoldable mutual
  -- Objects and arrays nest at most `d` deep, and the integers have 64 bits.
  pub Writable : ℕ → Value → Type 0
  Writable d (str_value s) = Unit
  Writable d (int_value n) = n < 2 ^ 64
  Writable d (bool_value b) = Unit
  Writable d (object ms) = (0 < d) × WritableMembers (d - 1) ms
  Writable d (array xs) = (0 < d) × WritableItems (d - 1) xs

  pub WritableMembers : ℕ → Members → Type 0
  WritableMembers d no_members = Unit
  WritableMembers d (member key v ms) = Writable d v × WritableMembers d ms

  pub WritableItems : ℕ → Items → Type 0
  WritableItems d no_items = Unit
  WritableItems d (item v xs) = Writable d v × WritableItems d xs

module _ {Ctx : Type 0} (sink : Option (Sink Ctx)) where
  unfoldable mutual
    -- The calls of the writer for a value, as a handler makes them.
    pub emit : Option Bytes → Value → Writer Ctx → Writer Ctx
    emit key (str_value s) w = json_str sink key (some s) w
    emit key (int_value n) w = json_int sink key n w
    emit key (bool_value b) w = json_bool sink key b w
    emit key (object ms) w = json_obj_close sink (emit_members ms (json_obj_open sink key w))
    emit key (array xs) w = json_arr_close sink (emit_items xs (json_arr_open sink key w))

    pub emit_members : Members → Writer Ctx → Writer Ctx
    emit_members no_members w = w
    emit_members (member key v ms) w = emit_members ms (emit (some key) v w)

    pub emit_items : Items → Writer Ctx → Writer Ctx
    emit_items no_items w = w
    emit_items (item v xs) w = emit_items xs (emit none v w)
