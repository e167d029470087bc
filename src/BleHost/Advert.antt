-- ===== src/BleHost/Advert.antt =====
-- The bytes that are advertised for Improv (src/esp_wifi_config_ble_nimble.c), and a reader of
-- advertising data by its length octets, as a central reads it.
use esp_wifi_config.Common.{
  ℕ, zero, suc, ◌+◌, ◌%◌, ◌≡◌, ◌≤◌, refl, ap, ◌∙◌, false, List, [], ◌∷◌, ◌++◌, Option, none, some,
  length, take, drop, ltb, if◌then◌else◌, arith, take_all, length-take,
}
use esp_wifi_config.Common.Bytes.{Bytes}
use esp_wifi_config.Improv.Core.{
  ImprovState, authorization_required, authorized, provisioning, provisioned,
}

-- IMPROV_BLE_SVC_UUID_128, its lowest byte first
abbrev pub improv_uuid_le : Bytes
improv_uuid_le =
    0x00 ∷ 0x80 ∷ 0x26 ∷ 0x78 ∷ 0x74 ∷ 0x27 ∷ 0x63 ∷ 0x46 ∷ 0x72 ∷ 0x22 ∷ 0x28 ∷ 0x62 ∷ 0x68 ∷ 0x77
    ∷ 0x46 ∷ 0x00 ∷ []

abbrev pub state_byte : ImprovState → ℕ
state_byte authorization_required = 1
state_byte authorized = 2
state_byte provisioning = 3
state_byte provisioned = 4

-- The service data: the 16-bit UUID 0x4677, the state, the capabilities and four reserved bytes.
abbrev pub service_data : ImprovState → ℕ → Bytes
service_data st caps = 0x77 ∷ 0x46 ∷ state_byte st ∷ caps ∷ 0 ∷ 0 ∷ 0 ∷ 0 ∷ []

-- Flags, the complete list of 128-bit UUIDs, and the service data.
unfoldable pub adv_buf : ImprovState → ℕ → Bytes
adv_buf st caps =
    (2 ∷ 0x01 ∷ 0x06 ∷ []) ++ (17 ∷ 0x07 ∷ improv_uuid_le) ++ (9 ∷ 0x16 ∷ service_data st caps)

abbrev pub name_len : Bytes → ℕ
name_len name = if ltb 28 (length name) then 28 else length name

-- The scan response: the complete local name.
unfoldable pub rsp_buf : Bytes → Bytes
rsp_buf name = (name_len name + 1) % 256 ∷ 0x09 ∷ take (name_len name) name

-- A structure is a length, a type and one byte less than the length. `none` is data that ends
-- within a structure; a length of zero ends the data early. The fuel is the number of bytes.
unfoldable pub ad_structures : ℕ → Bytes → Option (List (ℕ × Bytes))
ad_structures zero bs = some []
ad_structures (suc fuel) [] = some []
ad_structures (suc fuel) (zero ∷ bs) = some []
ad_structures (suc fuel) (suc n ∷ []) = none
ad_structures (suc fuel) (suc n ∷ kind ∷ bs) =
    let later = ad_structures fuel (drop n bs) in
    if ltb (length bs) n
    then none
    else elim later [ none ↦ none | some ads ↦ some ((kind, take n bs) ∷ ads) ]

-- What a central reads.
abbrev pub read_ads : Bytes → Option (List (ℕ × Bytes))
read_ads bs = ad_structures (length bs) bs

pub read_ads-adv_buf :
    (st : ImprovState) (caps : ℕ)
    → read_ads (adv_buf st caps)
      ≡ some ((0x01, 0x06 ∷ []) ∷ (0x07, improv_uuid_le) ∷ (0x16, service_data st caps) ∷ [])
unfolding adv_buf ad_structures
read_ads-adv_buf st caps = refl

pub length-adv_buf : (st : ImprovState) (caps : ℕ) → length (adv_buf st caps) ≡ 31
unfolding adv_buf
length-adv_buf st caps = refl

drop_whole : (s : Bytes) → drop (length s) s ≡ []
drop_whole [] = refl
drop_whole (c ∷ s) = drop_whole s

name_len-le : (name : Bytes) → (name_len name ≤ 28) × (name_len name ≤ length name)
name_len-le name = (ground arith, ground arith)

length_cut : (name : Bytes) → length (take (name_len name) name) ≡ name_len name
length_cut name =
    omega (arith, length-take (name_len name) name, (name_len-le name).0, (name_len-le name).1)

pub length-rsp_buf : (name : Bytes) → length (rsp_buf name) ≤ 31
unfolding rsp_buf
length-rsp_buf name = omega (arith, length_cut name, (name_len-le name).0)

one_structure :
    (fuel kind : ℕ) (text : Bytes)
    → ad_structures (suc (suc fuel)) (suc (length text) ∷ kind ∷ text) ≡ some ((kind, text) ∷ [])
unfolding ad_structures
one_structure fuel kind text =
    rw
      (ltb_self (length text), drop_whole text, take_all (length text) text (le_self (length text)))
      refl
  where
    le_self : (n : ℕ) → n ≤ n
    le_self n = omega arith

    ltb_self : (n : ℕ) → ltb n n ≡ false
    ltb_self n = ground arith

pub read_ads-rsp_buf :
    (name : Bytes) → read_ads (rsp_buf name) ≡ some ((0x09, take (name_len name) name) ∷ [])
unfolding rsp_buf
read_ads-rsp_buf name =
    ap (λ (n : ℕ). ad_structures (length (rsp_buf name)) (n ∷ 0x09 ∷ take (name_len name) name))
      prefix
    ∙ one_structure (length (take (name_len name) name)) 0x09 (take (name_len name) name)
  where
    prefix : (name_len name + 1) % 256 ≡ suc (length (take (name_len name) name))
    prefix = omega (arith, length_cut name, (name_len-le name).0)
