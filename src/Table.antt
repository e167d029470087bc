-- ===== src/Table.antt =====
-- Arrays of records that are searched by a string key with `strcmp`, as the library keeps its
-- networks (src/esp_wifi_config_network.c) and its variables (src/esp_wifi_config_ap.c). The list
-- is the part of the array that is in use.
pub mod Laws
use esp_wifi_config.Common.{List, [], ◌∷◌, Option, none, some, Bool, true, false, if◌then◌else◌}
use esp_wifi_config.Common.Bytes.{Bytes, str_eq}

module _ {A : Type 0} (key : A → Bytes) where
  -- The first entry with the key.
  unfoldable pub find : Bytes → List A → Option A
  find k [] = none
  find k (x ∷ xs) = if str_eq (key x) k then some x else find k xs

  abbrev pub prepend : A → Option (List A) → Option (List A)
  prepend x none = none
  prepend x (some xs) = some (x ∷ xs)

  -- The first entry with the key is overwritten by what the function makes of it; `none` if there
  -- is no such entry.
  unfoldable pub replace : Bytes → (A → A) → List A → Option (List A)
  replace k f [] = none
  replace k f (x ∷ xs) = if str_eq (key x) k then some (f x ∷ xs) else prepend x (replace k f xs)

  -- The first entry with the key is removed, and those behind it move up.
  unfoldable pub remove : Bytes → List A → Option (List A)
  remove k [] = none
  remove k (x ∷ xs) = if str_eq (key x) k then some xs else prepend x (remove k xs)
