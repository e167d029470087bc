-- ===== src/Nvs/RoundTrip.antt =====
-- What is saved is read back.
use native.Mathlib.Nat.{mod-eq_of_lt}
use esp_wifi_config.Common.{
  ℕ, ◌+◌, ◌%◌, ◌≤◌, ◌<◌, ◌≡◌, ◌≢◌, refl, sym, ap, ◌∙◌, List, [], ◌∷◌, ◌++◌, some, length, lt→ltb,
  arith, append_assoc, append-nil, length-append, take_all,
}
use esp_wifi_config.Common.Bytes.{Bytes, codes}
use esp_wifi_config.Common.Decimal.{
  decimal, decimal-injective, length-decimal, read_decimal, read_decimal-decimal,
}
use esp_wifi_config.Nvs.Driver.{NvsErr, nvs_ok, nvs_not_found, nvs_failed, NvsDriver}
use esp_wifi_config.Nvs.{
  blob_key, load_items, save_items, nvs_load_blobs, nvs_save_blobs, then_write,
  wifi_cfg_nvs_save_networks, wifi_cfg_nvs_load_networks, wifi_cfg_nvs_save_vars,
  wifi_cfg_nvs_load_vars,
}

-- The prefix leaves room in the 16 bytes of the key for the three digits of a one-byte index.
abbrev pub ShortPrefix : Bytes → Type 0
ShortPrefix prefix = length prefix ≤ 12

append_cancel {ℓ} : {A : Type ℓ} (xs : List A) (ys zs : List A) → xs ++ ys ≡ xs ++ zs → ys ≡ zs
append_cancel [] ys zs h = h
append_cancel (x ∷ xs) ys zs h = append_cancel xs ys zs (cc)

blob_key_whole :
    (prefix : Bytes) (i : ℕ)
    → ShortPrefix prefix
    → i < 256
    → blob_key prefix i ≡ prefix ++ decimal i
unfolding blob_key
blob_key_whole prefix i h k =
    take_all 15 (prefix ++ decimal i)
      (omega (arith, length-append prefix (decimal i), length-decimal i 2 (omega arith)))

blob_key_ne :
    (prefix : Bytes) (i j : ℕ)
    → ShortPrefix prefix
    → i < 256
    → j < 256
    → i ≢ j
    → blob_key prefix i ≢ blob_key prefix j
blob_key_ne prefix i j h hi hj ne e = ne (
    decimal-injective i j (
      append_cancel prefix (decimal i) (decimal j)
        (sym (blob_key_whole prefix i h hi) ∙ e ∙ blob_key_whole prefix j h hj)))

module _ {Item : Type 0} (drv : NvsDriver Item) where
  open drv use {
    Flash, open_readonly, open_readwrite, get_u8, set_u8, get_blob, set_blob, commit, get_u8-set_u8,
    get_blob-set_blob, get_blob-set_blob_ne, get_u8-set_blob_ne, get_blob-commit, get_u8-commit,
    open_readonly-commit,
  }

  -- The flash holds the items under the keys from index `i` on.
  abbrev Holds : Bytes → ℕ → List Item → Flash → Type 0
  Holds prefix i [] fl = Unit
  Holds prefix i (x ∷ xs) fl =
      (get_blob fl (blob_key prefix i) ≡ some x) × Holds prefix (i + 1) xs fl

  load_items-Holds :
      (xs acc : List Item) (max_count i : ℕ) (prefix : Bytes) (fl : Flash)
      → Holds prefix i xs fl
      → length acc + length xs ≤ max_count
      → load_items drv (length xs) max_count prefix i acc fl ≡ acc ++ xs
  unfolding load_items
  load_items-Holds [] acc max_count i prefix fl h room = sym (append-nil acc)
  load_items-Holds (x ∷ xs) acc max_count i prefix fl h room =
      rw (lt→ltb (length acc) max_count (omega arith), h.0)
        (load_items-Holds xs (acc ++ x ∷ []) max_count (i + 1) prefix fl h.1
            (omega (arith, length-append acc (x ∷ [])))
          ∙ append_assoc acc (x ∷ []) xs)

  pub then_write-eq-ok :
      (w : NvsErr × Flash) (next : Flash → NvsErr × Flash) {fl' : Flash}
      → then_write drv w next ≡ (nvs_ok, fl')
      → (fl : Flash) × (w ≡ (nvs_ok, fl)) × (next fl ≡ (nvs_ok, fl'))
  then_write-eq-ok (nvs_ok, fl) next e = (fl, refl, e)
  then_write-eq-ok (nvs_not_found, fl) next e = absurd (ground arith)
  then_write-eq-ok (nvs_failed, fl) next e = absurd (ground arith)

  -- A successful loop leaves the earlier elements alone and stores the rest.
  save_items-Holds :
      (xs : List Item) (i : ℕ) (prefix : Bytes) (fl fl' : Flash)
      → ShortPrefix prefix
      → i + length xs ≤ 256
      → save_items drv prefix i xs fl ≡ (nvs_ok, fl')
      → Holds prefix i xs fl'
        × ((j : ℕ) → j < i → get_blob fl' (blob_key prefix j) ≡ get_blob fl (blob_key prefix j))
  unfolding save_items
  save_items-Holds [] i prefix fl fl' h room e = (
    tt,
    λ j less. ap (λ p. get_blob p (blob_key prefix j)) (sym (ap (λ (p : NvsErr × Flash). p.1) e)),
  )
  save_items-Holds (x ∷ xs) i prefix fl fl' h room e =
      let (mid, wrote, rest) = then_write-eq-ok (set_blob fl (blob_key prefix i) x) _ e in
      let (held, kept) = save_items-Holds xs (i + 1) prefix mid fl' h (omega arith) rest in
      (
        (kept i (omega arith) ∙ get_blob-set_blob fl mid _ x wrote, held),
        λ j less.
            kept j (omega arith)
            ∙ get_blob-set_blob_ne fl mid _ _ x wrote
                (blob_key_ne prefix i j h (omega arith) (omega arith) (omega arith)),
      )

  get_u8-save_items :
      (xs : List Item) (i : ℕ) (prefix key : Bytes) (fl fl' : Flash)
      → ((j : ℕ) → j < 256 → blob_key prefix j ≢ key)
      → i + length xs ≤ 256
      → save_items drv prefix i xs fl ≡ (nvs_ok, fl')
      → get_u8 fl' key ≡ get_u8 fl key
  unfolding save_items
  get_u8-save_items [] i prefix key fl fl' apart room e =
      ap (λ p. get_u8 p key) (sym (ap (λ (p : NvsErr × Flash). p.1) e))
  get_u8-save_items (x ∷ xs) i prefix key fl fl' apart room e =
      let (mid, wrote, rest) = then_write-eq-ok (set_blob fl (blob_key prefix i) x) _ e in
      get_u8-save_items xs (i + 1) prefix key mid fl' apart (omega arith) rest
      ∙ get_u8-set_blob_ne fl mid _ key x wrote (apart i (omega arith))

  Holds-commit :
      (xs : List Item) (i : ℕ) (prefix : Bytes) (fl fl' : Flash)
      → commit fl ≡ (nvs_ok, fl')
      → Holds prefix i xs fl
      → Holds prefix i xs fl'
  Holds-commit [] i prefix fl fl' e h = tt
  Holds-commit (x ∷ xs) i prefix fl fl' e h =
      (get_blob-commit fl fl' _ e ∙ h.0, Holds-commit xs (i + 1) prefix fl fl' e h.1)

  pub nvs_save_blobs-eq-ok :
      (count_key prefix : Bytes) (items : List Item) (fl fl' : Flash)
      → nvs_save_blobs drv count_key prefix items fl ≡ (nvs_ok, fl')
      → then_write drv
          (set_u8 fl count_key (length items % 256))
          (λ f. then_write drv (save_items drv prefix 0 items f) commit)
        ≡ (nvs_ok, fl')
  unfolding nvs_save_blobs
  nvs_save_blobs-eq-ok count_key prefix items fl fl' e = ground arith

  nvs_load_blobs_opened :
      (count_key prefix : Bytes) (items : List Item) (max_count n : ℕ) (fl : Flash)
      → open_readonly fl ≡ nvs_ok
      → get_u8 fl count_key ≡ (nvs_ok, n)
      → load_items drv n max_count prefix 0 [] fl ≡ items
      → nvs_load_blobs drv count_key prefix max_count fl ≡ (nvs_ok, some items)
  unfolding nvs_load_blobs
  nvs_load_blobs_opened count_key prefix items max_count n fl opened counted loaded =
      rw (opened, nvs_load_blobs) (rw counted (rw loaded))

  -- After a save that went through, the count and every element stand on flash.
  nvs_load_blobs-nvs_save_blobs :
      (count_key prefix : Bytes) (items : List Item) (max_count : ℕ) (fl fl' : Flash)
      → ShortPrefix prefix
      → ((j : ℕ) → j < 256 → blob_key prefix j ≢ count_key)
      → length items < 256
      → length items ≤ max_count
      → nvs_save_blobs drv count_key prefix items fl ≡ (nvs_ok, fl')
      → nvs_load_blobs drv count_key prefix max_count fl' ≡ (nvs_ok, some items)
  nvs_load_blobs-nvs_save_blobs count_key prefix items max_count fl fl' short apart few room e =
      let (counted, wrote, e1) =
        then_write-eq-ok (set_u8 fl count_key (length items % 256)) _
          (nvs_save_blobs-eq-ok count_key prefix items fl fl' e) in
      let (stored, saved, done) =
        then_write-eq-ok (save_items drv prefix 0 items counted) commit e1 in
      let held =
        Holds-commit items 0 prefix stored fl' done
          (save_items-Holds items 0 prefix counted stored short (omega arith) saved).0 in
      let count =
        get_u8-commit stored fl' count_key done
        ∙ get_u8-save_items items 0 prefix count_key counted stored apart (omega arith) saved
        ∙ get_u8-set_u8 fl counted count_key _ wrote in
      nvs_load_blobs_opened count_key prefix items max_count (length items) fl'
        (open_readonly-commit stored fl' done) (rw (mod-eq_of_lt few) at count)
        (load_items-Holds items [] max_count 0 prefix fl' held (omega arith))

-- No element's key is the key of the count.
decimal-ne-count : (j : ℕ) → j < 256 → decimal j ≢ codes "count"
decimal-ne-count j h e =
    let value : read_decimal 0 (codes "count") ≡ j =
      ap (read_decimal 0) (sym e) ∙ read_decimal-decimal j in
    absurd (unfold read_decimal in omega arith)

blob_key-ne-count :
    (prefix : Bytes)
    → ShortPrefix prefix
    → (j : ℕ) → j < 256
    → blob_key prefix j ≢ prefix ++ codes "count"
blob_key-ne-count prefix short j h e =
    decimal-ne-count j h (append_cancel prefix _ _ (sym (blob_key_whole prefix j short h) ∙ e))

module _ {Item : Type 0} (drv : NvsDriver Item) where
  open drv use {Flash}

  -- Whatever the flash held before, when saving the networks reports success then loading them
  -- gives exactly the list that was saved, in its order, provided that it has fewer than 256
  -- entries and no more than the caller has room for.
  pub load_networks-save_networks :
      (items : List Item) (max_count : ℕ) (fl fl' : Flash)
      → length items < 256
      → length items ≤ max_count
      → wifi_cfg_nvs_save_networks drv items fl ≡ (nvs_ok, fl')
      → wifi_cfg_nvs_load_networks drv max_count fl' ≡ (nvs_ok, some items)
  unfolding wifi_cfg_nvs_save_networks wifi_cfg_nvs_load_networks
  load_networks-save_networks items max_count fl fl' few room =
      nvs_load_blobs-nvs_save_blobs drv _ (codes "net_") items max_count fl fl' (omega arith)
        (blob_key-ne-count (codes "net_") (omega arith)) few room

  -- The same of the variables.
  pub load_vars-save_vars :
      (items : List Item) (max_count : ℕ) (fl fl' : Flash)
      → length items < 256
      → length items ≤ max_count
      → wifi_cfg_nvs_save_vars drv items fl ≡ (nvs_ok, fl')
      → wifi_cfg_nvs_load_vars drv max_count fl' ≡ (nvs_ok, some items)
  unfolding wifi_cfg_nvs_save_vars wifi_cfg_nvs_load_vars
  load_vars-save_vars items max_count fl fl' few room =
      nvs_load_blobs-nvs_save_blobs drv _ (codes "var_") items max_count fl fl' (omega arith)
        (blob_key-ne-count (codes "var_") (omega arith)) few room
