-- ===== src/Nvs/Shared.antt =====
-- The one namespace of src/esp_wifi_config_nvs.c that holds the networks, the variables and the access
-- point: a driver of raw blobs, seen as a driver of each kind of item, and what a save of one kind
-- leaves of the others.
use esp_wifi_config.Common.{
  ℕ, zero, suc, ◌+◌, ◌%◌, ◌≡◌, ◌≢◌, refl, sym, ap, ◌∙◌, List, [], ◌∷◌, Option, none, some, length,
  ltb, if◌then◌else◌,
}
use esp_wifi_config.Common.Bytes.{Bytes}
use esp_wifi_config.Nvs.Driver.{NvsErr, nvs_ok, NvsDriver}
use esp_wifi_config.Nvs.{
  blob_key, load_items, save_items, nvs_load_blobs, nvs_save_blobs, stored_count, append_found,
}
use esp_wifi_config.Nvs.RoundTrip.{then_write-eq-ok, nvs_save_blobs-eq-ok}

-- How an item is laid out as a blob, and what a blob is read as, if anything.
pub record Layout (Item Blob : Type 0) : Type 0 where
  pub as_blob : Item → Blob
  pub as_item : Blob → Option Item
  pub as_item-as_blob : (x : Item) → as_item (as_blob x) ≡ some x

module _ {Item Blob : Type 0} (drv : NvsDriver Blob) (lay : Layout Item Blob) where
  open lay use {as_blob, as_item, as_item-as_blob}

  abbrev pub read_as : Option Blob → Option Item
  read_as none = none
  read_as (some b) = as_item b

  -- The same flash, for items of one kind.
  abbrev pub seen : NvsDriver Item
  seen = record {
    Flash = drv.Flash;
    open_readonly = drv.open_readonly;
    open_readwrite = drv.open_readwrite;
    get_u8 = drv.get_u8;
    set_u8 = drv.set_u8;
    get_blob = λ fl k. read_as (drv.get_blob fl k);
    set_blob = λ fl k x. drv.set_blob fl k (as_blob x);
    commit = drv.commit;
    erase_all = drv.erase_all;
    get_u8-set_u8 = drv.get_u8-set_u8;
    get_u8-set_u8_ne = drv.get_u8-set_u8_ne;
    get_blob-set_u8_ne = λ fl fl' k j v e ne. ap read_as (drv.get_blob-set_u8_ne fl fl' k j v e ne);
    get_blob-set_blob = λ fl fl' k x e.
        ap read_as (drv.get_blob-set_blob fl fl' k (as_blob x) e) ∙ as_item-as_blob x;
    get_blob-set_blob_ne =
        λ fl fl' k j x e ne. ap read_as (drv.get_blob-set_blob_ne fl fl' k j (as_blob x) e ne);
    get_u8-set_blob_ne = λ fl fl' k j x e ne. drv.get_u8-set_blob_ne fl fl' k j (as_blob x) e ne;
    get_blob-commit = λ fl fl' k e. ap read_as (drv.get_blob-commit fl fl' k e);
    get_u8-commit = drv.get_u8-commit;
    open_readonly-commit = drv.open_readonly-commit;
    get_u8-erase_all = drv.get_u8-erase_all;
  }

-- Keys by their first byte, which tells the three kinds apart.
abbrev pub Begins : ℕ → Bytes → Type 0
Begins c [] = ⊥
Begins c (d ∷ s) = d ≡ c

Begins-ne : (c d : ℕ) (k j : Bytes) → c ≢ d → Begins c k → Begins d j → k ≢ j
Begins-ne c d [] j ne h g e = h
Begins-ne c d (a ∷ k) [] ne h g e = g
Begins-ne c d (a ∷ k) (b ∷ j) ne h g e = ne (cc)

pub blob_key-Begins :
    (c : ℕ) (prefix : Bytes) (i : ℕ) → Begins c prefix → Begins c (blob_key prefix i)
unfolding blob_key
blob_key-Begins c [] i h = absurd h
blob_key-Begins c (d ∷ s) i h = h

module _ {Blob : Type 0} (drv : NvsDriver Blob) where
  open drv use {
    Flash, open_readonly, get_u8, set_u8, get_blob, set_blob, commit, get_u8-set_u8_ne,
    get_blob-set_u8_ne, get_blob-set_blob_ne, get_u8-set_blob_ne, get_blob-commit, get_u8-commit,
    open_readonly-commit,
  }

  -- Two flashes agree on the keys that begin with a byte.
  pub record Agree (c : ℕ) (fl fl' : Flash) : Type 0 where
    pub bytes_same : (k : Bytes) → Begins c k → get_u8 fl' k ≡ get_u8 fl k
    pub blobs_same : (k : Bytes) → Begins c k → get_blob fl' k ≡ get_blob fl k

  pub Agree-trans : (c : ℕ) (a b d : Flash) → Agree c a b → Agree c b d → Agree c a d
  Agree-trans c a b d p q = record {
    bytes_same = λ k h. q.bytes_same k h ∙ p.bytes_same k h;
    blobs_same = λ k h. q.blobs_same k h ∙ p.blobs_same k h;
  }

  pub commit-Agree : (c : ℕ) (fl fl' : Flash) → commit fl ≡ (nvs_ok, fl') → Agree c fl fl'
  commit-Agree c fl fl' e = record {
    bytes_same = λ k h. get_u8-commit fl fl' k e;
    blobs_same = λ k h. get_blob-commit fl fl' k e;
  }

  pub set_u8-Agree :
      (c d : ℕ) (key : Bytes) (v : ℕ) (fl fl' : Flash)
      → d ≢ c
      → Begins d key
      → set_u8 fl key v ≡ (nvs_ok, fl')
      → Agree c fl fl'
  set_u8-Agree c d key v fl fl' ne h e = record {
    bytes_same = λ k g. get_u8-set_u8_ne fl fl' key k v e (Begins-ne d c key k ne h g);
    blobs_same = λ k g. get_blob-set_u8_ne fl fl' key k v e (Begins-ne d c key k ne h g);
  }

  pub set_blob-Agree :
      (c d : ℕ) (key : Bytes) (x : Blob) (fl fl' : Flash)
      → d ≢ c
      → Begins d key
      → set_blob fl key x ≡ (nvs_ok, fl')
      → Agree c fl fl'
  set_blob-Agree c d key x fl fl' ne h e = record {
    bytes_same = λ k g. get_u8-set_blob_ne fl fl' key k x e (Begins-ne d c key k ne h g);
    blobs_same = λ k g. get_blob-set_blob_ne fl fl' key k x e (Begins-ne d c key k ne h g);
  }

  module _ {Item : Type 0} (lay : Layout Item Blob) where
    save_items-Agree :
        (c d : ℕ) (prefix : Bytes) (i : ℕ) (xs : List Item) (fl fl' : Flash)
        → d ≢ c
        → Begins d prefix
        → save_items (seen drv lay) prefix i xs fl ≡ (nvs_ok, fl')
        → Agree c fl fl'
    unfolding save_items
    save_items-Agree c d prefix i [] fl fl' ne h e =
        let same : fl ≡ fl' = ap (λ (p : NvsErr × Flash). p.1) e in
        record {
          bytes_same = λ k g. ap (λ f. get_u8 f k) (sym same);
          blobs_same = λ k g. ap (λ f. get_blob f k) (sym same);
        }
    save_items-Agree c d prefix i (x ∷ xs) fl fl' ne h e =
        let (mid, wrote, rest) =
          then_write-eq-ok (seen drv lay) ((seen drv lay).set_blob fl (blob_key prefix i) x) _ e in
        Agree-trans c fl mid fl'
          (set_blob-Agree c d (blob_key prefix i) (lay.as_blob x) fl mid ne
            (blob_key-Begins d prefix i h) wrote)
          (save_items-Agree c d prefix (i + 1) xs mid fl' ne h rest)

    -- A save of items of one kind leaves the other kinds as they are, and leaves the namespace there.
    pub nvs_save_blobs-Agree :
        (c d : ℕ) (count_key prefix : Bytes) (xs : List Item) (fl fl' : Flash)
        → d ≢ c
        → Begins d count_key
        → Begins d prefix
        → nvs_save_blobs (seen drv lay) count_key prefix xs fl ≡ (nvs_ok, fl')
        → Agree c fl fl' × (open_readonly fl' ≡ nvs_ok)
    nvs_save_blobs-Agree c d count_key prefix xs fl fl' ne h g e =
        let (counted, wrote, e1) =
          then_write-eq-ok (seen drv lay) ((seen drv lay).set_u8 fl count_key (length xs % 256)) _
            (nvs_save_blobs-eq-ok (seen drv lay) count_key prefix xs fl fl' e) in
        let (stored, saved, done) =
          then_write-eq-ok (seen drv lay) (save_items (seen drv lay) prefix 0 xs counted) commit
            e1 in
        (
          Agree-trans c fl counted fl' (set_u8-Agree c d count_key _ fl counted ne h wrote) (
              Agree-trans c counted stored fl'
                (save_items-Agree c d prefix 0 xs counted stored ne g saved)
                (commit-Agree c stored fl' done)),
          open_readonly-commit stored fl' done,
        )

    load_items-Agree :
        (c n max_count : ℕ) (prefix : Bytes) (i : ℕ) (acc : List Item) (fl fl' : Flash)
        → Begins c prefix
        → Agree c fl fl'
        → load_items (seen drv lay) n max_count prefix i acc fl'
          ≡ load_items (seen drv lay) n max_count prefix i acc fl
    unfolding load_items
    load_items-Agree c zero max_count prefix i acc fl fl' h same = refl
    load_items-Agree c (suc n) max_count prefix i acc fl fl' h same =
        let acc' : List Item =
          append_found (seen drv lay) acc ((seen drv lay).get_blob fl (blob_key prefix i)) in
        let here =
          ap (λ (x : Option Blob). append_found (seen drv lay) acc (read_as drv lay x))
            (same.blobs_same (blob_key prefix i) (blob_key-Begins c prefix i h)) in
        ap
          (λ (next : List Item).
            if ltb (length acc) max_count
            then load_items (seen drv lay) n max_count prefix (i + 1) next fl'
            else acc)
          here
        ∙ ap (λ (rest : List Item). if ltb (length acc) max_count then rest else acc)
            (load_items-Agree c n max_count prefix (i + 1) acc' fl fl' h same)

    loaded_opened :
        (max_count : ℕ) (count_key prefix : Bytes) (fl : Flash)
        → open_readonly fl ≡ nvs_ok
        → nvs_load_blobs (seen drv lay) count_key prefix max_count fl ≡ (
          nvs_ok,
          some (
              load_items
                (seen drv lay)
                (stored_count (seen drv lay) (get_u8 fl count_key))
                max_count
                prefix
                0
                []
                fl),
        )
    unfolding nvs_load_blobs
    loaded_opened max_count count_key prefix fl opened = rw (opened, nvs_load_blobs) refl

    -- What is loaded does not change with it.
    pub nvs_load_blobs-Agree :
        (c max_count : ℕ) (count_key prefix : Bytes) (fl fl' : Flash)
        → Begins c count_key
        → Begins c prefix
        → open_readonly fl ≡ nvs_ok
        → open_readonly fl' ≡ nvs_ok
        → Agree c fl fl'
        → nvs_load_blobs (seen drv lay) count_key prefix max_count fl'
          ≡ nvs_load_blobs (seen drv lay) count_key prefix max_count fl
    nvs_load_blobs-Agree c max_count count_key prefix fl fl' h g opened opened' same =
        let loaded : NvsErr × ℕ → Flash → NvsErr × Option (List Item) = λ count f. (
          nvs_ok,
          some (
              load_items (seen drv lay) (stored_count (seen drv lay) count) max_count prefix 0 []
                f),
        ) in
        loaded_opened max_count count_key prefix fl' opened'
        ∙ ap (λ count. loaded count fl') (same.bytes_same count_key h)
        ∙ ap (λ (xs : List Item). (nvs_ok, some xs))
            (load_items-Agree c (stored_count (seen drv lay) (get_u8 fl count_key)) max_count prefix
              0 [] fl fl' g same)
        ∙ sym (loaded_opened max_count count_key prefix fl opened)
