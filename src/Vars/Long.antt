-- ===== src/Vars/Long.antt =====
-- Keys that do not fit: what becomes of a variable whose key has more than 31 bytes.
use esp_wifi_config.Common.{
  ℕ, ◌+◌, ◌≤◌, ◌<◌, ◌≡◌, refl, ap, ◌∙◌, List, [], ◌∷◌, ◌++◌, none, some, inl, inr, arith, false,
  length-append, All, All-append, length, length-take, leb, Bool-cases,
}
use esp_wifi_config.Common.Bytes.{Bytes, str_eq, str_eq_iff}
use esp_wifi_config.Network.Types.{esp_ok, not_found}
use esp_wifi_config.Nvs.Driver.{NvsDriver}
use esp_wifi_config.Table.{find}
use esp_wifi_config.Table.Laws.{replace-eq-none}
use esp_wifi_config.Vars.{
  Var, VarStore, key_of, key_field, value_field, max_vars, store_var, set_var, get_var,
}

-- The keys in the array have at most 31 bytes, as `char[32]` gives.
abbrev pub KeysFit : List Var → Type 0
KeysFit vs = All (λ v. length v.key ≤ 31) vs

has_room : (n : ℕ) → n < max_vars → leb max_vars n ≡ false
has_room n room = ground arith

str_eq-long : (a key : Bytes) → length a ≤ 31 → 31 < length key → str_eq a key ≡ false
str_eq-long a key fit long = elim (Bool-cases (str_eq a key)) [
  | inl same ↦ absurd (omega (arith, ap length ((str_eq_iff a key).0 same)))
  | inr differs ↦ differs
]

find-long : (key : Bytes) (vs : List Var) → 31 < length key → KeysFit vs → find key_of key vs ≡ none
unfolding find
find-long key [] long fits = refl
find-long key (v ∷ vs) long (fit, fits) =
    rw (str_eq-long v.key key fit long, find) (find-long key vs long fits)

module _ (drv : NvsDriver Var) where
  open drv use {Flash}

  stored_at_end :
      (key value : Bytes) (s : VarStore Flash)
      → 31 < length key
      → KeysFit s.vars
      → length s.vars < max_vars
      → ((set_var drv none key value s).0 ≡ esp_ok)
        × ((set_var drv none key value s).1.vars
            ≡ s.vars ++ record { key = key_field key; value = value_field value } ∷ [])
  unfolding set_var store_var
  stored_at_end key value s long fits room =
      let absent =
        (replace-eq-none key_of key (λ v. record v { value = value_field value }) s.vars).1
          (find-long key s.vars long fits) in
      rw (absent, store_var) (rw (has_room (length s.vars) room) (refl, refl))

  pub KeysFit-append :
      (key value : Bytes) (vs : List Var)
      → KeysFit vs
      → KeysFit (vs ++ record { key = key_field key; value = value_field value } ∷ [])
  KeysFit-append key value vs fits =
      All-append (λ v. length v.key ≤ 31) vs _ fits (omega (arith, length-take 31 key), tt)

  get_var-absent :
      (key : Bytes) (max_len : ℕ) (s : VarStore Flash)
      → find key_of key s.vars ≡ none
      → get_var drv key max_len s ≡ some (not_found, none)
  unfolding get_var
  get_var-absent key max_len s absent = rw (absent, get_var) refl

  -- Without a validator, and with two places free, setting a variable whose key has more than 31
  -- bytes succeeds, but the variable is not found again under its key, and setting it once more
  -- takes another place instead of changing it. The keys that are stored already fit in theirs.
  pub set_var-long :
      (key value again : Bytes) (max_len : ℕ) (s : VarStore Flash)
      → 31 < length key
      → KeysFit s.vars
      → length s.vars + 1 < max_vars
      → let first = set_var drv none key value s in
        let second = set_var drv none key again first.1 in
        (first.0 ≡ esp_ok)
        × (get_var drv key max_len first.1 ≡ some (not_found, none))
        × (second.0 ≡ esp_ok)
        × (length second.1.vars ≡ length s.vars + 2)
  set_var-long key value again max_len s long fits room =
      let s1 = (set_var drv none key value s).1 in
      let (ok, grown) = stored_at_end key value s long fits (omega arith) in
      let fits1 : KeysFit s1.vars = rw grown (KeysFit-append key value s.vars fits) in
      let longer = ap length grown ∙ length-append s.vars _ in
      let (ok1, grown1) = stored_at_end key again s1 long fits1 (omega arith) in
      (
        ok,
        get_var-absent key max_len s1 (find-long key s1.vars long fits1),
        ok1,
        ap length grown1 ∙ length-append s1.vars _ ∙ omega arith,
      )
