-- ===== src/Vars/Valid.antt =====
-- What holds of the variables between two calls.
use esp_wifi_config.Common.{
  ◌+◌, ◌≤◌, ◌≡◌, [], ◌∷◌, Option, inl, inr, arith, Bool, Bool-cases, length, take_all,
  length-append, Option-cases, leb,
}
use esp_wifi_config.Common.Bytes.{Bytes}
use esp_wifi_config.Nvs.Driver.{NvsDriver}
use esp_wifi_config.Table.{replace, remove}
use esp_wifi_config.Table.Laws.{
  Unique, OnSome_apply, Unique-append, replace-eq-none, Unique-replace, Unique-remove,
  length-replace, length-remove,
}
use esp_wifi_config.Vars.{
  Var, VarStore, key_of, value_field, max_vars, accepted, store_var, set_var, del_var,
}

-- No key is stored twice, and there are not more variables than the array holds.
pub record IsValid {F : Type 0} (s : VarStore F) : Type 0 where
  pub unique : Unique key_of s.vars
  pub fits : length s.vars ≤ max_vars

module _ (drv : NvsDriver Var) where
  open drv use {Flash}

  store_var-IsValid :
      (key value : Bytes) (s : VarStore Flash)
      → length key ≤ 31
      → IsValid s
      → IsValid (store_var drv key value s).1
  unfolding store_var
  store_var-IsValid key value s short v =
      elim (Option-cases
        (replace key_of key (λ v. record v { value = value_field value }) s.vars)) [
          | inr (vs, found) ↦
              rw (found, store_var)
                (record {
                  unique =
                      OnSome_apply key_of (Unique key_of) _
                        (Unique-replace key_of key _ (λ _ same. same) s.vars v.unique) found;
                  fits = omega (
                    arith,
                    OnSome_apply key_of (λ ns. length ns ≡ length s.vars) _
                        (length-replace key_of key _ s.vars) found,
                    v.fits,
                  );
                })
          | inl missing ↦
              rw (missing, store_var)
                (elim (Bool-cases (leb max_vars (length s.vars))) [
                  | inl full ↦ rw full v
                  | inr room ↦
                      rw (room, take_all 31 key short)
                        (record {
                          unique =
                              Unique-append key_of _ s.vars
                                ((replace-eq-none key_of key _ s.vars).0 missing) v.unique;
                          fits = ground (
                            arith,
                            v.fits,
                            length-append s.vars
                                (record { key = key; value = value_field value } ∷ []),
                          );
                        })
                ])
        ]

  pub set_var-IsValid :
      (validator : Option (Bytes → Bytes → Bool)) (key value : Bytes) (s : VarStore Flash)
      → length key ≤ 31
      → IsValid s
      → IsValid (set_var drv validator key value s).1
  unfolding set_var
  set_var-IsValid validator key value s short v = elim (Bool-cases (accepted validator key value)) [
    | inl accepts ↦ rw accepts (store_var-IsValid key value s short v)
    | inr rejects ↦ rw rejects v
  ]

  pub del_var-IsValid :
      (key : Bytes) (s : VarStore Flash) → IsValid s → IsValid (del_var drv key s).1
  unfolding del_var
  del_var-IsValid key s v = elim (Option-cases (remove key_of key s.vars)) [
    | inl missing ↦ rw (missing, del_var) v
    | inr (vs, found) ↦
        rw (found, del_var)
          (record {
            unique =
                OnSome_apply key_of (Unique key_of) _ (Unique-remove key_of key s.vars v.unique)
                  found;
            fits = omega (
              arith,
              OnSome_apply key_of (λ ns. length ns + 1 ≡ length s.vars) _
                  (length-remove key_of key s.vars) found,
              v.fits,
            );
          })
  ]
