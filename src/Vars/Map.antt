-- ===== src/Vars/Map.antt =====
-- The variables as a finite map from keys to values, over any sequence of calls.
use mathlib.Core.Path.{fun_ext}
use esp_wifi_config.Common.{
  ℕ, ◌+◌, ◌-◌, ◌≤◌, ◌≡◌, refl, ap, ◌∙◌, List, [], ◌∷◌, Option, none, some, inl, inr, arith, Bool,
  true, false, length, take_all, length-append, Option-cases, Bool-cases, leb, if◌then◌else◌,
}
use esp_wifi_config.Common.Bytes.{Bytes, str_eq}
use esp_wifi_config.Network.Types.{EspErr, esp_ok, invalid_arg, no_mem, not_found}
use esp_wifi_config.Nvs.Driver.{NvsDriver}
use esp_wifi_config.Table.{find, replace, remove}
use esp_wifi_config.Table.Laws.{
  OnSome_apply, find-append, find-replace, find-remove, length-replace, length-remove,
  replace-eq-none, remove-eq-none,
}
use esp_wifi_config.Vars.{
  Var, VarStore, key_of, value_field, max_vars, accepted, store_var, set_var, del_var,
}
use esp_wifi_config.Vars.Valid.{IsValid, set_var-IsValid, del_var-IsValid}

-- What the variables are to a caller: the value of a key, and how many keys there are.
pub record Values : Type 0 where
  pub value_at : Bytes → Option Bytes
  pub count : ℕ

abbrev pub value_of : Option Var → Option Bytes
value_of none = none
value_of (some v) = some v.value

abbrev pub values : {F : Type 0} → VarStore F → Values
values s = record { value_at = λ j. value_of (find key_of j s.vars); count = length s.vars }

pub data VarCall : Type 0 where
  set : Bytes → Bytes → VarCall
  delete : Bytes → VarCall

-- A value that is set keeps its first 127 bytes; the count that results is given.
abbrev pub put_value : Bytes → Bytes → ℕ → Values → Values
put_value key value n m = record {
  value_at = λ j. if str_eq key j then some (value_field value) else m.value_at j;
  count = n;
}

-- A new key needs a free place.
abbrev pub store_promised : Bytes → Bytes → Values → EspErr × Values
store_promised key value m = elim (m.value_at key) [
  | some _ ↦ (esp_ok, put_value key value m.count m)
  | none ↦
      if leb max_vars m.count then (no_mem, m) else (esp_ok, put_value key value (m.count + 1) m)
]

-- The promise: the validator decides what is stored.
abbrev pub promised : Option (Bytes → Bytes → Bool) → VarCall → Values → EspErr × Values
promised validator (set key value) m =
    if accepted validator key value then store_promised key value m else (invalid_arg, m)
promised validator (delete key) m = elim (m.value_at key) [
  | some _ ↦ (
    esp_ok,
    record { value_at = λ j. if str_eq key j then none else m.value_at j; count = m.count - 1 },
  )
  | none ↦ (not_found, m)
]

abbrev pub calls_promised :
    Option (Bytes → Bytes → Bool) → List VarCall → Values → List EspErr × Values
calls_promised validator [] m = ([], m)
calls_promised validator (c ∷ cs) m =
    let (r, m1) = promised validator c m in
    let (rs, m2) = calls_promised validator cs m1 in (r ∷ rs, m2)

-- The keys that are set have at most 31 bytes.
abbrev pub ShortKeys : List VarCall → Type 0
ShortKeys [] = Unit
ShortKeys (set key value ∷ cs) = (length key ≤ 31) × ShortKeys cs
ShortKeys (delete key ∷ cs) = ShortKeys cs

values_path :
    {m m' : Values} → ((j : Bytes) → m.value_at j ≡ m'.value_at j) → m.count ≡ m'.count → m ≡ m'
values_path same counted = λ i. record { value_at = fun_ext same i; count = counted i }

value_of-if :
    (b : Bool) (x y : Option Var)
    → value_of (if b then x else y) ≡ (if b then value_of x else value_of y)
value_of-if true x y = refl
value_of-if false x y = refl

module _ (drv : NvsDriver Var) (validator : Option (Bytes → Bytes → Bool)) where
  open drv use {Flash}

  abbrev pub seen : EspErr × VarStore Flash → EspErr × Values
  seen (r, s) = (r, values s)

  abbrev pub call : VarCall → VarStore Flash → EspErr × VarStore Flash
  call (set key value) s = set_var drv validator key value s
  call (delete key) s = del_var drv key s

  delete-promised :
      (key : Bytes) (s : VarStore Flash)
      → IsValid s
      → seen (del_var drv key s) ≡ promised validator (delete key) (values s)
  unfolding del_var
  delete-promised key s v = elim (Option-cases (remove key_of key s.vars)) [
    | inl missing ↦
        rw (missing, del_var) (rw ((remove-eq-none key_of key s.vars).0 missing, promised))
    | inr (vs, removed) ↦
        rw (removed, del_var)
          (elim (Option-cases (find key_of key s.vars)) [
            | inl missing ↦ absurd (ground (arith, remove-eq-none key_of key s.vars))
            | inr (old, found) ↦
                rw (found, promised)
                  (ap (λ (m : Values). (esp_ok, m))
                    (values_path
                      (λ j.
                        ap value_of (
                          OnSome_apply key_of _ _ (find-remove key_of key j s.vars v.unique)
                            removed)
                        ∙ value_of-if (str_eq key j) none _)
                      (omega (
                        arith,
                        OnSome_apply key_of (λ ys. length ys + 1 ≡ length s.vars) _
                            (length-remove key_of key s.vars) removed,
                      ))))
          ])
  ]

  find-replaced :
      (key value : Bytes) (vs : List Var) {old : Var} {ws : List Var}
      → find key_of key vs ≡ some old
      → replace key_of key (λ v. record v { value = value_field value }) vs ≡ some ws
      → (j : Bytes)
      → value_of (find key_of j ws)
        ≡ (if str_eq key j then some (value_field value) else value_of (find key_of j vs))
  find-replaced key value vs {old} {ws} found replaced j =
      let at_j =
        OnSome_apply key_of _ _
          (find-replace key_of key (λ v. record v { value = value_field value }) (λ _ same. same) j
            vs)
          replaced in
      ap value_of (rw found at at_j) ∙ value_of-if (str_eq key j) _ _

  store-promised :
      (key value : Bytes) (s : VarStore Flash)
      → length key ≤ 31
      → seen (store_var drv key value s) ≡ store_promised key value (values s)
  unfolding store_var
  store-promised key value s short =
      elim (Option-cases
        (replace key_of key (λ v. record v { value = value_field value }) s.vars)) [
          | inl missing ↦
              let absent = (replace-eq-none key_of key _ s.vars).0 missing in
              rw (missing, store_var)
                (rw (absent, store_promised)
                  (elim (Bool-cases (leb max_vars (length s.vars))) [
                    | inl full ↦ rw full refl
                    | inr room ↦
                        rw (room, take_all 31 key short)
                          (ap (λ (m : Values). (esp_ok, m))
                            (values_path
                              (λ j.
                                ap value_of (find-append key_of j _ s.vars absent)
                                ∙ value_of-if (str_eq key j) _ _)
                              (length-append s.vars _)))
                  ]))
          | inr (vs, replaced) ↦
              rw (replaced, store_var)
                (elim (Option-cases (find key_of key s.vars)) [
                  | inl missing ↦ absurd (
                      ground (
                        arith,
                        replace-eq-none key_of key (λ v. record v { value = value_field value })
                            s.vars,
                      ))
                  | inr (old, found) ↦
                      rw (found, store_promised)
                        (ap (λ (m : Values). (esp_ok, m))
                          (values_path (λ j. find-replaced key value s.vars found replaced j)
                            (OnSome_apply key_of (λ ys. length ys ≡ length s.vars) _
                              (length-replace key_of key _ s.vars) replaced)))
                ])
        ]

  call-promised :
      (c : VarCall) (s : VarStore Flash)
      → ShortKeys (c ∷ [])
      → IsValid s
      → seen (call c s) ≡ promised validator c (values s)
  unfolding set_var
  call-promised (set key value) s short v = elim (Bool-cases (accepted validator key value)) [
    | inl accepts ↦ rw accepts (store-promised key value s short.0)
    | inr rejects ↦ rw rejects refl
  ]
  call-promised (delete key) s short v = delete-promised key s v

  call-IsValid :
      (c : VarCall) (s : VarStore Flash) → ShortKeys (c ∷ []) → IsValid s → IsValid (call c s).1
  call-IsValid (set key value) s short v = set_var-IsValid drv validator key value s short.0 v
  call-IsValid (delete key) s short v = del_var-IsValid drv key s v

  abbrev pub calls : List VarCall → VarStore Flash → List EspErr × VarStore Flash
  calls [] s = ([], s)
  calls (c ∷ cs) s = let (r, s1) = call c s in let (rs, s2) = calls cs s1 in (r ∷ rs, s2)

  ShortKeys-head :
      (c : VarCall) (cs : List VarCall) → ShortKeys (c ∷ cs) → ShortKeys (c ∷ []) × ShortKeys cs
  ShortKeys-head (set key value) cs h = ((h.0, tt), h.1)
  ShortKeys-head (delete key) cs h = (tt, h)

  -- As long as no key of more than 31 bytes is set, any sequence of calls that set and delete
  -- variables, from a valid state, returns the error codes of a finite map with room for ten
  -- entries whose values are cut to 127 bytes, and leaves the map's entries and a valid state.
  pub vars_refine :
      (cs : List VarCall) (s : VarStore Flash)
      → ShortKeys cs
      → IsValid s
      → ((calls cs s).0 ≡ (calls_promised validator cs (values s)).0)
        × (values (calls cs s).1 ≡ (calls_promised validator cs (values s)).1)
        × IsValid (calls cs s).1
  vars_refine [] s short v = (refl, refl, v)
  vars_refine (c ∷ cs) s short v =
      let (this, rest) = ShortKeys-head c cs short in
      let later = vars_refine cs (call c s).1 rest (call-IsValid c s this v) in
      rw (← call-promised c s this v)
        (ap (λ (rs : List EspErr). (call c s).0 ∷ rs) later.0, later.1, later.2)
