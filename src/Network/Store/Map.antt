-- ===== src/Network/Store/Map.antt =====
-- The saved networks as a finite map from SSIDs of limited size: what the calls promise, and that
-- the array code keeps the promise over any sequence of calls.
use mathlib.Core.Path.{fun_ext}
use esp_wifi_config.Common.{
  ℕ, ◌+◌, ◌-◌, ◌≡◌, refl, ap, ◌∙◌, List, [], ◌∷◌, Option, none, some, inl, inr, arith, length,
  length-append, Option-cases, Bool-cases, leb, if◌then◌else◌,
}
use esp_wifi_config.Common.Bytes.{Bytes, str_eq}
use esp_wifi_config.Network.Types.{
  Network, EspErr, esp_ok, invalid_state, no_mem, not_found, max_networks,
}
use esp_wifi_config.Nvs.Driver.{NvsDriver}
use esp_wifi_config.Table.{find, replace, remove}
use esp_wifi_config.Table.Laws.{
  OnSome_apply, find-append, find-replace, find-remove, length-replace, length-remove,
  replace-eq-none, remove-eq-none,
}
use esp_wifi_config.Network.Store.{Store, ssid_of, add_network, update_network, remove_network}
use esp_wifi_config.Network.Store.Valid.{
  IsValid, add_network-IsValid, update_network-IsValid, remove_network-IsValid,
}

-- What the saved networks are to a caller: which network an SSID stands for, and how many there
-- are. The order of the array and the file format are forgotten.
pub record Saved : Type 0 where
  pub get : Bytes → Option Network
  pub count : ℕ

abbrev pub view : {F : Type 0} → Store F → Saved
view s = record { get = λ j. find ssid_of j s.networks; count = length s.networks }

pub data Call : Type 0 where
  add update : Network → Call
  forget : Bytes → Call

-- The promise: adding needs a free place and a new SSID, updating and removing a known one.
abbrev pub promised : Call → Saved → EspErr × Saved
promised (add n) m = elim (m.get n.ssid) [
  | some _ ↦ (invalid_state, m)
  | none ↦ if leb max_networks m.count then (no_mem, m) else (
    esp_ok,
    record { get = λ j. if str_eq n.ssid j then some n else m.get j; count = m.count + 1 },
  )
]
promised (update n) m = elim (m.get n.ssid) [
  | some _ ↦
      (esp_ok, record { get = λ j. if str_eq n.ssid j then some n else m.get j; count = m.count })
  | none ↦ (not_found, m)
]
promised (forget ssid) m = elim (m.get ssid) [
  | some _ ↦
      (esp_ok, record { get = λ j. if str_eq ssid j then none else m.get j; count = m.count - 1 })
  | none ↦ (not_found, m)
]

abbrev pub calls_promised : List Call → Saved → List EspErr × Saved
calls_promised [] m = ([], m)
calls_promised (c ∷ cs) m =
    let (r, m1) = promised c m in let (rs, m2) = calls_promised cs m1 in (r ∷ rs, m2)

module _ (drv : NvsDriver Network) where
  open drv use {Flash}

  abbrev pub call : Call → Store Flash → EspErr × Store Flash
  call (add n) s = add_network drv n s
  call (update n) s = update_network drv n s
  call (forget ssid) s = remove_network drv ssid s

  -- The result and the map that a call leaves.
  abbrev pub seen : EspErr × Store Flash → EspErr × Saved
  seen (r, s) = (r, view s)

  saved_path : {m m' : Saved} → ((j : Bytes) → m.get j ≡ m'.get j) → m.count ≡ m'.count → m ≡ m'
  saved_path same counted = λ i. record { get = fun_ext same i; count = counted i }

  pub add-promised :
      (n : Network) (s : Store Flash) → seen (add_network drv n s) ≡ promised (add n) (view s)
  unfolding add_network
  add-promised n s = elim (Option-cases (find ssid_of n.ssid s.networks)) [
    | inr (old, found) ↦ rw (found, add_network, promised)
    | inl missing ↦
        rw (missing, add_network, promised)
          (elim (Bool-cases (leb max_networks (length s.networks))) [
            | inl full ↦ rw (full, promised)
            | inr room ↦
                rw (room, promised)
                  (ap (λ (m : Saved). (esp_ok, m))
                    (saved_path (λ j. find-append ssid_of j n s.networks missing)
                      (length-append s.networks (n ∷ []))))
          ])
  ]

  pub update-promised :
      (n : Network) (s : Store Flash) → seen (update_network drv n s) ≡ promised (update n) (view s)
  unfolding update_network
  update-promised n s = elim (Option-cases (replace ssid_of n.ssid (λ _. n) s.networks)) [
    | inl missing ↦
        rw (missing, update_network)
          (rw ((replace-eq-none ssid_of n.ssid (λ _. n) s.networks).0 missing, promised))
    | inr (ns, replaced) ↦
        rw (replaced, update_network)
          (elim (Option-cases (find ssid_of n.ssid s.networks)) [
            | inl missing ↦
                absurd (ground (arith, replace-eq-none ssid_of n.ssid (λ _. n) s.networks))
            | inr (old, found) ↦
                rw (found, promised)
                  (ap (λ (m : Saved). (esp_ok, m))
                    (saved_path
                      (λ j.
                        OnSome_apply ssid_of _ _
                          (find-replace ssid_of n.ssid (λ _. n) (λ _ _. refl) j s.networks) replaced
                        ∙ rw found)
                      (OnSome_apply ssid_of (λ ys. length ys ≡ length s.networks) _
                        (length-replace ssid_of n.ssid (λ _. n) s.networks) replaced)))
          ])
  ]

  pub forget-promised :
      (ssid : Bytes) (s : Store Flash)
      → IsValid s
      → seen (remove_network drv ssid s) ≡ promised (forget ssid) (view s)
  unfolding remove_network
  forget-promised ssid s v = elim (Option-cases (remove ssid_of ssid s.networks)) [
    | inl missing ↦
        rw (missing, remove_network)
          (rw ((remove-eq-none ssid_of ssid s.networks).0 missing, promised))
    | inr (ns, removed) ↦
        rw (removed, remove_network)
          (elim (Option-cases (find ssid_of ssid s.networks)) [
            | inl missing ↦ absurd (ground (arith, remove-eq-none ssid_of ssid s.networks))
            | inr (old, found) ↦
                rw (found, promised)
                  (ap (λ (m : Saved). (esp_ok, m))
                    (saved_path
                      (λ j.
                        OnSome_apply ssid_of _ _ (find-remove ssid_of ssid j s.networks v.unique)
                          removed)
                      (omega (
                        arith,
                        OnSome_apply ssid_of (λ ys. length ys + 1 ≡ length s.networks) _
                            (length-remove ssid_of ssid s.networks) removed,
                      ))))
          ])
  ]

  pub call-IsValid : (c : Call) (s : Store Flash) → IsValid s → IsValid (call c s).1
  call-IsValid (add n) s v = add_network-IsValid drv n s v
  call-IsValid (update n) s v = update_network-IsValid drv n s v
  call-IsValid (forget ssid) s v = remove_network-IsValid drv ssid s v

  call-promised : (c : Call) (s : Store Flash) → IsValid s → seen (call c s) ≡ promised c (view s)
  call-promised (add n) s v = add-promised n s
  call-promised (update n) s v = update-promised n s
  call-promised (forget ssid) s v = forget-promised ssid s v

  -- The results of a sequence of calls, and the state that it leaves.
  abbrev pub calls : List Call → Store Flash → List EspErr × Store Flash
  calls [] s = ([], s)
  calls (c ∷ cs) s = let (r, s1) = call c s in let (rs, s2) = calls cs s1 in (r ∷ rs, s2)

  -- From a valid state, any sequence of calls that add, update and remove networks returns the
  -- error codes of a finite map with room for five entries and leaves the map's entries; it also
  -- leaves a valid state, in which no SSID stands twice and at most five networks stand.
  pub calls_refine :
      (cs : List Call) (s : Store Flash)
      → IsValid s
      → ((calls cs s).0 ≡ (calls_promised cs (view s)).0)
        × (view (calls cs s).1 ≡ (calls_promised cs (view s)).1)
        × IsValid (calls cs s).1
  calls_refine [] s v = (refl, refl, v)
  calls_refine (c ∷ cs) s v =
      let later = calls_refine cs (call c s).1 (call-IsValid c s v) in
      rw (← call-promised c s v)
        (ap (λ (rs : List EspErr). (call c s).0 ∷ rs) later.0, later.1, later.2)
