-- ===== src/Network/Scan/Inner.antt =====
-- The inner loop of the merge: what one entry does to those behind it.
use mathlib.Core.Option.{some-injective}
use esp_wifi_config.Common.{
  ℕ, zero, suc, ◌≤◌, ◌≡◌, ◌≢◌, refl, sym, ap, ◌∙◌, List, [], ◌∷◌, none, some, true, Bool-cases, inl,
  inr, ◌⊎◌, get_elem?, arith, length, ltb, if◌then◌else◌,
}
use esp_wifi_config.Common.Bytes.{Bytes, str_eq, str_eq_iff}
use esp_wifi_config.Wifi.{ScanResult}
use esp_wifi_config.Table.{find}
use esp_wifi_config.Network.Scan.{strength, keep_stronger, merge_into}

abbrev pub scan_ssid : ScanResult → Bytes
scan_ssid r = r.ssid

-- A list has an entry for the SSID, at least as strong.
abbrev pub Covers : List ScanResult → ScanResult → Type 0
Covers ys x = (b : ScanResult) × (find scan_ssid x.ssid ys ≡ some b) × (strength x ≤ strength b)

keep_stronger-ssid : (r x : ScanResult) → (keep_stronger r x).ssid ≡ r.ssid
keep_stronger-ssid r x = elim (Bool-cases (ltb (strength r) (strength x))) [
  | inl weaker ↦ rw weaker refl
  | inr strong ↦ rw strong refl
]

keep_stronger-le :
    (r x : ScanResult)
    → (strength r ≤ strength (keep_stronger r x)) × (strength x ≤ strength (keep_stronger r x))
keep_stronger-le r x = elim (Bool-cases (ltb (strength r) (strength x))) [
  | inl weaker ↦ rw weaker (ground arith, ground arith)
  | inr strong ↦ rw strong (ground arith, ground arith)
]

pub merge_into-ssid : (r : ScanResult) (xs : List ScanResult) → (merge_into r xs).0.ssid ≡ r.ssid
unfolding merge_into
merge_into-ssid r [] = refl
merge_into-ssid r (x ∷ xs) = elim (Bool-cases (str_eq r.ssid x.ssid)) [
  | inl same ↦ rw same (merge_into-ssid (keep_stronger r x) xs ∙ keep_stronger-ssid r x)
  | inr other ↦ rw other (merge_into-ssid r xs)
]

merge_into-le : (r : ScanResult) (xs : List ScanResult) → strength r ≤ strength (merge_into r xs).0
unfolding merge_into
merge_into-le r [] = omega arith
merge_into-le r (x ∷ xs) = elim (Bool-cases (str_eq r.ssid x.ssid)) [
  | inl same ↦
      rw same (omega (arith, merge_into-le (keep_stronger r x) xs, (keep_stronger-le r x).0))
  | inr other ↦ rw other (merge_into-le r xs)
]

pub merge_into-length :
    (r : ScanResult) (xs : List ScanResult) → length (merge_into r xs).1 ≤ length xs
unfolding merge_into
merge_into-length r [] = omega arith
merge_into-length r (x ∷ xs) = elim (Bool-cases (str_eq r.ssid x.ssid)) [
  | inl same ↦ rw same (omega (arith, merge_into-length (keep_stronger r x) xs))
  | inr other ↦ rw other (omega (arith, merge_into-length r xs))
]

-- The SSID of the entry does not stay behind it, and others are not touched.
pub merge_into-find :
    (r : ScanResult) (xs : List ScanResult) (j : Bytes)
    → find scan_ssid j (merge_into r xs).1 ≡ (if str_eq r.ssid j then none else find scan_ssid j xs)
unfolding merge_into find
merge_into-find r [] j = ground arith
merge_into-find r (x ∷ xs) j = elim (Bool-cases (str_eq r.ssid x.ssid)) [
  | inl same ↦
      let later = merge_into-find (keep_stronger r x) xs j in
      let ssid = keep_stronger-ssid r x in
      rw same (
        later
        ∙ rw ssid
            (ground (arith, str_eq_iff r.ssid x.ssid, str_eq_iff x.ssid j, str_eq_iff r.ssid j)))
  | inr other ↦ rw other (
      ground (
        arith,
        merge_into-find r xs j,
        str_eq_iff r.ssid x.ssid,
        str_eq_iff x.ssid j,
        str_eq_iff r.ssid j,
      ))
]

-- The result stands in the list.
abbrev pub Seen : List ScanResult → ScanResult → Type 0
Seen xs b = (i : ℕ) × (get_elem? xs i ≡ some b)

pub Seen-cons :
    (x : ScanResult) (xs : List ScanResult) {b : ScanResult} → Seen xs b → Seen (x ∷ xs) b
Seen-cons x xs (i, e) = (suc i, e)

Seen-under :
    (x : ScanResult) (xs ys : List ScanResult) {b : ScanResult}
    → (Seen xs b → Seen ys b)
    → Seen (x ∷ xs) b
    → Seen (x ∷ ys) b
Seen-under x xs ys f (zero, e) = (0, e)
Seen-under x xs ys f (suc i, e) = Seen-cons x ys (f (i, e))

pub Seen-tail :
    (x : ScanResult) (xs : List ScanResult) {b : ScanResult} → x ≢ b → Seen (x ∷ xs) b → Seen xs b
Seen-tail x xs ne (zero, e) = absurd (ne (some-injective _ _ e))
Seen-tail x xs ne (suc i, e) = (i, e)

-- Every entry with the SSID is at most as strong as the one that it is merged into.
merge_into-strongest :
    (r : ScanResult) (xs : List ScanResult) (i : ℕ) {x : ScanResult}
    → get_elem? xs i ≡ some x
    → r.ssid ≡ x.ssid
    → strength x ≤ strength (merge_into r xs).0
unfolding merge_into
merge_into-strongest r [] i at_i e = absurd (ground arith)
merge_into-strongest r (y ∷ ys) zero {x} at_i e =
    let first : y ≡ x = some-injective _ _ at_i in
    let same : str_eq r.ssid y.ssid ≡ true =
      (str_eq_iff r.ssid y.ssid).1 (e ∙ ap scan_ssid (sym first)) in
    rw same (
      omega
        (arith, merge_into-le (keep_stronger r y) ys, (keep_stronger-le r y).1, ap strength first))
merge_into-strongest r (y ∷ ys) (suc i) {x} at_i e = elim (Bool-cases (str_eq r.ssid y.ssid)) [
  | inl same ↦
      rw same (merge_into-strongest (keep_stronger r y) ys i at_i (keep_stronger-ssid r y ∙ e))
  | inr other ↦ rw other (merge_into-strongest r ys i at_i e)
]

keep_stronger-one :
    (r x : ScanResult) → r.ssid ≡ x.ssid → (keep_stronger r x ≡ r) ⊎ (keep_stronger r x ≡ x)
keep_stronger-one r x same = elim (Bool-cases (ltb (strength r) (strength x))) [
  | inl weaker ↦ inr (rw weaker (λ i. record { ssid = same i; rssi = x.rssi; auth = x.auth }))
  | inr strong ↦ inl (rw strong refl)
]

Seen-more :
    (r y : ScanResult) (xs : List ScanResult) {b : ScanResult}
    → Seen (r ∷ xs) b
    → Seen (r ∷ y ∷ xs) b
Seen-more r y xs (zero, e) = (0, e)
Seen-more r y xs (suc i, e) = (suc (suc i), e)

Seen-merged :
    (k r x : ScanResult) (xs : List ScanResult) {b : ScanResult}
    → (k ≡ r) ⊎ (k ≡ x)
    → Seen (k ∷ xs) b
    → Seen (r ∷ x ∷ xs) b
Seen-merged k r x xs (inl same) (zero, e) = (0, ap some (sym same) ∙ e)
Seen-merged k r x xs (inr same) (zero, e) = (1, ap some (sym same) ∙ e)
Seen-merged k r x xs one (suc i, e) = (suc (suc i), e)

pub merge_into-Seen : (r : ScanResult) (xs : List ScanResult) → Seen (r ∷ xs) (merge_into r xs).0
unfolding merge_into
merge_into-Seen r [] = (0, refl)
merge_into-Seen r (x ∷ xs) = elim (Bool-cases (str_eq r.ssid x.ssid)) [
  | inl same ↦ rw same (
      Seen-merged (keep_stronger r x) r x xs
        (keep_stronger-one r x ((str_eq_iff r.ssid x.ssid).0 same))
        (merge_into-Seen (keep_stronger r x) xs))
  | inr other ↦ rw other (Seen-more r x xs (merge_into-Seen r xs))
]

-- What stays behind was there, and what was there with another SSID stays.
pub Seen-merge_into :
    (r : ScanResult) (xs : List ScanResult) (b : ScanResult)
    → Seen (merge_into r xs).1 b
    → Seen xs b
unfolding merge_into
Seen-merge_into r [] b seen = seen
Seen-merge_into r (x ∷ xs) b seen = elim (Bool-cases (str_eq r.ssid x.ssid)) [
  | inl same ↦ Seen-cons x xs (Seen-merge_into (keep_stronger r x) xs b (rw same at seen))
  | inr other ↦ Seen-under x (merge_into r xs).1 xs (Seen-merge_into r xs b) (rw other at seen)
]

pub merge_into-stays :
    (r : ScanResult) (xs : List ScanResult) {x : ScanResult}
    → r.ssid ≢ x.ssid
    → Seen xs x
    → Seen (merge_into r xs).1 x
unfolding merge_into
merge_into-stays r [] ne seen = seen
merge_into-stays r (y ∷ ys) {x} ne seen = elim (Bool-cases (str_eq r.ssid y.ssid)) [
  | inl same ↦ rw same (
      merge_into-stays (keep_stronger r y) ys (λ e. ne (sym (keep_stronger-ssid r y) ∙ e))
        (Seen-tail y ys (λ e. ne ((str_eq_iff r.ssid y.ssid).0 same ∙ ap scan_ssid e)) seen))
  | inr other ↦ rw other (Seen-under y ys (merge_into r ys).1 (merge_into-stays r ys ne) seen)
]

pub head_strongest :
    (r : ScanResult) (rs : List ScanResult) (x : ScanResult)
    → r.ssid ≡ x.ssid
    → Seen (r ∷ rs) x
    → strength x ≤ strength (merge_into r rs).0
head_strongest r rs x same (zero, e) =
    omega (arith, merge_into-le r rs, ap strength (some-injective _ _ e))
head_strongest r rs x same (suc i, e) = merge_into-strongest r rs i e same
