-- ===== src/Network/Scan/Merged.antt =====
-- The merged scan results: one entry for each SSID, with the strongest signal seen.
use mathlib.Core.Path.{subst}
use mathlib.Core.Option.{some-injective}
use esp_wifi_config.Common.{
  ℕ, zero, suc, ◌≤◌, ◌≡◌, ◌≢◌, refl, ap, ◌∙◌, List, [], ◌∷◌, none, false, Bool-cases, inl, inr,
  arith, length,
}
use esp_wifi_config.Common.Bytes.{Bytes, str_eq, str_eq_iff, str_eq_self}
use esp_wifi_config.Wifi.{ScanResult}
use esp_wifi_config.Table.{find}
use esp_wifi_config.Table.Laws.{Unique}
use esp_wifi_config.Network.Scan.{merge_into, merge_rounds, merge_duplicates}
use esp_wifi_config.Network.Scan.Inner.{
  scan_ssid, Covers, merge_into-ssid, merge_into-length, merge_into-find, Seen, Seen-cons,
  Seen-tail, merge_into-Seen, Seen-merge_into, merge_into-stays, head_strongest,
}

-- The rounds have fuel enough when there is one for each entry.
merge_rounds-find :
    (fuel : ℕ) (rs : List ScanResult) (j : Bytes)
    → length rs ≤ fuel
    → (find scan_ssid j rs ≡ none)
    → find scan_ssid j (merge_rounds fuel rs) ≡ none
unfolding merge_rounds find
merge_rounds-find zero rs j enough absent = absent
merge_rounds-find (suc fuel) [] j enough absent = refl
merge_rounds-find (suc fuel) (r ∷ rs) j enough absent =
    let other : str_eq r.ssid j ≡ false = ground arith in
    let behind : find scan_ssid j rs ≡ none = rw other at absent in
    rw (merge_into-ssid r rs, other)
      (merge_rounds-find fuel (merge_into r rs).1 j (omega (arith, merge_into-length r rs))
        (merge_into-find r rs j ∙ rw other behind))

merge_rounds-Unique :
    (fuel : ℕ) (rs : List ScanResult) → length rs ≤ fuel → Unique scan_ssid (merge_rounds fuel rs)
unfolding merge_rounds
merge_rounds-Unique zero [] enough = tt
merge_rounds-Unique zero (r ∷ rs) enough = absurd (omega arith)
merge_rounds-Unique (suc fuel) [] enough = tt
merge_rounds-Unique (suc fuel) (r ∷ rs) enough =
    let fewer : length (merge_into r rs).1 ≤ fuel = omega (arith, merge_into-length r rs) in
    (
      merge_rounds-find fuel (merge_into r rs).1 (merge_into r rs).0.ssid fewer (
          merge_into-find r rs (merge_into r rs).0.ssid
          ∙ rw (merge_into-ssid r rs, str_eq_self r.ssid) refl),
      merge_rounds-Unique fuel (merge_into r rs).1 fewer,
    )

merge_rounds-Seen :
    (fuel : ℕ) (rs : List ScanResult) (b : ScanResult) → Seen (merge_rounds fuel rs) b → Seen rs b
unfolding merge_rounds
merge_rounds-Seen zero rs b seen = seen
merge_rounds-Seen (suc fuel) [] b seen = seen
merge_rounds-Seen (suc fuel) (r ∷ rs) b (zero, e) =
    subst (λ (x : ScanResult). Seen (r ∷ rs) x) (some-injective _ _ e) (merge_into-Seen r rs)
merge_rounds-Seen (suc fuel) (r ∷ rs) b (suc i, e) =
    Seen-cons r rs (Seen-merge_into r rs b (merge_rounds-Seen fuel (merge_into r rs).1 b (i, e)))

merge_rounds-Covers :
    (fuel : ℕ) (rs : List ScanResult) (x : ScanResult)
    → length rs ≤ fuel
    → Seen rs x
    → Covers (merge_rounds fuel rs) x
unfolding merge_rounds find
merge_rounds-Covers zero [] x enough (i, e) = absurd (ground arith)
merge_rounds-Covers zero (r ∷ rs) x enough seen = absurd (omega arith)
merge_rounds-Covers (suc fuel) [] x enough (i, e) = absurd (ground arith)
merge_rounds-Covers (suc fuel) (r ∷ rs) x enough seen = elim (Bool-cases (str_eq r.ssid x.ssid)) [
  | inl same ↦ (
    (merge_into r rs).0,
    rw (merge_into-ssid r rs, same) refl,
    head_strongest r rs x ((str_eq_iff r.ssid x.ssid).0 same) seen,
  )
  | inr other ↦
      let ne : r.ssid ≢ x.ssid = ground (arith, str_eq_iff r.ssid x.ssid) in
      let behind = Seen-tail r rs (λ e. ne (ap scan_ssid e)) seen in
      let (b, found, stronger) =
        merge_rounds-Covers fuel (merge_into r rs).1 x (omega (arith, merge_into-length r rs))
          (merge_into-stays r rs ne behind) in
      (b, rw (merge_into-ssid r rs, other) found, stronger)
]

-- The merged list has no SSID twice. Each of its entries is one of the results that were scanned,
-- and every result that was scanned has its SSID in the list, with a signal at least as strong.
pub merge_duplicates-strongest :
    (rs : List ScanResult)
    → Unique scan_ssid (merge_duplicates rs)
      × ((b : ScanResult) → Seen (merge_duplicates rs) b → Seen rs b)
      × ((x : ScanResult) → Seen rs x → Covers (merge_duplicates rs) x)
unfolding merge_duplicates
merge_duplicates-strongest rs = (
  merge_rounds-Unique (length rs) rs (omega arith),
  merge_rounds-Seen (length rs) rs,
  λ x. merge_rounds-Covers (length rs) rs x (omega arith),
)
