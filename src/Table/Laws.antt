-- ===== src/Table/Laws.antt =====
-- The arrays as finite maps: look-ups after each operation, and unique keys.
use mathlib.Core.Option
use esp_wifi_config.Common.{
  ◌+◌, ◌≡◌, refl, List, [], ◌∷◌, ◌++◌, Option, none, some, ◌↔◌, if◌then◌else◌, length, arith,
}
use esp_wifi_config.Common.Bytes.{Bytes, str_eq, str_eq_iff}
use esp_wifi_config.Table.{find, replace, remove}

module _ {A : Type 0} (key : A → Bytes) where
  -- No key stands twice.
  abbrev pub Unique : List A → Type 0
  Unique [] = Unit
  Unique (x ∷ xs) = (find key (key x) xs ≡ none) × Unique xs

  pub find-append :
      (k : Bytes) (v : A) (xs : List A)
      → find key (key v) xs ≡ none
      → find key k (xs ++ v ∷ []) ≡ (if str_eq (key v) k then some v else find key k xs)
  unfolding find
  find-append k v [] h = refl
  find-append k v (x ∷ xs) h = ground (
    arith,
    find-append k v xs,
    str_eq_iff (key x) k,
    str_eq_iff (key v) k,
    str_eq_iff (key x) (key v),
  )

  pub Unique-append :
      (v : A) (xs : List A) → find key (key v) xs ≡ none → Unique xs → Unique (xs ++ v ∷ [])
  unfolding find
  Unique-append v [] h u = (refl, tt)
  Unique-append v (x ∷ xs) h u = ground (
    arith,
    find-append (key x) v xs,
    Unique-append v xs,
    str_eq_iff (key x) (key v),
    str_eq_iff (key v) (key x),
  )

  pub replace-eq-none :
      (k : Bytes) (f : A → A) (xs : List A) → (replace key k f xs ≡ none) ↔ (find key k xs ≡ none)
  unfolding find replace
  replace-eq-none k f [] = ground arith
  replace-eq-none k f (x ∷ xs) = ground (arith, replace-eq-none k f xs)

  pub remove-eq-none : (k : Bytes) (xs : List A) → (remove key k xs ≡ none) ↔ (find key k xs ≡ none)
  unfolding find remove
  remove-eq-none k [] = ground arith
  remove-eq-none k (x ∷ xs) = ground (arith, remove-eq-none k xs)

  -- What holds of the list, if there is one.
  abbrev pub OnSome {κ} : (List A → Type κ) → Option (List A) → Type κ
  OnSome P none = Unit
  OnSome P (some ys) = P ys

  pub OnSome_apply {κ} :
      (P : List A → Type κ) (o : Option (List A)) {ys : List A} → OnSome P o → o ≡ some ys → P ys
  OnSome_apply P o h e = rw e at h

  pub length-replace :
      (k : Bytes) (f : A → A) (xs : List A)
      → OnSome (λ ys. length ys ≡ length xs) (replace key k f xs)
  unfolding replace
  length-replace k f [] = tt
  length-replace k f (x ∷ xs) = ground (arith, length-replace k f xs)

  pub length-remove :
      (k : Bytes) (xs : List A) → OnSome (λ ys. length ys + 1 ≡ length xs) (remove key k xs)
  unfolding remove
  length-remove k [] = tt
  length-remove k (x ∷ xs) = ground (arith, length-remove k xs)

  module _ (k : Bytes) (f : A → A) (same : (x : A) → key x ≡ k → key (f x) ≡ k) where
    pub find-replace :
        (j : Bytes) (xs : List A)
        → OnSome
            (λ ys.
              find key j ys ≡ (if str_eq k j then Option.map f (find key k xs) else find key j xs))
            (replace key k f xs)
    unfolding find replace
    find-replace j [] = tt
    find-replace j (x ∷ xs) = ground (
      arith,
      find-replace j xs,
      same x,
      str_eq_iff (key x) k,
      str_eq_iff k j,
      str_eq_iff (key x) j,
      str_eq_iff (key (f x)) j,
    )

    pub Unique-replace : (xs : List A) → Unique xs → OnSome Unique (replace key k f xs)
    unfolding replace
    Unique-replace [] u = tt
    Unique-replace (x ∷ xs) u = ground (
      arith,
      Unique-replace xs,
      find-replace (key x) xs,
      same x,
      str_eq_iff (key x) k,
      str_eq_iff k (key x),
    )

  pub find-remove :
      (k j : Bytes) (xs : List A)
      → Unique xs
      → OnSome
          (λ ys. find key j ys ≡ (if str_eq k j then none else find key j xs))
          (remove key k xs)
  unfolding find remove
  find-remove k j [] u = tt
  find-remove k j (x ∷ xs) u =
      ground (arith, find-remove k j xs, str_eq_iff (key x) k, str_eq_iff k j, str_eq_iff (key x) j)

  pub Unique-remove : (k : Bytes) (xs : List A) → Unique xs → OnSome Unique (remove key k xs)
  unfolding remove
  Unique-remove k [] u = tt
  Unique-remove k (x ∷ xs) u = ground (arith, Unique-remove k xs, find-remove k (key x) xs)
