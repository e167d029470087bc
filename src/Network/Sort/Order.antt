-- ===== src/Network/Sort/Order.antt =====
-- The sort gives a permutation in descending order of priority, and keeps the order of equals.
use mathlib.Core.List.{Perm}
use mathlib.Core.List.Perm
use esp_wifi_config.Common.{
  ℕ, zero, suc, ◌-◌, ◌≤◌, ◌≡◌, refl, ◌∙◌, List, [], ◌∷◌, arith, length, ltb, if◌then◌else◌,
  Bool-cases, inl, inr, true, All, ◌==◌, drop,
}
use esp_wifi_config.Network.Types.{Network}
use esp_wifi_config.Network.Sort.{pass, rounds, sort_networks_by_priority}

-- No entry exceeds the bound.
abbrev pub AtMost : ℕ → List Network → Type 0
AtMost b = All (λ y. y.priority ≤ b)

-- Every entry has at least the priority of each one behind it.
abbrev pub Descending : List Network → Type 0
Descending [] = Unit
Descending (x ∷ xs) = AtMost x.priority xs × Descending xs

-- The entries of one priority, in their order.
abbrev pub of_priority : ℕ → List Network → List Network
of_priority p [] = []
of_priority p (x ∷ xs) = let rest = of_priority p xs in if x.priority == p then x ∷ rest else rest

pass-perm : (k : ℕ) (xs : List Network) → Perm (pass k xs) xs
unfolding pass
pass-perm zero xs = Perm.refl xs
pass-perm (suc k) [] = Perm.refl []
pass-perm (suc k) (x ∷ []) = Perm.refl (x ∷ [])
pass-perm (suc k) (x ∷ y ∷ xs) = elim (Bool-cases (ltb x.priority y.priority)) [
  | inl swap ↦ rw swap (Perm.trans (Perm.cons y (pass-perm k (x ∷ xs))) (Perm.swap x y xs))
  | inr stay ↦ rw stay (Perm.cons x (pass-perm k (y ∷ xs)))
]

rounds-perm : (m : ℕ) (xs : List Network) → Perm (rounds m xs) xs
unfolding rounds
rounds-perm zero xs = Perm.refl xs
rounds-perm (suc m) xs = Perm.trans (rounds-perm m (pass (suc m) xs)) (pass-perm (suc m) xs)

of_priority-pass : (p k : ℕ) (xs : List Network) → of_priority p (pass k xs) ≡ of_priority p xs
unfolding pass
of_priority-pass p zero xs = refl
of_priority-pass p (suc k) [] = refl
of_priority-pass p (suc k) (x ∷ []) = refl
of_priority-pass p (suc k) (x ∷ y ∷ xs) =
    ground (arith, of_priority-pass p k (x ∷ xs), of_priority-pass p k (y ∷ xs))

of_priority-rounds : (p m : ℕ) (xs : List Network) → of_priority p (rounds m xs) ≡ of_priority p xs
unfolding rounds
of_priority-rounds p zero xs = refl
of_priority-rounds p (suc m) xs =
    of_priority-rounds p m (pass (suc m) xs) ∙ of_priority-pass p (suc m) xs

-- All but the first `n` entries are in order, and none of them exceeds one of the first `n`.
abbrev OrderedFrom : ℕ → List Network → Type 0
OrderedFrom zero xs = Descending xs
OrderedFrom (suc n) [] = Unit
OrderedFrom (suc n) (x ∷ xs) = AtMost x.priority (drop n xs) × OrderedFrom n xs

OrderedFrom-nil : (n : ℕ) → OrderedFrom n []
OrderedFrom-nil zero = tt
OrderedFrom-nil (suc n) = tt

AtMost-drop_nil : (b n : ℕ) → AtMost b (drop n [])
AtMost-drop_nil b zero = tt
AtMost-drop_nil b (suc n) = tt

OrderedFrom-all : (n : ℕ) (xs : List Network) → length xs ≤ n → OrderedFrom n xs
OrderedFrom-all zero [] h = tt
OrderedFrom-all zero (x ∷ xs) h = absurd (omega arith)
OrderedFrom-all (suc n) [] h = tt
OrderedFrom-all (suc n) (x ∷ xs) h =
    (nothing_left n xs (omega arith), OrderedFrom-all n xs (omega arith))
  where
    nothing_left : (k : ℕ) (ys : List Network) → length ys ≤ k → AtMost x.priority (drop k ys)
    nothing_left k [] h' = AtMost-drop_nil x.priority k
    nothing_left zero (y ∷ ys) h' = absurd (omega arith)
    nothing_left (suc k) (y ∷ ys) h' = nothing_left k ys (omega arith)

-- The entry that a pass carries on only gets smaller.
AtMost-pass :
    (b k : ℕ) (x : Network) (xs : List Network)
    → x.priority ≤ b
    → AtMost b (drop k xs)
    → AtMost b (drop k (pass k (x ∷ xs)))
unfolding pass
AtMost-pass b zero x xs h t = (h, t)
AtMost-pass b (suc k) x [] h t = AtMost-drop_nil b k
AtMost-pass b (suc k) x (y ∷ xs) h t = elim (Bool-cases (ltb x.priority y.priority)) [
  | inl swap ↦ rw swap (AtMost-pass b k x xs h t)
  | inr stay ↦ rw stay (AtMost-pass b k y xs (ground arith) t)
]

pass-OrderedFrom : (k : ℕ) (xs : List Network) → OrderedFrom (suc k) xs → OrderedFrom k (pass k xs)
unfolding pass
pass-OrderedFrom zero [] h = tt
pass-OrderedFrom zero (x ∷ xs) h = h
pass-OrderedFrom (suc k) [] h = tt
pass-OrderedFrom (suc k) (x ∷ []) h = (AtMost-drop_nil x.priority k, OrderedFrom-nil k)
pass-OrderedFrom (suc k) (x ∷ y ∷ xs) h = elim (Bool-cases (ltb x.priority y.priority)) [
  | inl swap ↦
      rw swap (
        AtMost-pass y.priority k x xs (ground arith) h.1.0,
        pass-OrderedFrom k (x ∷ xs) (h.0, h.1.1),
      )
  | inr stay ↦
      rw stay (
        AtMost-pass x.priority k y xs (ground arith) h.0,
        pass-OrderedFrom k (y ∷ xs) (h.1.0, h.1.1),
      )
]

rounds-Descending : (m : ℕ) (xs : List Network) → OrderedFrom (suc m) xs → Descending (rounds m xs)
unfolding rounds
rounds-Descending zero [] h = tt
rounds-Descending zero (x ∷ xs) h = h
rounds-Descending (suc m) xs h =
    rounds-Descending m (pass (suc m) xs) (pass-OrderedFrom (suc m) xs h)

short-Descending : (xs : List Network) → ltb (length xs) 2 ≡ true → Descending xs
short-Descending [] h = tt
short-Descending (x ∷ []) h = (tt, tt)
short-Descending (x ∷ y ∷ xs) h = absurd (ground arith)

sort_networks_by_priority-Descending :
    (xs : List Network) → Descending (sort_networks_by_priority xs)
unfolding sort_networks_by_priority
sort_networks_by_priority-Descending xs = elim (Bool-cases (ltb (length xs) 2)) [
  | inl short ↦ rw short (short-Descending xs short)
  | inr long ↦ rw long (
      rounds-Descending (length xs - 1) xs (OrderedFrom-all (suc (length xs - 1)) xs (omega arith)))
]

sort_networks_by_priority-perm : (xs : List Network) → Perm (sort_networks_by_priority xs) xs
unfolding sort_networks_by_priority
sort_networks_by_priority-perm xs = elim (Bool-cases (ltb (length xs) 2)) [
  | inl short ↦ rw short (Perm.refl xs)
  | inr long ↦ rw long (rounds-perm (length xs - 1) xs)
]

of_priority-sort_networks_by_priority :
    (p : ℕ) (xs : List Network) → of_priority p (sort_networks_by_priority xs) ≡ of_priority p xs
unfolding sort_networks_by_priority
of_priority-sort_networks_by_priority p xs = elim (Bool-cases (ltb (length xs) 2)) [
  | inl short ↦ rw short
  | inr long ↦ rw long (of_priority-rounds p (length xs - 1) xs)
]

-- The sort is a stable sort by falling priority: its result has the same entries as its input,
-- stands in descending order of priority, and keeps the entries of each priority in their order.
pub sort_networks_by_priority-stable :
    (xs : List Network)
    → Perm (sort_networks_by_priority xs) xs
      × Descending (sort_networks_by_priority xs)
      × ((p : ℕ) → of_priority p (sort_networks_by_priority xs) ≡ of_priority p xs)
sort_networks_by_priority-stable xs = (
  sort_networks_by_priority-perm xs,
  sort_networks_by_priority-Descending xs,
  λ p. of_priority-sort_networks_by_priority p xs,
)
