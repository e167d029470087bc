-- ===== src/Network/Connect/Attempts.antt =====
-- The networks in turn: which attempt of a connect sequence comes up.
use mathlib.Core.Path.{subst}
use esp_wifi_config.Common.{
  ℕ, zero, suc, ◌+◌, ◌≤◌, ◌<◌, ◌≡◌, ◌≢◌, ◌⊎◌, refl, ap, ◌∙◌, List, [], ◌∷◌, inl, inr, arith,
  Bool-cases, ==_iff, ◌==◌, length, take,
}
use esp_wifi_config.Network.Types.{Network}
use esp_wifi_config.Network.Connect.{
  Outcome, stop_before, connect_error, stop_waiting, came_up, failed, stop_delaying, Action, Tried,
  is_up, is_stopped, given_up, Retries, round, try_retries, Course, goes_on, try_networks,
  Connecting,
}

-- No stop request comes in.
abbrev pub GoesOn : Outcome → Type 0
GoesOn x = (x ≢ stop_before) × (x ≢ stop_waiting) × (x ≢ stop_delaying)

pub nonempty :
    (ns : List Network)
    → 0 < length ns
    → (x y : Connecting) → (elim ns as (λ _. Connecting) [ [] ↦ x | ◌∷◌ _ _ ↦ y ]) ≡ y
nonempty [] h x y = absurd (omega arith)
nonempty (n ∷ ns) h x y = refl

module _ (cfg : Retries) where
  -- A round that is not stopped comes up, or ends as the later rounds do.
  round-cases :
      (left retry : ℕ) (rest : Tried × List Action) (x : Outcome)
      → GoesOn x
      → ((x ≡ came_up) × ((round cfg left retry rest x).0 ≡ is_up))
        ⊎ ((x ≢ came_up) × ((round cfg left retry rest x).0 ≡ rest.0))
  round-cases left retry rest came_up go = inl (refl, refl)
  round-cases left retry rest connect_error go = inr (ground arith, refl)
  round-cases left retry rest failed go = inr (
    ground arith,
    elim (Bool-cases (left == 0)) [ inl last ↦ rw last refl | inr more ↦ rw more refl ],
  )
  round-cases left retry rest stop_before go = absurd (go.0 refl)
  round-cases left retry rest stop_waiting go = absurd (go.1 refl)
  round-cases left retry rest stop_delaying go = absurd (go.2 refl)

  abbrev pub ComesUp : (ℕ → Outcome) → ℕ → ℕ → Type 0
  ComesUp outcome from until = (r : ℕ) × (from ≤ r) × (r < until) × (outcome r ≡ came_up)

  abbrev pub StaysDown : (ℕ → Outcome) → ℕ → ℕ → Type 0
  StaysDown outcome from until = (r : ℕ) → from ≤ r → r < until → outcome r ≢ came_up

  try_retries-cases :
      (outcome : ℕ → Outcome) (left retry : ℕ)
      → ((r : ℕ) → GoesOn (outcome r))
      → (((try_retries cfg outcome left retry).0 ≡ is_up) × ComesUp outcome retry (retry + left))
        ⊎ (((try_retries cfg outcome left retry).0 ≡ given_up)
            × StaysDown outcome retry (retry + left))
  unfolding try_retries
  try_retries-cases outcome zero retry go = inr (refl, λ r low high. absurd (omega arith))
  try_retries-cases outcome (suc left) retry go =
      elim (round-cases left retry (try_retries cfg outcome left (retry + 1)) (outcome retry)
        (go retry)) [
          | inl (up, ends) ↦ inl (ends, (retry, omega arith, omega arith, up))
          | inr (down, ends) ↦ elim (try_retries-cases outcome left (retry + 1) go) [
            | inl (later, (r, low, high, up)) ↦
                inl (ends ∙ later, (r, omega arith, omega arith, up))
            | inr (later, none_up) ↦ inr (
              ends ∙ later,
              λ r low high. elim (Bool-cases (r == retry)) [
                | inl same ↦ rw ((==_iff r retry).0 same) down
                | inr other ↦ none_up r (grind (arith, ==_iff r retry)) (omega arith)
              ],
            )
          ]
        ]

  abbrev pub max : ℕ
  max = cfg.max_retry_per_network

  -- The network behind `k` others is the first to come up, from the index `i` on.
  pub record FirstUp (outcome : ℕ → ℕ → Outcome) (i : ℕ) (ns : List Network) (k : ℕ) : Type 0 where
    pub in_list : k < length ns
    pub comes_up : ComesUp (outcome (i + k)) 0 (0 + max)
    pub others_down : (j : ℕ) → j < k → StaysDown (outcome (i + j)) 0 (0 + max)

  abbrev pub AllDown : (ℕ → ℕ → Outcome) → ℕ → List Network → Type 0
  AllDown outcome i ns = (j : ℕ) → j < length ns → StaysDown (outcome (i + j)) 0 (0 + max)

  FirstUp-later :
      (outcome : ℕ → ℕ → Outcome) (i : ℕ) (n : Network) (ns : List Network) (k : ℕ)
      → StaysDown (outcome i) 0 (0 + max)
      → FirstUp outcome (i + 1) ns k
      → FirstUp outcome i (n ∷ ns) (suc k)
  FirstUp-later outcome i n ns k down first = record {
    in_list = omega (arith, first.in_list);
    comes_up = subst (λ (m : ℕ). ComesUp (outcome m) 0 (0 + max)) (omega arith) first.comes_up;
    others_down = others;
  }
    where
      others : (j : ℕ) → j < suc k → StaysDown (outcome (i + j)) 0 (0 + max)
      others zero h = subst (λ (m : ℕ). StaysDown (outcome m) 0 (0 + max)) (omega arith) down
      others (suc j) h =
          subst (λ (m : ℕ). StaysDown (outcome m) 0 (0 + max)) (omega arith)
            (first.others_down j (omega arith))

  AllDown-later :
      (outcome : ℕ → ℕ → Outcome) (i : ℕ) (n : Network) (ns : List Network)
      → StaysDown (outcome i) 0 (0 + max)
      → AllDown outcome (i + 1) ns
      → AllDown outcome i (n ∷ ns)
  AllDown-later outcome i n ns down rest zero h =
      subst (λ (m : ℕ). StaysDown (outcome m) 0 (0 + max)) (omega arith) down
  AllDown-later outcome i n ns down rest (suc j) h =
      subst (λ (m : ℕ). StaysDown (outcome m) 0 (0 + max)) (omega arith) (rest j (omega arith))

  goes_on-up :
      (n : Network) (t : Tried × List Action) (i : ℕ) (rest : Course cfg)
      → t.0 ≡ is_up
      → ((goes_on cfg n t i rest).ending ≡ is_up) × ((goes_on cfg n t i rest).tried ≡ n ∷ [])
  goes_on-up n (is_up, acts) i rest e = (refl, refl)
  goes_on-up n (is_stopped, acts) i rest e = absurd (ground arith)
  goes_on-up n (given_up, acts) i rest e = absurd (ground arith)

  goes_on-given_up :
      (n : Network) (t : Tried × List Action) (i : ℕ) (rest : Course cfg)
      → t.0 ≡ given_up
      → ((goes_on cfg n t i rest).ending ≡ rest.ending)
        × ((goes_on cfg n t i rest).tried ≡ n ∷ rest.tried)
  goes_on-given_up n (given_up, acts) i rest e = (refl, refl)
  goes_on-given_up n (is_stopped, acts) i rest e = absurd (ground arith)
  goes_on-given_up n (is_up, acts) i rest e = absurd (ground arith)

  pub try_networks-cases :
      (outcome : ℕ → ℕ → Outcome) (i : ℕ) (ns : List Network)
      → ((j r : ℕ) → GoesOn (outcome j r))
      → (((try_networks cfg outcome i ns).ending ≡ is_up)
          × ((k : ℕ) × FirstUp outcome i ns k
              × ((try_networks cfg outcome i ns).tried ≡ take (suc k) ns)))
        ⊎ (((try_networks cfg outcome i ns).ending ≡ given_up)
            × AllDown outcome i ns
            × ((try_networks cfg outcome i ns).tried ≡ ns))
  unfolding try_networks
  try_networks-cases outcome i [] go = inr (refl, λ j h. absurd (omega arith), refl)
  try_networks-cases outcome i (n ∷ ns) go = elim (try_retries-cases (outcome i) max 0 (go i)) [
    | inl (up, comes) ↦
        let (ends, only) =
          goes_on-up n (try_retries cfg (outcome i) max 0) i (try_networks cfg outcome (i + 1) ns)
            up in
        inl (
          ends,
          (
            0,
            record {
              in_list = omega arith;
              comes_up = subst (λ (m : ℕ). ComesUp (outcome m) 0 (0 + max)) (omega arith) comes;
              others_down = λ j h. absurd (omega arith);
            },
            only,
          ),
        )
    | inr (down, stays) ↦
        let (ends, tried) =
          goes_on-given_up n (try_retries cfg (outcome i) max 0) i
            (try_networks cfg outcome (i + 1) ns) down in
        elim (try_networks-cases outcome (i + 1) ns go) [
          | inl (later, (k, first, others)) ↦ inl (
            ends ∙ later,
            (
              suc k,
              FirstUp-later outcome i n ns k stays first,
              tried ∙ ap (λ (xs : List Network). n ∷ xs) others,
            ),
          )
          | inr (later, rest, others) ↦ inr (
            ends ∙ later,
            AllDown-later outcome i n ns stays rest,
            tried ∙ ap (λ (xs : List Network). n ∷ xs) others,
          )
        ]
  ]
