-- ===== src/Http/Body/Depth.antt =====
-- The check of the nesting on JSON texts.
use esp_wifi_config.Common.{
  ℕ, ◌+◌, ◌-◌, ◌≤◌, ◌≡◌, ◌≢◌, refl, sym, ap, ◌∙◌, [], ◌∷◌, ◌++◌, none, some, Bool, true, false, ltb,
  leb, ==_false, if◌then◌else◌, arith, append_assoc, append-nil, Bool-cases, inl, inr,
}
use esp_wifi_config.Common.Bytes.{Bytes}
use esp_wifi_config.Json.Step.{comma, key_text}
use esp_wifi_config.Json.Document.{
  Value, str_value, int_value, bool_value, object, array, Members, no_members, member, Items,
  no_items, item, print, print_members, print_items,
}
use esp_wifi_config.Http.Body.{
  outside, max_nesting, is_open, is_close, depth_scan, json_depth_within_limit,
}
use esp_wifi_config.Http.Body.Scan.{
  Skips-append, quoted_scan, plain-Skips, numeral-Skips, comma-Skips, letters-Skips,
}

abbrev pub max : ℕ → ℕ → ℕ
max a b = if leb a b then b else a

unfoldable mutual
  -- How deep objects and arrays nest in a value.
  pub nesting : Value → ℕ
  nesting (str_value s) = 0
  nesting (int_value n) = 0
  nesting (bool_value b) = 0
  nesting (object ms) = nesting_members ms + 1
  nesting (array xs) = nesting_items xs + 1

  pub nesting_members : Members → ℕ
  nesting_members no_members = 0
  nesting_members (member key v ms) = max (nesting v) (nesting_members ms)

  pub nesting_items : Items → ℕ
  nesting_items no_items = 0
  nesting_items (item v xs) = max (nesting v) (nesting_items xs)

-- What is left of a scan behind a part that reaches the depth `n`.
abbrev within : ℕ → Bool → Bool
within n x = if leb n max_nesting then x else false

within-flat : (d : ℕ) (x : Bool) → d ≤ 16 → within (d + 0) x ≡ x
within-flat d x h = ground arith

within-max : (d a b : ℕ) (x : Bool) → within (d + a) (within (d + b) x) ≡ within (d + max a b) x
within-max d a b x = ground arith

-- A container, whose contents reach the depth `n` from the one inside of it.
wrapped_scan :
    (open_brace close_brace d n : ℕ) (contents rest : Bytes)
    → d ≤ 16
    → (open_brace ≢ 34) × (is_open open_brace ≡ true)
    → (close_brace ≢ 34) × (is_open close_brace ≡ false) × (is_close close_brace ≡ true)
    → (d + 1 ≤ 16
        → (behind : Bytes)
        → depth_scan outside (d + 1) (contents ++ behind)
          ≡ within (d + 1 + n) (depth_scan outside (d + 1) behind))
    → depth_scan outside d (open_brace ∷ ((contents ++ close_brace ∷ []) ++ rest))
      ≡ within (d + (n + 1)) (depth_scan outside d rest)
unfolding depth_scan
wrapped_scan open_brace close_brace d n contents rest h (o1, o2) (c1, c2, c3) inner =
    elim (Bool-cases (ltb 16 (d + 1))) [
      | inl deep ↦
          let over : leb (d + (n + 1)) 16 ≡ false = ground arith in rw o2 (rw deep (rw over refl))
      | inr shallow ↦
          let shallow' : ltb 16 d ≡ false = ground arith in
          let back : d + 1 - 1 ≡ d = omega arith in
          let closed : depth_scan outside (d + 1) (close_brace ∷ rest) ≡ depth_scan outside d rest =
            rw c2 (rw c3 (rw back (rw shallow' (rw (==_false close_brace 34 c1) refl)))) in
          rw o2 (
            rw shallow (
              rw (==_false open_brace 34 o1) (
                ap (depth_scan outside (d + 1)) (append_assoc contents (close_brace ∷ []) rest)
                ∙ inner (ground arith) (close_brace ∷ rest)
                ∙ ap (within (d + 1 + n)) closed
                ∙ ap (λ (k : ℕ). within k (depth_scan outside d rest)) (omega arith))))
    ]

mutual
  unfolding print print_members print_items nesting nesting_members nesting_items

  print_scan :
      (v : Value) (d : ℕ) (rest : Bytes)
      → d ≤ 16
      → depth_scan outside d (print v ++ rest) ≡ within (d + nesting v) (depth_scan outside d rest)
  print_scan (str_value s) d rest h =
      quoted_scan d s [] h (λ r. refl) rest ∙ sym (within-flat d _ h)
  print_scan (int_value n) d rest h = numeral-Skips d n h rest ∙ sym (within-flat d _ h)
  print_scan (bool_value b) d rest h = letters-Skips d b h rest ∙ sym (within-flat d _ h)
  print_scan (object ms) d rest h =
      wrapped_scan b'{' b'}' d (nesting_members ms) (print_members false ms) rest h
        (ground arith, refl) (ground arith, refl, refl)
        (λ deeper behind. members_scan false ms (d + 1) behind deeper)
  print_scan (array xs) d rest h =
      wrapped_scan b'[' b']' d (nesting_items xs) (print_items false xs) rest h (ground arith, refl)
        (ground arith, refl, refl) (λ deeper behind. items_scan false xs (d + 1) behind deeper)

  members_scan :
      (c : Bool) (ms : Members) (d : ℕ) (rest : Bytes)
      → d ≤ 16
      → depth_scan outside d (print_members c ms ++ rest)
        ≡ within (d + nesting_members ms) (depth_scan outside d rest)
  members_scan c no_members d rest h = sym (within-flat d _ h)
  members_scan c (member key v ms) d rest h =
      let front = comma c ++ key_text (some key) in
      let later = print_members true ms in
      ap (depth_scan outside d)
        (append_assoc (front ++ print v) later rest ∙ append_assoc front (print v) (later ++ rest))
      ∙ Skips-append outside d (comma c) (key_text (some key)) (comma-Skips d c h)
          (quoted_scan d key (b':' ∷ []) h
            (plain-Skips d (b':' ∷ []) h ((ground arith, refl, refl), tt)))
          (print v ++ (later ++ rest))
      ∙ print_scan v d (later ++ rest) h
      ∙ ap (within (d + nesting v)) (members_scan true ms d rest h)
      ∙ within-max d (nesting v) (nesting_members ms) _

  items_scan :
      (c : Bool) (xs : Items) (d : ℕ) (rest : Bytes)
      → d ≤ 16
      → depth_scan outside d (print_items c xs ++ rest)
        ≡ within (d + nesting_items xs) (depth_scan outside d rest)
  items_scan c no_items d rest h = sym (within-flat d _ h)
  items_scan c (item v xs) d rest h =
      let front = comma c ++ key_text none in
      let later = print_items true xs in
      ap (depth_scan outside d)
        (append_assoc (front ++ print v) later rest ∙ append_assoc front (print v) (later ++ rest))
      ∙ Skips-append outside d (comma c) (key_text none) (comma-Skips d c h) (λ r. refl)
          (print v ++ (later ++ rest))
      ∙ print_scan v d (later ++ rest) h
      ∙ ap (within (d + nesting v)) (items_scan true xs d rest h)
      ∙ within-max d (nesting v) (nesting_items xs) _

-- The JSON text of a value passes the check exactly if its objects and arrays nest at most sixteen
-- deep: brackets inside of strings and keys do not count, whatever they hold and however they are
-- escaped.
pub json_depth_within_limit-print :
    (v : Value) → json_depth_within_limit (print v) ≡ leb (nesting v) max_nesting
unfolding json_depth_within_limit depth_scan
json_depth_within_limit-print v =
    sym (ap (depth_scan outside 0) (append-nil (print v)))
    ∙ print_scan v 0 [] (omega arith)
    ∙ at_end (nesting v)
  where
    at_end : (n : ℕ) → within (0 + n) true ≡ leb n max_nesting
    at_end n = ground arith
