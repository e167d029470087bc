-- ===== src/Json/Emit.antt =====
-- The calls for a value write its text, for buffers of any size.
use esp_wifi_config.Common.{
  ℕ, ◌+◌, ◌-◌, ◌≤◌, ◌≡◌, refl, [], ◌∷◌, ◌++◌, Option, none, some, Bool, true, false, arith,
  append_assoc,
}
use esp_wifi_config.Common.Bytes.{Bytes}
use esp_wifi_config.Json.{
  Writer, Sink, json_max_depth, json_obj_open, json_obj_close, json_arr_open, json_arr_close,
  json_str, json_int, json_bool,
}
use esp_wifi_config.Json.Raw.{Accepts, w_raw-Writes, Writes-nothing}
use esp_wifi_config.Json.Number.{w_int-Writes}
use esp_wifi_config.Json.Step.{
  comma, key_text, Step, Step-eq, Step-ends, Step-then, Writes-Step, w_pre-Step, quoted-Writes,
  w_open-Step, w_close-Step,
}
use esp_wifi_config.Json.Document.{
  Value, str_value, int_value, bool_value, object, array, Members, no_members, member, Items,
  no_items, item, print, print_members, print_items, Writable, WritableMembers, WritableItems, emit,
  emit_members, emit_items,
}

-- The comma flag behind a row of members or items.
abbrev left_members : Bool → Members → Bool
left_members c no_members = c
left_members c (member key v ms) = true

abbrev left_items : Bool → Items → Bool
left_items c no_items = c
left_items c (item v xs) = true

left_members-true : (ms : Members) → left_members true ms ≡ true
left_members-true no_members = refl
left_members-true (member key v ms) = refl

left_items-true : (xs : Items) → left_items true xs ≡ true
left_items-true no_items = refl
left_items-true (item v xs) = refl

module _ {Ctx : Type 0} (log : Ctx → Bytes) (sink : Option (Sink Ctx))
    (accepts : Accepts sink log) where
  -- A container: the opening brace, what stands inside, and the closing brace.
  wrapped :
      (key : Option Bytes) (open_brace close_brace : ℕ) (inside : Bytes) (c c1 : Bool) (d : ℕ)
      {f g h : Writer Ctx → Writer Ctx}
      → Step log sink ((comma c ++ key_text key) ++ open_brace ∷ []) c d false (d + 1) f
      → Step log sink inside false (d + 1) c1 (d + 1) g
      → Step log sink (close_brace ∷ []) c1 (d + 1) true (d + 1 - 1) h
      → Step log sink
          ((comma c ++ key_text key) ++ (open_brace ∷ [] ++ (inside ++ close_brace ∷ [])))
          c
          d
          true
          d
          (λ w. h (g (f w)))
  wrapped key open_brace close_brace inside c c1 d p q r = Step-ends log sink refl (omega arith) (
      Step-eq log sink
        (append_assoc (comma c ++ key_text key) (open_brace ∷ []) (inside ++ close_brace ∷ []))
        (λ w hc hd. refl) (Step-then log sink p (Step-then log sink q r)))

  mutual
    unfolding emit emit_members emit_items Writable WritableMembers WritableItems print
        print_members print_items json_str json_int json_bool json_obj_open json_obj_close
        json_arr_open json_arr_close

    pub emit-Step :
        (key : Option Bytes) (v : Value) (c : Bool) (d r : ℕ)
        → d + r ≤ json_max_depth
        → Writable r v
        → Step log sink ((comma c ++ key_text key) ++ print v) c d true d (emit sink key v)
    emit-Step key (str_value s) c d r deep ok =
        Step-then log sink (w_pre-Step log sink accepts key c d)
          (Writes-Step log sink true d (quoted-Writes log sink accepts s))
    emit-Step key (int_value n) c d r deep ok =
        Step-then log sink (w_pre-Step log sink accepts key c d)
          (Writes-Step log sink true d (w_int-Writes log sink accepts n ok))
    emit-Step key (bool_value b) c d r deep ok =
        Step-then log sink (w_pre-Step log sink accepts key c d)
          (Writes-Step log sink true d (w_raw-Writes log sink accepts _))
    emit-Step key (object ms) c d r deep (some_depth, ok) =
        wrapped key b'{' b'}' (print_members false ms) c _ d
          (w_open-Step log sink accepts key b'{' c d (omega arith))
          (emit_members-Step ms false (d + 1) (r - 1) (omega arith) ok)
          (w_close-Step log sink accepts b'}' _ (d + 1) (omega arith))
    emit-Step key (array xs) c d r deep (some_depth, ok) =
        wrapped key b'[' b']' (print_items false xs) c _ d
          (w_open-Step log sink accepts key b'[' c d (omega arith))
          (emit_items-Step xs false (d + 1) (r - 1) (omega arith) ok)
          (w_close-Step log sink accepts b']' _ (d + 1) (omega arith))

    emit_members-Step :
        (ms : Members) (c : Bool) (d r : ℕ)
        → d + r ≤ json_max_depth
        → WritableMembers r ms
        → Step log sink (print_members c ms) c d (left_members c ms) d (emit_members sink ms)
    emit_members-Step no_members c d r deep ok =
        Writes-Step log sink c d (Writes-nothing log sink accepts)
    emit_members-Step (member key v ms) c d r deep (ok, oks) =
        Step-ends log sink (left_members-true ms) refl (
          Step-then log sink (emit-Step (some key) v c d r deep ok)
            (emit_members-Step ms true d r deep oks))

    emit_items-Step :
        (xs : Items) (c : Bool) (d r : ℕ)
        → d + r ≤ json_max_depth
        → WritableItems r xs
        → Step log sink (print_items c xs) c d (left_items c xs) d (emit_items sink xs)
    emit_items-Step no_items c d r deep ok =
        Writes-Step log sink c d (Writes-nothing log sink accepts)
    emit_items-Step (item v xs) c d r deep (ok, oks) =
        Step-ends log sink (left_items-true xs) refl (
          Step-then log sink (emit-Step none v c d r deep ok)
            (emit_items-Step xs true d r deep oks))
