-- ===== src/Json/Step.antt =====
-- Calls of the writer as steps: the bytes that a call appends, and the comma flag and the depth that
-- it starts from and leaves.
use esp_wifi_config.Common.{
  ℕ, ◌+◌, ◌-◌, ◌<◌, ◌≡◌, refl, sym, ap, ◌∙◌, [], ◌∷◌, ◌++◌, Option, none, some, Bool, true, false,
  arith, append_assoc, length, length-append, leb, ◌==◌, if◌then◌else◌,
}
use esp_wifi_config.Common.Bytes.{Bytes}
use esp_wifi_config.Json.{
  Writer, Sink, json_max_depth, w_raw, w_key, w_pre, w_open, w_close, w_escaped,
}
use esp_wifi_config.Json.Raw.{
  Accepts, Live, Fits, Fits-eq, Fits-set, out, Writes, Writes-nothing, Writes-then, w_raw-Writes,
}
use esp_wifi_config.Json.Text.{escape_text, w_escaped-Writes}

abbrev pub comma : Bool → Bytes
comma c = if c then b',' ∷ [] else []

abbrev pub quoted : Bytes → Bytes
quoted s = 34 ∷ [] ++ (escape_text s ++ 34 ∷ [])

abbrev pub key_text : Option Bytes → Bytes
key_text none = []
key_text (some key) = 34 ∷ [] ++ (escape_text key ++ 34 ∷ b':' ∷ [])

module _ {Ctx : Type 0} (log : Ctx → Bytes) (sink : Option (Sink Ctx)) where
  -- From `w` to `w'` the bytes `s` were written, and the comma flag and the depth are these.
  pub record Moved (w : Writer Ctx) (s : Bytes) (c : Bool) (d : ℕ) (w' : Writer Ctx) : Type 0 where
    pub live : Live w'
    pub same_cap : w'.cap ≡ w.cap
    pub now_comma : w'.need_comma ≡ c
    pub now_depth : w'.depth ≡ d
    pub appended : out log w' ≡ out log w ++ s

  abbrev pub Step : Bytes → Bool → ℕ → Bool → ℕ → (Writer Ctx → Writer Ctx) → Type 0
  Step s c0 d0 c1 d1 f =
      (w : Writer Ctx) (n : ℕ)
      → Live w
      → w.need_comma ≡ c0
      → w.depth ≡ d0
      → Fits sink w (length s + n)
      → Moved w s c1 d1 (f w) × Fits sink (f w) n

  pub Writes-Step :
      {s : Bytes} {f : Writer Ctx → Writer Ctx} (c : Bool) (d : ℕ)
      → Writes log sink s f
      → Step s c d c d f
  Writes-Step c d p w n live hc hd fits =
      let (wrote, more) = p w n live fits in
      (
        record {
          live = wrote.live;
          same_cap = wrote.same_cap;
          now_comma = wrote.same_comma ∙ hc;
          now_depth = wrote.same_depth ∙ hd;
          appended = wrote.appended;
        },
        more,
      )

  pub Step-then :
      {s t : Bytes} {c0 c1 c2 : Bool} {d0 d1 d2 : ℕ} {f g : Writer Ctx → Writer Ctx}
      → Step s c0 d0 c1 d1 f
      → Step t c1 d1 c2 d2 g
      → Step (s ++ t) c0 d0 c2 d2 (λ w. g (f w))
  Step-then {s} {t} {f = f} p q w n live hc hd fits =
      let (one, fits1) =
        p w (length t + n) live hc hd
          (Fits-eq log sink w (omega (arith, length-append s t)) fits) in
      let (two, fits2) = q (f w) n one.live one.now_comma one.now_depth fits1 in
      (
        record {
          live = two.live;
          same_cap = two.same_cap ∙ one.same_cap;
          now_comma = two.now_comma;
          now_depth = two.now_depth;
          appended =
              two.appended ∙ ap (λ (u : Bytes). u ++ t) one.appended ∙ append_assoc (out log w) s t;
        },
        fits2,
      )

  -- The same step, of a call that does the same on the writers that it starts from.
  pub Step-eq :
      {s t : Bytes} {c0 c1 : Bool} {d0 d1 : ℕ} {f g : Writer Ctx → Writer Ctx}
      → s ≡ t
      → ((w : Writer Ctx) → w.need_comma ≡ c0 → w.depth ≡ d0 → f w ≡ g w)
      → Step s c0 d0 c1 d1 f
      → Step t c0 d0 c1 d1 g
  Step-eq {t = t} {f = f} {g = g} e same p w n live hc hd fits =
      let ran =
        p w n live hc hd (Fits-eq log sink w (ap (λ (u : Bytes). length u + n) (sym e)) fits) in
      rw (← same w hc hd, ← e) ran

  pub Step-ends :
      {s : Bytes} {c0 c1 c2 : Bool} {d0 d1 d2 : ℕ} {f : Writer Ctx → Writer Ctx}
      → c1 ≡ c2
      → d1 ≡ d2
      → Step s c0 d0 c1 d1 f
      → Step s c0 d0 c2 d2 f
  Step-ends hc hd p w n live hc0 hd0 fits =
      let (moved, more) = p w n live hc0 hd0 fits in
      (
        record {
          live = moved.live;
          same_cap = moved.same_cap;
          now_comma = moved.now_comma ∙ hc;
          now_depth = moved.now_depth ∙ hd;
          appended = moved.appended;
        },
        more,
      )

  -- A step that goes on to set the flag and to change the depth.
  pub Step-set :
      {s : Bytes} {c0 c : Bool} {d0 d : ℕ} {f : Writer Ctx → Writer Ctx} (c1 : Bool) (g : ℕ → ℕ)
      → Step s c0 d0 c d f
      → Step s c0 d0 c1 (g d) (λ w. record (f w) { need_comma = c1; depth = g (f w).depth })
  Step-set {f = f} c1 g p w n live hc hd fits =
      let (moved, more) = p w n live hc hd fits in
      (
        record {
          live = record {
            fine = moved.live.fine;
            within = moved.live.within;
            some_cap = moved.live.some_cap;
          };
          same_cap = moved.same_cap;
          now_comma = refl;
          now_depth = ap g moved.now_depth;
          appended = moved.appended;
        },
        Fits-set log sink (f w) c1 (g (f w).depth) n more,
      )

not_deep : (m d : ℕ) → m ≡ d → d < json_max_depth → leb json_max_depth m ≡ false
not_deep m d e room = ground arith

not_outside : (m d : ℕ) → m ≡ d → 0 < d → (m == 0) ≡ false
not_outside m d e inside = ground arith

module _ {Ctx : Type 0} (log : Ctx → Bytes) (sink : Option (Sink Ctx))
    (accepts : Accepts sink log) where
  raw : (s : Bytes) → Writes log sink s (w_raw sink s)
  raw s = w_raw-Writes log sink accepts s

  w_key-Writes : (key : Option Bytes) → Writes log sink (key_text key) (w_key sink key)
  unfolding w_key
  w_key-Writes none = Writes-nothing log sink accepts
  w_key-Writes (some key) =
      Writes-then log sink accepts (raw (34 ∷ [])) (
        Writes-then log sink accepts (w_escaped-Writes log sink accepts key) (raw (34 ∷ b':' ∷ [])))

  comma-Writes :
      (c : Bool) → Writes log sink (comma c) (λ w. if c then w_raw sink (b',' ∷ []) w else w)
  comma-Writes true = raw (b',' ∷ [])
  comma-Writes false = Writes-nothing log sink accepts

  comma-Step :
      (c : Bool) (d : ℕ)
      → Step log sink (comma c) c d c d (λ w. if w.need_comma then w_raw sink (b',' ∷ []) w else w)
  comma-Step c d =
      Step-eq log sink refl (λ w hc hd. rw hc refl) (Writes-Step log sink c d (comma-Writes c))

  pub w_pre-Step :
      (key : Option Bytes) (c : Bool) (d : ℕ)
      → Step log sink (comma c ++ key_text key) c d true d (w_pre sink key)
  unfolding w_pre
  w_pre-Step key c d =
      Step-set log sink true (λ m. m)
        (Step-then log sink (comma-Step c d) (Writes-Step log sink c d (w_key-Writes key)))

  pub quoted-Writes :
      (s : Bytes)
      → Writes log sink
          (quoted s)
          (λ w. w_raw sink (34 ∷ []) (w_escaped sink (some s) (w_raw sink (34 ∷ []) w)))
  quoted-Writes s =
      Writes-then log sink accepts (raw (34 ∷ []))
        (Writes-then log sink accepts (w_escaped-Writes log sink accepts s) (raw (34 ∷ [])))

  pub w_open-Step :
      (key : Option Bytes) (brace : ℕ) (c : Bool) (d : ℕ)
      → d < json_max_depth
      → Step log sink
          ((comma c ++ key_text key) ++ brace ∷ [])
          c
          d
          false
          (d + 1)
          (w_open sink key brace)
  unfolding w_open
  w_open-Step key brace c d room =
      Step-eq log sink refl (λ w hc hd. rw (not_deep w.depth d hd room, w_open) refl)
        (Step-set log sink false (λ m. m + 1)
          (Step-then log sink (w_pre-Step key c d)
            (Writes-Step log sink true d (raw (brace ∷ [])))))

  pub w_close-Step :
      (brace : ℕ) (c : Bool) (d : ℕ)
      → 0 < d
      → Step log sink (brace ∷ []) c d true (d - 1) (w_close sink brace)
  unfolding w_close
  w_close-Step brace c d inside =
      Step-eq log sink refl (λ w hc hd. rw (not_outside w.depth d hd inside, w_close) refl)
        (Step-set log sink true (λ m. m - 1) (Writes-Step log sink c d (raw (brace ∷ []))))
