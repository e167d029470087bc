-- ===== src/Json/Raw.antt =====
-- `w_raw` appends the bytes that it is given, in buffer mode as long as they fit and in streaming
-- mode for as long as the sink takes them, whatever the size of the scratch buffer.
use mathlib.Core.Path.{subst}
use native.Mathlib.Nat as Nat
use esp_wifi_config.Common.{
  ==_iff, ◌<◌, ℕ, zero, suc, ◌+◌, ◌-◌, ◌≤◌, ◌<◌, ◌≡◌, refl, sym, ap, ◌∙◌, [], ◌∷◌, ◌++◌, Option,
  none, some, Bool, inl, inr, arith, length, take, drop, ◌==◌, if◌then◌else◌, Bool-cases,
  append_assoc, append-nil, length-append, length-take, length-drop, take-append-drop,
}
use esp_wifi_config.Common.Bytes.{Bytes}
use esp_wifi_config.Json.{
  Writer, Sink, WriteErr, write_ok, is_ok, w_raw, w_raw_loop, flush_full, copy_some,
}

-- A sink that takes whatever it is given, and the bytes that its context shows it to have taken.
abbrev pub Accepts : {Ctx : Type 0} → Option (Sink Ctx) → (Ctx → Bytes) → Type 0
Accepts none log = Unit
Accepts {Ctx} (some f) log =
    (c : Ctx) (d : Bytes) → ((f c d).0 ≡ write_ok) × (log (f c d).1 ≡ log c ++ d)

-- There is room for `n` more bytes: in streaming mode there always is.
abbrev pub Fits : {Ctx : Type 0} → Option (Sink Ctx) → Writer Ctx → ℕ → Type 0
Fits none w n = length w.buf + n ≤ w.cap
Fits (some f) w n = Unit

-- The writer is at work: no error, and a buffer with at most its capacity in it.
pub record Live {Ctx : Type 0} (w : Writer Ctx) : Type 0 where
  pub fine : w.err ≡ write_ok
  pub within : length w.buf ≤ w.cap
  pub some_cap : 0 < w.cap

pub if-is_ok :
    {A : Type 0} {e : WriteErr} → e ≡ write_ok → (x y : A) → (if is_ok e then x else y) ≡ x
if-is_ok h x y = rw h refl

module _ {Ctx : Type 0} (log : Ctx → Bytes) where
  -- All the output so far: what the sink has taken and what waits in the buffer.
  abbrev pub out : Writer Ctx → Bytes
  out w = log w.ctx ++ w.buf

  -- From `w` to `w'` the bytes `s` were written and nothing else of note changed.
  pub record Wrote (w : Writer Ctx) (s : Bytes) (w' : Writer Ctx) : Type 0 where
    pub live : Live w'
    pub same_cap : w'.cap ≡ w.cap
    pub same_comma : w'.need_comma ≡ w.need_comma
    pub same_depth : w'.depth ≡ w.depth
    pub appended : out w' ≡ out w ++ s

  module _ (sink : Option (Sink Ctx)) (accepts : Accepts sink log) where
    -- Written `w'` from `w`, with room for `n` more bytes left.
    abbrev pub WroteFits : Writer Ctx → Bytes → ℕ → Writer Ctx → Type 0
    WroteFits w s n w' = Wrote w s w' × Fits sink w' n

    pub Wrote-nothing : (w : Writer Ctx) → Live w → Wrote w [] w
    Wrote-nothing w live = record {
      live = live;
      same_cap = refl;
      same_comma = refl;
      same_depth = refl;
      appended = sym (append-nil (out w));
    }

    pub Wrote-trans :
        {w w' w'' : Writer Ctx} {s t : Bytes} → Wrote w s w' → Wrote w' t w'' → Wrote w (s ++ t) w''
    Wrote-trans {w} {s = s} {t = t} p q = record {
      live = q.live;
      same_cap = q.same_cap ∙ p.same_cap;
      same_comma = q.same_comma ∙ p.same_comma;
      same_depth = q.same_depth ∙ p.same_depth;
      appended = q.appended ∙ ap (λ (u : Bytes). u ++ t) p.appended ∙ append_assoc (out w) s t;
    }

    -- A round of the loop: what fits is copied.
    copy_some-Wrote :
        (s : Bytes) (w : Writer Ctx)
        → Live w
        → Wrote w (take (w.cap - length w.buf) s) (copy_some s w)
    unfolding copy_some
    copy_some-Wrote s w live = record {
      live = record {
        fine = live.fine;
        within = omega (
          arith,
          live.within,
          length-append w.buf (take (w.cap - length w.buf) s),
          length-take (w.cap - length w.buf) s,
        );
        some_cap = live.some_cap;
      };
      same_cap = refl;
      same_comma = refl;
      same_depth = refl;
      appended = sym (append_assoc (log w.ctx) w.buf (take (w.cap - length w.buf) s));
    }

  flush_full-Wrote :
      (sink : Option (Sink Ctx)) (accepts : Accepts sink log) (w : Writer Ctx) (n : ℕ)
      → Live w
      → w.cap - length w.buf ≡ 0
      → Fits sink w (suc n)
      → Wrote w [] (flush_full sink w)
        × (length (flush_full sink w).buf ≡ 0)
        × Fits sink (flush_full sink w) (suc n)
  unfolding flush_full
  flush_full-Wrote none accepts w n live full fits = absurd (omega arith)
  flush_full-Wrote (some f) accepts w n live full fits = rw (accepts w.ctx w.buf).0 (
    record {
      live = record { fine = live.fine; within = omega arith; some_cap = live.some_cap };
      same_cap = refl;
      same_comma = refl;
      same_depth = refl;
      appended =
          append-nil (log (f w.ctx w.buf).1) ∙ (accepts w.ctx w.buf).1 ∙ sym (append-nil (out w));
    },
    refl,
    tt,
  )

  -- The room that a run of bytes needs is used up by writing its first part.
  Fits-drop :
      (sink : Option (Sink Ctx)) (w : Writer Ctx) (s : Bytes) (n : ℕ)
      → Live w
      → Fits sink w (length s + n)
      → Fits sink (copy_some s w) (length (drop (w.cap - length w.buf) s) + n)
  unfolding copy_some
  Fits-drop none w s n live fits = omega (
    arith,
    length-append w.buf (take (w.cap - length w.buf) s),
    length-take (w.cap - length w.buf) s,
    length-drop (w.cap - length w.buf) s,
  )
  Fits-drop (some f) w s n live fits = tt

  -- The writer that a round copies into: the buffer is flushed if it is full.
  abbrev flushed : Option (Sink Ctx) → Writer Ctx → Writer Ctx
  flushed sink w = if w.cap - length w.buf == 0 then flush_full sink w else w

  flushed-Wrote :
      (sink : Option (Sink Ctx)) (accepts : Accepts sink log) (w : Writer Ctx) (n : ℕ)
      → Live w
      → Fits sink w (suc n)
      → Wrote w [] (flushed sink w)
        × (length (flushed sink w).buf < (flushed sink w).cap)
        × Fits sink (flushed sink w) (suc n)
  flushed-Wrote sink accepts w n live fits = elim (Bool-cases (w.cap - length w.buf == 0)) [
    | inl full ↦
        let (wrote, emptied, room) =
          flush_full-Wrote sink accepts w n live ((==_iff _ _).0 full) fits in
        rw full (wrote, omega (arith, wrote.live.some_cap), room)
    | inr some_room ↦ rw some_room (
      Wrote-nothing sink accepts w live,
      grind (arith, live.within, ==_iff (w.cap - length w.buf) 0),
      fits,
    )
  ]

  Wrote-eq : {w w' : Writer Ctx} {s t : Bytes} → s ≡ t → Wrote w s w' → Wrote w t w'
  Wrote-eq {w} {w'} e wrote = subst (λ (u : Bytes). Wrote w u w') e wrote

  pub Fits-eq :
      (sink : Option (Sink Ctx)) (w : Writer Ctx) {m n : ℕ} → m ≡ n → Fits sink w m → Fits sink w n
  Fits-eq sink w e fits = rw e at fits

  pub Fits-set :
      (sink : Option (Sink Ctx)) (w : Writer Ctx) (c : Bool) (d n : ℕ)
      → Fits sink w n
      → Fits sink (record w { need_comma = c; depth = d }) n
  Fits-set none w c d n fits = fits
  Fits-set (some f) w c d n fits = tt

  -- A round leaves less to write, since a buffer that is not full has room for a byte.
  w_raw_loop-WroteFits :
      (sink : Option (Sink Ctx)) (accepts : Accepts sink log) (fuel : ℕ) (s : Bytes)
      (w : Writer Ctx) (n : ℕ)
      → length s ≤ fuel
      → Live w
      → Fits sink w (length s + n)
      → WroteFits sink accepts w s n (w_raw_loop sink fuel s w)
  unfolding w_raw_loop
  w_raw_loop-WroteFits sink accepts zero [] w n enough live fits =
      (Wrote-nothing sink accepts w live, rw (Nat.zero-add n) at fits)
  w_raw_loop-WroteFits sink accepts zero (b ∷ s) w n enough live fits = absurd (omega arith)
  w_raw_loop-WroteFits sink accepts (suc fuel) [] w n enough live fits =
      (Wrote-nothing sink accepts w live, rw (Nat.zero-add n) at fits)
  w_raw_loop-WroteFits sink accepts (suc fuel) (b ∷ s) w n enough live fits =
      let (wrote, room, fits1) =
        flushed-Wrote sink accepts w (length s + n) live (Fits-eq sink w (omega arith) fits) in
      let w1 = flushed sink w in
      let k = w1.cap - length w1.buf in
      let copied = copy_some-Wrote sink accepts (b ∷ s) w1 wrote.live in
      let (rest, fits2) =
        w_raw_loop-WroteFits sink accepts fuel (drop k (b ∷ s)) (copy_some (b ∷ s) w1) n
          (omega (arith, length-drop k (b ∷ s))) copied.live
          (Fits-drop sink w1 (b ∷ s) n wrote.live
            (Fits-eq sink (flushed sink w) (omega arith) fits1)) in
      rw (if-is_ok wrote.live.fine _ _) (
        Wrote-eq (take-append-drop k (b ∷ s))
            (Wrote-trans sink accepts wrote (Wrote-trans sink accepts copied rest)),
        fits2,
      )

  -- The operation appends the bytes `s` to a live writer that has room for them.
  abbrev pub Writes : Option (Sink Ctx) → Bytes → (Writer Ctx → Writer Ctx) → Type 0
  Writes sink s f =
      (w : Writer Ctx) (n : ℕ)
      → Live w
      → Fits sink w (length s + n)
      → Wrote w s (f w) × Fits sink (f w) n

  pub Writes-nothing :
      (sink : Option (Sink Ctx)) (accepts : Accepts sink log) → Writes sink [] (λ w. w)
  Writes-nothing sink accepts w n live fits =
      (Wrote-nothing sink accepts w live, rw (Nat.zero-add n) at fits)

  pub Writes-then :
      (sink : Option (Sink Ctx)) (accepts : Accepts sink log) {s t : Bytes}
      {f g : Writer Ctx → Writer Ctx}
      → Writes sink s f
      → Writes sink t g
      → Writes sink (s ++ t) (λ w. g (f w))
  Writes-then sink accepts {s} {t} {f} p q w n live fits =
      let (wrote, fits1) =
        p w (length t + n) live (Fits-eq sink w (omega (arith, length-append s t)) fits) in
      let (more, fits2) = q (f w) n wrote.live fits1 in (Wrote-trans sink accepts wrote more, fits2)

  pub Writes-eq :
      (sink : Option (Sink Ctx)) {s t : Bytes} {f g : Writer Ctx → Writer Ctx}
      → s ≡ t
      → ((w : Writer Ctx) → f w ≡ g w)
      → Writes sink s f
      → Writes sink t g
  Writes-eq sink {t = t} {f = f} {g = g} e same p w n live fits =
      let ran = p w n live (Fits-eq sink w (ap (λ (u : Bytes). length u + n) (sym e)) fits) in
      rw (← same w, ← e) ran

  -- Whatever the size of the buffer, the whole of the bytes is taken.
  pub w_raw-Writes :
      (sink : Option (Sink Ctx)) (accepts : Accepts sink log) (s : Bytes)
      → Writes sink s (w_raw sink s)
  unfolding w_raw
  w_raw-Writes sink accepts s w n live fits =
      rw (if-is_ok live.fine _ _)
        (w_raw_loop-WroteFits sink accepts (length s) s w n (omega arith) live fits)
