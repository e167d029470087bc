-- ===== src/WebUi/Files.antt =====
-- The files of the Web UI that stand on a file system.
use esp_wifi_config.Common.{
  ℕ, zero, suc, ◌+◌, ◌≡◌, ◌≤◌, refl, ap, ◌∙◌, List, [], ◌∷◌, ◌++◌, Option, none, some, Bool, true,
  false, not, length, take, drop, arith, take-append-drop, take_all, length-append, length-drop,
  if◌then◌else◌,
}
use esp_wifi_config.Common.Bytes.{Bytes, codes}
use esp_wifi_config.Network.Types.{EspErr, esp_ok, esp_fail}
use esp_wifi_config.WebUi.{
  Sent, FileSystem, serve_from_provider, full_path, gz_path, read_chunks, stream_file,
  serve_from_filesystem, filesystem, remap, handler_webui_static, get_content_type,
}

unfoldable pub joined : List Bytes → Bytes
joined [] = []
joined (s ∷ ss) = s ++ joined ss

joined-read_chunks : (fuel : ℕ) (s : Bytes) → length s ≤ fuel → joined (read_chunks fuel s) ≡ s
unfolding joined read_chunks
joined-read_chunks zero [] h = refl
joined-read_chunks zero (c ∷ s) h = absurd (omega arith)
joined-read_chunks (suc fuel) [] h = refl
joined-read_chunks (suc fuel) (c ∷ s) h =
    ap (λ (t : Bytes). take 512 (c ∷ s) ++ t)
      (joined-read_chunks fuel (drop 512 (c ∷ s)) (omega (arith, length-drop 512 (c ∷ s))))
    ∙ take-append-drop 512 (c ∷ s)

abbrev pub is_there : Option Bytes → Bool
is_there none = false
is_there (some s) = true

-- A file system whose files all open.
abbrev pub holding : (Bytes → Option Bytes) → FileSystem
holding files = record { stat = λ p. is_there (files p); fopen = files }

-- What a client gets: whether it is compressed, the type and the bytes.
abbrev pub delivered : EspErr × Option Sent → Option (Bool × Bytes × Bytes)
delivered (err, none) = none
delivered (err, some r) = some (r.gzipped, r.content_type, joined r.body)

-- The compressed file is preferred.
abbrev pub preferred : Bytes → Option Bytes → Option Bytes → Option (Bool × Bytes × Bytes)
preferred kind (some gz) plain = some (true, kind, gz)
preferred kind none (some s) = some (false, kind, s)
preferred kind none none = none

le_self : (n : ℕ) → n ≤ n
le_self n = omega arith

abbrev told : Bool → Bytes → Bytes → Option (Bool × Bytes × Bytes)
told gz kind s = some (gz, kind, s)

told_whole :
    (gz : Bool) (kind s : Bytes) → told gz kind (joined (read_chunks (length s) s)) ≡ told gz kind s
told_whole gz kind s = ap (told gz kind) (joined-read_chunks (length s) s (le_self (length s)))

abbrev answered : Option Sent → EspErr × Option Sent
answered r = elim r [ some r ↦ (esp_ok, some r) | none ↦ (esp_fail, none) ]

serve_cases :
    (files : Bytes → Option Bytes) (base path gz full : Bytes)
    → gz_path base path ≡ gz
    → full_path base path ≡ full
    → delivered (answered (serve_from_filesystem (holding files) base path))
      ≡ preferred (get_content_type path) (files gz) (files full)
unfolding serve_from_filesystem
serve_cases files base path gz full e f = rw (e, f) (by_file (files gz) (files full))
  where
    by_file :
        (zipped plain : Option Bytes)
        → delivered (
            answered (
              if not (is_there plain)
              then (if not (is_there zipped) then none else stream_file path true zipped)
              else if is_there zipped
              then stream_file path true zipped
              else stream_file path false plain))
          ≡ preferred (get_content_type path) zipped plain
    by_file (some z) (some s) = told_whole true (get_content_type path) z
    by_file (some z) none = told_whole true (get_content_type path) z
    by_file none (some s) = told_whole false (get_content_type path) s
    by_file none none = refl

-- A request for a file on a file system whose files all open, without a provider, whose path fits the
-- buffer: with the compressed file there
-- or not, and the plain one, the client gets the compressed one as such if there is one, else the
-- plain one, else 404. The file comes whole, in its chunks, with the type that the path without
-- ".gz" has; "/" stands for the index.
pub handler_webui_static-filesystem :
    (files : Bytes → Option Bytes) (base uri : Bytes)
    → length base + length (remap uri) ≤ 127
    → delivered (handler_webui_static none (filesystem (holding files) base) uri)
      ≡ preferred
          (get_content_type (remap uri))
          (files ((base ++ remap uri) ++ codes ".gz"))
          (files (base ++ remap uri))
unfolding handler_webui_static serve_from_provider
handler_webui_static-filesystem files base uri h =
    serve_cases files base (remap uri) ((base ++ remap uri) ++ codes ".gz") (base ++ remap uri)
      (ap (λ (p : Bytes). take 131 (p ++ codes ".gz")) whole
        ∙ take_all 131 ((base ++ remap uri) ++ codes ".gz") (
            omega (
              arith,
              length-append (base ++ remap uri) (codes ".gz"),
              length-append base (remap uri),
            )))
      whole
  where
    whole : full_path base (remap uri) ≡ base ++ remap uri
    whole = take_all 127 (base ++ remap uri) (omega (arith, length-append base (remap uri)))
