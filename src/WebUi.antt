-- ===== src/WebUi.antt =====
-- src/esp_wifi_config_webui.c: the files of the Web UI, from the application's provider and from the
-- source that is compiled in. The provider, the file system and the bytes of the embedded files are
-- parameters.
pub mod Files
pub mod Types
use esp_wifi_config.Common.{
  ℕ, zero, suc, List, [], ◌∷◌, ◌++◌, Option, none, some, Bool, true, false, not, ◌&&◌, ◌||◌, length,
  take, drop, ◌==◌, if◌then◌else◌,
}
use esp_wifi_config.Common.Bytes.{Bytes, codes, str_eq}
use esp_wifi_config.Network.Types.{EspErr, esp_ok, esp_fail}

unfoldable pub starts_with : Bytes → Bytes → Bool
starts_with [] s = true
starts_with (c ∷ needle) [] = false
starts_with (c ∷ needle) (d ∷ s) = (c == d) && starts_with needle s

-- `strstr`, as a test
unfoldable pub contains : Bytes → Bytes → Bool
contains needle [] = starts_with needle []
contains needle (c ∷ s) = starts_with needle (c ∷ s) || contains needle s

-- The first extension of the list that the path contains.
abbrev pub first_of : Bytes → List (Bytes × Bytes) → Bytes
first_of path [] = codes "text/plain"
first_of path ((ext, kind) ∷ kinds) =
    let later = first_of path kinds in if contains ext path then kind else later

abbrev pub content_types : List (Bytes × Bytes)
content_types =
    (codes ".html", codes "text/html")
    ∷ (codes ".js", codes "application/javascript")
    ∷ (codes ".css", codes "text/css")
    ∷ (codes ".json", codes "application/json")
    ∷ (codes ".png", codes "image/png")
    ∷ (codes ".svg", codes "image/svg+xml")
    ∷ (codes ".ico", codes "image/x-icon")
    ∷ (codes ".jpg", codes "image/jpeg")
    ∷ (codes ".jpeg", codes "image/jpeg")
    ∷ (codes ".woff2", codes "font/woff2")
    ∷ (codes ".woff", codes "font/woff")
    ∷ (codes ".ttf", codes "font/ttf")
    ∷ (codes ".gif", codes "image/gif")
    ∷ (codes ".webp", codes "image/webp")
    ∷ []

unfoldable pub get_content_type : Bytes → Bytes
get_content_type path = first_of path content_types

-- What is sent: a body in one piece or in chunks.
pub record Sent : Type 0 where
  pub content_type : Bytes
  pub gzipped : Bool
  pub body : List Bytes

-- `wifi_cfg_webui_asset_t`; a null pointer is `none`.
pub record Asset : Type 0 where
  pub data_given : Option Bytes
  pub type_given : Option Bytes
  pub is_gzipped : Bool

-- A provider declines by `none`.
abbrev pub Provider : Type 0
Provider = Bytes → Option Asset

abbrev pub or_type : Bytes → Option Bytes → Bytes
or_type path none = get_content_type path
or_type path (some kind) = kind

unfoldable pub serve_asset : Bytes → Option Asset → Option Sent
serve_asset path none = none
serve_asset path (some a) = elim (a.data_given) [
  | none ↦ none
  | some bytes ↦ some (record {
    content_type = or_type path a.type_given;
    gzipped = a.is_gzipped;
    body = bytes ∷ [];
  })
]

unfoldable pub serve_from_provider : Option Provider → Bytes → Option Sent
unfolding serve_asset
serve_from_provider none path = none
serve_from_provider (some provider) path = serve_asset path (provider path)

-- What `stat` and `fopen` make of a path: whether there is a file, and its bytes if it opens.
pub record FileSystem : Type 0 where
  pub stat : Bytes → Bool
  pub fopen : Bytes → Option Bytes

-- `snprintf` into `char[128]` and `char[132]`
abbrev pub full_path : Bytes → Bytes → Bytes
full_path base path = take 127 (base ++ path)

abbrev pub gz_path : Bytes → Bytes → Bytes
gz_path base path = take 131 (full_path base path ++ codes ".gz")

-- The chunks that the loop of `fread` sends before the empty one; the fuel is the number of bytes.
unfoldable pub read_chunks : ℕ → Bytes → List Bytes
read_chunks zero s = []
read_chunks (suc fuel) [] = []
read_chunks (suc fuel) (c ∷ s) = take 512 (c ∷ s) ∷ read_chunks fuel (drop 512 (c ∷ s))

abbrev pub stream_file : Bytes → Bool → Option Bytes → Option Sent
stream_file path gz none = none
stream_file path gz (some bytes) = some (record {
  content_type = get_content_type path;
  gzipped = gz;
  body = read_chunks (length bytes) bytes;
})

unfoldable pub serve_from_filesystem : FileSystem → Bytes → Bytes → Option Sent
serve_from_filesystem fs base path =
    if not (fs.stat (full_path base path))
    then (if not (fs.stat (gz_path base path))
        then none
        else stream_file path true (fs.fopen (gz_path base path)))
    else if fs.stat (gz_path base path)
    then stream_file path true (fs.fopen (gz_path base path))
    else stream_file path false (fs.fopen (full_path base path))

-- A row of `embedded_assets`
pub record Embedded : Type 0 where
  pub uri : Bytes
  pub bytes : Bytes
  pub packed : Bool

unfoldable pub serve_embedded : List Embedded → Bytes → Option Sent
serve_embedded [] path = none
serve_embedded (a ∷ assets) path =
    let later = serve_embedded assets path in
    if str_eq path a.uri
    then some
        (record { content_type = get_content_type path; gzipped = a.packed; body = a.bytes ∷ [] })
    else later

-- The bytes of the three files are the build's.
abbrev pub embedded_assets : Bytes → Bytes → Bytes → List Embedded
embedded_assets index_html app_js_gz index_css_gz =
    record { uri = codes "/index.html"; bytes = index_html; packed = false }
    ∷ record { uri = codes "/assets/app.js"; bytes = app_js_gz; packed = true }
    ∷ record { uri = codes "/assets/index.css"; bytes = index_css_gz; packed = true }
    ∷ []

-- The source that is compiled in.
pub data Source : Type 0 where
  filesystem : FileSystem → Bytes → Source
  embedded : List Embedded → Source
  application : Source

abbrev pub serve_source : Source → Bytes → Option Sent
serve_source (filesystem fs base) path = serve_from_filesystem fs base path
serve_source (embedded assets) path = serve_embedded assets path
serve_source application path = none

abbrev pub remap : Bytes → Bytes
remap uri = if str_eq uri (codes "/") then codes "/index.html" else uri

-- `none` is the answer 404.
unfoldable pub handler_webui_static : Option Provider → Source → Bytes → EspErr × Option Sent
unfolding serve_from_filesystem
handler_webui_static provider source uri = elim (serve_from_provider provider (remap uri)) [
  | some r ↦ (esp_ok, some r)
  | none ↦ elim (serve_source source (remap uri)) [
    | some r ↦ (esp_ok, some r)
    | none ↦ (esp_fail, none)
  ]
]
