-- ===== src/Tests/Pages.antt =====
-- The Web UI on concrete inputs.
use esp_wifi_config.Common.{
  ◌+◌, ◌≡◌, ◌++◌, ◌≤◌, refl, [], length, arith, Option, none, some, true, if◌then◌else◌,
}
use esp_wifi_config.Common.Bytes.{Bytes, codes, str_eq}
use esp_wifi_config.Network.Types.{esp_ok}
use esp_wifi_config.WebUi.{
  starts_with, contains, get_content_type, filesystem, embedded, embedded_assets, remap,
  serve_embedded, serve_from_provider, handler_webui_static,
}
use esp_wifi_config.WebUi.Types.{get_content_type-json}
use esp_wifi_config.WebUi.Files.{holding, delivered, preferred, handler_webui_static-filesystem}

get_content_type-json_example : get_content_type (codes "/a.json") ≡ (
    if contains (codes ".html") (codes "/a.json")
    then codes "text/html"
    else codes "application/javascript")
unfolding contains starts_with
get_content_type-json_example = get_content_type-json (codes "/a.json") has
  where
    has : contains (codes ".json") (codes "/a.json") ≡ true
    has = refl

get_content_type_test : get_content_type (codes "/f.woff2") ≡ codes "font/woff2"
unfolding get_content_type contains starts_with
get_content_type_test = refl

-- Both forms of the index stand on the file system.
abbrev files : Bytes → Option Bytes
files p =
    if str_eq p (codes "/www/index.html")
    then some (codes "plain")
    else if str_eq p (codes "/www/index.html.gz")
    then some (codes "packed")
    else none

handler_webui_static-filesystem_example :
    delivered (handler_webui_static none (filesystem (holding files) (codes "/www")) (codes "/"))
    ≡ preferred
        (get_content_type (remap (codes "/")))
        (files ((codes "/www" ++ remap (codes "/")) ++ codes ".gz"))
        (files (codes "/www" ++ remap (codes "/")))
unfolding str_eq
handler_webui_static-filesystem_example =
    handler_webui_static-filesystem files (codes "/www") (codes "/") fits
  where
    fits : length (codes "/www") + length (remap (codes "/")) ≤ 127
    fits = omega arith

handler_webui_static_test :
    delivered (handler_webui_static none (filesystem (holding files) (codes "/www")) (codes "/"))
    ≡ some (true, codes "text/html", codes "packed")
unfolding get_content_type contains starts_with str_eq
handler_webui_static_test = handler_webui_static-filesystem_example

embedded_test :
    (handler_webui_static none
      (embedded (embedded_assets [] (codes "x") []))
      (codes "/assets/app.js")).0
    ≡ esp_ok
unfolding handler_webui_static serve_embedded serve_from_provider str_eq
embedded_test = refl
