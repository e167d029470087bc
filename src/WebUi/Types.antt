-- ===== src/WebUi/Types.antt =====
-- The content types of the Web UI.
use esp_wifi_config.Common.{
  ◌≡◌, refl, [], ◌∷◌, ◌++◌, Bool, true, false, ◌&&◌, ◌||◌, ◌==◌, if◌then◌else◌,
}
use esp_wifi_config.Common.Bytes.{Bytes, codes}
use esp_wifi_config.WebUi.{starts_with, contains, get_content_type}

and_left : (a b c : Bool) → (b ≡ true → c ≡ true) → (a && b) ≡ true → (a && c) ≡ true
and_left true b c f h = f h
and_left false b c f h = h

or_map :
    (a b c d : Bool)
    → (a ≡ true → c ≡ true)
    → (b ≡ true → d ≡ true)
    → (a || b) ≡ true
    → (c || d) ≡ true
or_map true b true d f g h = refl
or_map true b false d f g h = absurd (cc (f refl))
or_map false b true d f g h = refl
or_map false b false d f g h = g h

starts_with-append : (xs ys s : Bytes) → starts_with (xs ++ ys) s ≡ true → starts_with xs s ≡ true
unfolding starts_with
starts_with-append [] ys s h = refl
starts_with-append (x ∷ xs) ys [] h = h
starts_with-append (x ∷ xs) ys (c ∷ s) h = and_left (x == c) _ _ (starts_with-append xs ys s) h

-- A text that contains a word contains each beginning of it.
pub contains-append : (xs ys s : Bytes) → contains (xs ++ ys) s ≡ true → contains xs s ≡ true
unfolding contains
contains-append xs ys [] h = starts_with-append xs ys [] h
contains-append xs ys (c ∷ s) h =
    or_map _ _ _ _ (starts_with-append xs ys (c ∷ s)) (contains-append xs ys s) h

-- A path with ".json" in it is told as JavaScript, unless ".html" is in it, too: the test for ".js"
-- stands in front of that for ".json", which is never reached.
pub get_content_type-json :
    (path : Bytes)
    → contains (codes ".json") path ≡ true
    → get_content_type path ≡ (
        if contains (codes ".html") path then codes "text/html" else codes "application/javascript")
unfolding get_content_type
get_content_type-json path h = rw (contains-append (codes ".js") (codes "on") path h) refl
