-- ===== src/Tests/Variables.antt =====
-- The custom variables on concrete inputs.
use esp_wifi_config.Common.{
  ◌≡◌, ◌+◌, refl, List, [], ◌∷◌, none, some, Bool, not, arith, length, ◌==◌,
}
use esp_wifi_config.Common.Bytes.{Bytes, codes}
use esp_wifi_config.Network.Types.{esp_ok, not_found}
use esp_wifi_config.Table.{find}
use esp_wifi_config.Vars.{Var, VarStore, set_var, get_var}
use esp_wifi_config.Vars.Valid.{IsValid}
use esp_wifi_config.Vars.Map.{VarCall, set, delete, values, calls, calls_promised, vars_refine}
use esp_wifi_config.Vars.Long.{set_var-long}
use esp_wifi_config.Tests.Flash.{Memory, blank, memory}

abbrev start : VarStore (Memory Var)
start = record {
  vars = record { key = codes "server"; value = codes "a" } ∷ [];
  flash = blank;
  posted = [];
}

start-IsValid : IsValid start
unfolding find
start-IsValid = record { unique = (refl, tt); fits = omega arith }

-- Empty values are refused.
abbrev no_empty : Bytes → Bytes → Bool
no_empty key value = not (length value == 0)

abbrev script : List VarCall
script =
    set (codes "server") (codes "b")
    ∷ set (codes "port") []
    ∷ set (codes "port") (codes "80")
    ∷ delete (codes "server")
    ∷ []

vars_refine_example :
    ((calls (memory Var) (some no_empty) script start).0
      ≡ (calls_promised (some no_empty) script (values start)).0)
    × (values (calls (memory Var) (some no_empty) script start).1
        ≡ (calls_promised (some no_empty) script (values start)).1)
    × IsValid (calls (memory Var) (some no_empty) script start).1
vars_refine_example =
    vars_refine (memory Var) (some no_empty) script start (ground arith) start-IsValid

abbrev long_key : Bytes
long_key = codes "a_key_of_more_than_thirty_one_bytes"

set_var-long_example :
    let first = set_var (memory Var) none long_key (codes "1") start in
    let second = set_var (memory Var) none long_key (codes "2") first.1 in
    (first.0 ≡ esp_ok)
    × (get_var (memory Var) long_key 128 first.1 ≡ some (not_found, none))
    × (second.0 ≡ esp_ok)
    × (length second.1.vars ≡ 1 + 2)
set_var-long_example =
    set_var-long (memory Var) long_key (codes "1") (codes "2") 128 start (omega arith)
      (ground arith) (omega arith)
