-- ===== src/Config/Tests.antt =====
-- Two small files, and the theorems at them.
use mmo_server.Common.{ℕ, ◌≡◌, refl, true, false, none, some, List, [], ◌∷◌, if◌then◌else◌, arith}
use mmo_server.Config.{
  ConfigKey, ConfigValueType, same_key, Files, ConfigSystem, construct, load, get,
}
use mmo_server.Config.Parsing.{last_assignment}
use mmo_server.Config.Loading.{found_as, load-last_assignment}
use mmo_server.Config.RoundTrip.{render, last_entry, load_rendered}

-- The entries a=1, b=2 and a=3.
abbrev entries : List (List ℕ × List ℕ)
entries = (97 ∷ [], 49 ∷ []) ∷ (98 ∷ [], 50 ∷ []) ∷ (97 ∷ [], 51 ∷ []) ∷ []

-- File 1 holds the entries, file 2 a comment and the line c=4 with no line break, and there is no
-- other.
abbrev files : Files
files path =
    if same_key path (1 ∷ [])
    then some (render entries)
    else if same_key path (2 ∷ [])
    then some (35 ∷ 97 ∷ 61 ∷ 57 ∷ 10 ∷ 99 ∷ 61 ∷ 52 ∷ [])
    else none

abbrev fresh : ConfigSystem
fresh = construct files none

abbrev both_lines : List (List ℕ)
both_lines =
    (97 ∷ 61 ∷ 49 ∷ [])
    ∷ (98 ∷ 61 ∷ 50 ∷ [])
    ∷ (97 ∷ 61 ∷ 51 ∷ [])
    ∷ []
    ∷ (35 ∷ 97 ∷ 61 ∷ 57 ∷ [])
    ∷ (99 ∷ 61 ∷ 52 ∷ [])
    ∷ []

load-last_assignment_example :
    ((load fresh ((1 ∷ []) ∷ (2 ∷ []) ∷ [])).0 ≡ true)
    × ((load fresh ((1 ∷ []) ∷ (2 ∷ []) ∷ [])).1.loaded ≡ true)
    × ((type : ConfigValueType) (key : ConfigKey)
        → get type (load fresh ((1 ∷ []) ∷ (2 ∷ []) ∷ [])).1 key
          ≡ found_as type (last_assignment key both_lines))
    × ((again : List (List ℕ))
        → load (load fresh ((1 ∷ []) ∷ (2 ∷ []) ∷ [])).1 again
          ≡ (false, (load fresh ((1 ∷ []) ∷ (2 ∷ []) ∷ [])).1))
load-last_assignment_example =
    load-last_assignment files fresh ((1 ∷ []) ∷ (2 ∷ []) ∷ []) both_lines refl refl refl

last_a : last_assignment (97 ∷ []) both_lines ≡ some (51 ∷ [])
last_a = refl

-- File 3 cannot be opened, and file 1 was read before it.
load_rendered_example :
    ((load fresh ((1 ∷ []) ∷ [])).0 ≡ true)
    × ((key : ConfigKey)
        → get ConfigValueType.string (load fresh ((1 ∷ []) ∷ [])).1 key
          ≡ found_as ConfigValueType.string (last_entry key entries))
load_rendered_example =
    load_rendered files fresh (1 ∷ []) entries refl refl
      (
        (((omega arith, omega arith), tt), refl, (omega arith, tt)),
        (
          (((omega arith, omega arith), tt), refl, (omega arith, tt)),
          ((((omega arith, omega arith), tt), refl, (omega arith, tt)), tt),
        ),
      )
      refl
