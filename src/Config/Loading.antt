-- ===== src/Config/Loading.antt =====
-- Load, Get and TryGet with the parser of key=value files.
use mathlib.Core.Option
use mmo_server.Common.{
  ℕ, ◌≡◌, refl, ap, ◌∙◌, true, false, Option, none, some, List, [], ◌∷◌, ◌++◌, if◌then◌else◌, arith,
  Option-cases, inl, inr, Result, returned, thrown, config_not_found, config_type_mismatch,
}
use mmo_server.Config.{
  ConfigKey, ConfigValue, ConfigValueType, holds, Storage, find, Files, lines_from, parse_lines,
  parse_file, key_value_parser, ConfigSystem, load_files, load, get,
}
use mmo_server.Config.Parsing.{last_assignment, as_string, find-parse_lines}

-- The lines of all the files, in order, if every file can be opened.
abbrev pub all_lines : Files → List (List ℕ) → Option (List (List ℕ))
all_lines files [] = some []
all_lines files (path ∷ paths) = elim (files path) [
  | none ↦ none
  | some content ↦ Option.map (λ lines. lines_from [] content ++ lines) (all_lines files paths)
]

parse_lines-append :
    (front back : List (List ℕ)) (out : Storage)
    → parse_lines (front ++ back) out ≡ parse_lines back (parse_lines front out)
unfolding parse_lines
parse_lines-append [] back out = refl
parse_lines-append (line ∷ front) back out = parse_lines-append front back _

load_files-all_lines :
    (files : Files) (paths : List (List ℕ)) (out : Storage)
    → load_files (key_value_parser files) paths out
      ≡ Option.map (λ lines. parse_lines lines out) (all_lines files paths)
unfolding load_files parse_file
load_files-all_lines files [] out = refl
load_files-all_lines files (path ∷ paths) out = elim (Option-cases (files path)) [
  | inl e ↦ ground (arith, e)
  | inr (content, e) ↦
      let rest = load_files-all_lines files paths (parse_lines (lines_from [] content) out) in
      elim (Option-cases (all_lines files paths)) [
        | inl none_left ↦ ground (arith, e, rest, none_left)
        | inr (lines, more) ↦
            ground (arith, e, rest, more, parse_lines-append (lines_from [] content) lines out)
      ]
]

-- What Get gives for a key that the lines give a string, or none.
abbrev pub found_as : ConfigValueType → Option (List ℕ) → Result ConfigValue
found_as type none = thrown config_not_found
found_as type (some value) =
    if holds type (ConfigValue.string value)
    then returned (ConfigValue.string value)
    else thrown config_type_mismatch

module _ (files : Files) (s : ConfigSystem) (paths : List (List ℕ))
    (reader : s.parser ≡ key_value_parser files) (unloaded : s.loaded ≡ false) where
  loaded_files :
      load_files s.parser paths []
      ≡ Option.map (λ lines. parse_lines lines []) (all_lines files paths)
  loaded_files = ap (λ p. load_files p paths []) reader ∙ load_files-all_lines files paths []

  load-some :
      (lines : List (List ℕ))
      → all_lines files paths ≡ some lines
      → load s paths ≡ (true, record s { storage = parse_lines lines []; loaded = true })
  unfolding load
  load-some lines e = ground (arith, e, unloaded, loaded_files)

  load-none :
      all_lines files paths ≡ none
      → load s paths ≡ (false, record s { storage = []; loaded = false })
  unfolding load
  load-none e = ground (arith, e, unloaded, loaded_files)

get_found :
    (type : ConfigValueType) (s : ConfigSystem) (key : ConfigKey) (value : Option (List ℕ))
    → find key s.storage ≡ as_string value none
    → get type s key ≡ found_as type value
unfolding get
get_found type s key none e = ground (arith, e)
get_found type s key (some value) e = ground (arith, e)

-- Load with the parser of key=value files, on a system that is not loaded, of files that can all be
-- opened: it returns true, and the system is loaded. Get of a string then gives, for every key, what
-- the last line of the files that assigns the key gives it, and throws ConfigNotFoundException where no
-- line does; Get of another type never returns, it throws ConfigTypeMismatchException for the keys that
-- some line assigns. Another Load of whatever files returns false and changes nothing.
-- Lines that assign nothing are skipped.
pub load-last_assignment :
    (files : Files) (s : ConfigSystem) (paths lines : List (List ℕ))
    → s.parser ≡ key_value_parser files
    → s.loaded ≡ false
    → all_lines files paths ≡ some lines
    → ((load s paths).0 ≡ true)
      × ((load s paths).1.loaded ≡ true)
      × ((type : ConfigValueType) (key : ConfigKey)
          → get type (load s paths).1 key ≡ found_as type (last_assignment key lines))
      × ((again : List (List ℕ)) → load (load s paths).1 again ≡ (false, (load s paths).1))
unfolding load
load-last_assignment files s paths lines reader unloaded e =
    rw (load-some files s paths reader unloaded lines e) (
      refl,
      refl,
      λ type key. get_found type _ key _ (find-parse_lines key lines []),
      λ again. refl,
    )

-- Load with the parser of key=value files, on a system that is not loaded, when some file cannot be
-- opened: it returns false, and the system is not loaded and holds nothing, whatever the files before
-- that one have brought, so that Get of any type throws ConfigNotFoundException for every key.
load_refused :
    (files : Files) (s : ConfigSystem) (paths : List (List ℕ))
    → s.parser ≡ key_value_parser files
    → s.loaded ≡ false
    → all_lines files paths ≡ none
    → ((load s paths).0 ≡ false)
      × ((load s paths).1.loaded ≡ false)
      × ((type : ConfigValueType) (key : ConfigKey)
          → get type (load s paths).1 key ≡ thrown config_not_found)
load_refused files s paths reader unloaded e =
    rw (load-none files s paths reader unloaded e)
      (refl, refl, λ type key. get_found type _ key none refl)
