-- ===== src/Config/Parsing.antt =====
-- The map that the parser of key=value files fills: the last line that assigns a key decides.

use mmo_server.Common.{
  ℕ, ◌+◌, ◌≡◌, refl, ap, ◌∙◌, true, Option, none, some, List, [], ◌∷◌, take, drop, if◌then◌else◌,
  arith, Bool-cases, Option-cases, inl, inr,
}
use mmo_server.Config.{
  ConfigKey, ConfigValue, same_key, Storage, find, assign, find_equals, is_skipped, parse_line,
  parse_lines,
}

-- The value that a line assigns to a key.
abbrev pub value_in : ConfigKey → List ℕ → Option (List ℕ)
value_in key line = if is_skipped line then none else elim (find_equals line) [
  | none ↦ none
  | some pos ↦ if same_key (take pos line) key then some (drop (pos + 1) line) else none
]

abbrev pub otherwise : Option (List ℕ) → Option (List ℕ) → Option (List ℕ)
otherwise first (some value) = some value
otherwise first none = first

-- What the last of the lines that assign the key gives it.
abbrev pub last_assignment : ConfigKey → List (List ℕ) → Option (List ℕ)
last_assignment key [] = none
last_assignment key (line ∷ lines) = otherwise (value_in key line) (last_assignment key lines)

pub same_key-eq : (a b : ConfigKey) → same_key a b ≡ true → a ≡ b
same_key-eq [] [] h = refl
same_key-eq [] (y ∷ b) h = cc
same_key-eq (x ∷ a) [] h = cc
same_key-eq (x ∷ a) (y ∷ b) h = ground (arith, h, same_key-eq a b)

pub same_key_refl : (a : ConfigKey) → same_key a a ≡ true
same_key_refl [] = refl
same_key_refl (x ∷ a) = ground (arith, same_key_refl a)

find-assign :
    (key k : ConfigKey) (v : ConfigValue) (out : Storage)
    → find key (assign k v out) ≡ (if same_key k key then some v else find key out)
find-assign key k v [] = refl
find-assign key k v (entry ∷ out) = elim (Bool-cases (same_key entry.0 k)) [
  | inl same ↦ ground (arith, same, same_key-eq entry.0 k same)
  | inr other ↦ elim (Bool-cases (same_key k key)) [
    | inl here ↦ ground (arith, other, here, same_key-eq k key here, find-assign key k v out)
    | inr there ↦ ground (arith, other, there, find-assign key k v out)
  ]
]

-- A value from the lines, or else what the map held.
abbrev pub as_string : Option (List ℕ) → Option ConfigValue → Option ConfigValue
as_string none old = old
as_string (some value) old = some (ConfigValue.string value)

find-parse_line :
    (key : ConfigKey) (line : List ℕ) (out : Storage)
    → find key (parse_line line out) ≡ as_string (value_in key line) (find key out)
unfolding parse_line
find-parse_line key line out = elim (Bool-cases (is_skipped line)) [
  | inl skipped ↦ ground (arith, skipped)
  | inr read ↦ elim (Option-cases (find_equals line)) [
    | inl e ↦ ground (arith, read, e)
    | inr (pos, e) ↦ ground (
      arith,
      read,
      e,
      find-assign key (take pos line) (ConfigValue.string (drop (pos + 1) line)) out,
    )
  ]
]

as_string-otherwise :
    (first last : Option (List ℕ)) (old : Option ConfigValue)
    → as_string last (as_string first old) ≡ as_string (otherwise first last) old
as_string-otherwise first none old = refl
as_string-otherwise first (some value) old = refl

pub find-parse_lines :
    (key : ConfigKey) (lines : List (List ℕ)) (out : Storage)
    → find key (parse_lines lines out) ≡ as_string (last_assignment key lines) (find key out)
unfolding parse_lines
find-parse_lines key [] out = refl
find-parse_lines key (line ∷ lines) out =
    find-parse_lines key lines (parse_line line out)
    ∙ ap (as_string (last_assignment key lines)) (find-parse_line key line out)
    ∙ as_string-otherwise (value_in key line) (last_assignment key lines) (find key out)
