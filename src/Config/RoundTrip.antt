-- ===== src/Config/RoundTrip.antt =====
-- A file that was written as one key=value line for each entry is read back.

use mmo_server.Common.{
  ℕ, suc, ◌+◌, ◌≡◌, ◌≢◌, refl, ap, ap₂, sym, ◌∙◌, true, false, Option, none, some, List, [], ◌∷◌,
  ◌++◌, All, drop, length, ◌==◌, if◌then◌else◌, arith, append-nil, append_assoc, take-append,
}
use mmo_server.Config.{
  ConfigKey, ConfigValueType, same_key, Files, newline, equals_sign, lines_from, find_equals,
  is_skipped, key_value_parser, ConfigSystem, load, get,
}
use mmo_server.Config.Parsing.{value_in, otherwise, last_assignment}
use mmo_server.Config.Loading.{all_lines, found_as, load-last_assignment}

-- An entry that a line can carry: no line break, no `=` in the key, and a key that is not a comment.
abbrev pub IsEntry : List ℕ × List ℕ → Type 0
IsEntry (key, value) =
    All (λ c. (c ≢ newline) × (c ≢ equals_sign)) key
    × (is_skipped (key ++ equals_sign ∷ []) ≡ false)
    × All (λ c. c ≢ newline) value

abbrev pub entry_line : List ℕ × List ℕ → List ℕ
entry_line (key, value) = key ++ equals_sign ∷ value

abbrev pub render : List (List ℕ × List ℕ) → List ℕ
render [] = []
render (entry ∷ entries) = entry_line entry ++ newline ∷ render entries

-- What the last entry with the key holds.
abbrev pub last_entry : ConfigKey → List (List ℕ × List ℕ) → Option (List ℕ)
last_entry key [] = none
last_entry key (entry ∷ entries) =
    otherwise (if same_key entry.0 key then some entry.1 else none) (last_entry key entries)

lines_from-line :
    (start line rest : List ℕ)
    → All (λ c. c ≢ newline) line
    → lines_from start (line ++ newline ∷ rest) ≡ (start ++ line) ∷ lines_from [] rest
lines_from-line start [] rest all = ap (λ l. l ∷ lines_from [] rest) (sym (append-nil start))
lines_from-line start (c ∷ line) rest all = rw (ne_newline c all.0) (
    lines_from-line (start ++ c ∷ []) line rest all.1
    ∙ ap (λ l. l ∷ lines_from [] rest) (append_assoc start (c ∷ []) line))
  where
    ne_newline : (c : ℕ) → c ≢ newline → (c == newline) ≡ false
    ne_newline c ne = ground (arith, ne)

entry_line-All :
    (key value : List ℕ)
    → All (λ c. (c ≢ newline) × (c ≢ equals_sign)) key
    → All (λ c. c ≢ newline) value
    → All (λ c. c ≢ newline) (key ++ equals_sign ∷ value)
entry_line-All [] value all rest = (omega arith, rest)
entry_line-All (c ∷ key) value all rest = (all.0.0, entry_line-All key value all.1 rest)

find_equals-entry_line :
    (key value : List ℕ)
    → All (λ c. (c ≢ newline) × (c ≢ equals_sign)) key
    → find_equals (key ++ equals_sign ∷ value) ≡ some (length key)
find_equals-entry_line [] value all = refl
find_equals-entry_line (c ∷ key) value all =
    ground (arith, all.0.1, find_equals-entry_line key value all.1)

drop_past :
    (key : List ℕ) (c : ℕ) (value : List ℕ) → drop (length key + 1) (key ++ c ∷ value) ≡ value
drop_past [] c value = refl
drop_past (x ∷ key) c value =
    let one_more : suc (length key) + 1 ≡ suc (length key + 1) = omega arith in
    ap (λ n. drop n (x ∷ key ++ c ∷ value)) one_more ∙ drop_past key c value

is_skipped-entry_line :
    (key value : List ℕ)
    → is_skipped (key ++ equals_sign ∷ []) ≡ false
    → is_skipped (key ++ equals_sign ∷ value) ≡ false
is_skipped-entry_line [] value h = h
is_skipped-entry_line (c ∷ key) value h = h

value_in-entry_line :
    (k key value : List ℕ)
    → IsEntry (key, value)
    → value_in k (entry_line (key, value)) ≡ (if same_key key k then some value else none)
value_in-entry_line k key value valid = ground (
  arith,
  is_skipped-entry_line key value valid.1,
  find_equals-entry_line key value valid.0,
  take-append key (equals_sign ∷ value),
  drop_past key equals_sign value,
)

abbrev lines_of : List (List ℕ × List ℕ) → List (List ℕ)
lines_of [] = [] ∷ []
lines_of (entry ∷ entries) = entry_line entry ∷ lines_of entries

lines_from-render :
    (entries : List (List ℕ × List ℕ))
    → All IsEntry entries
    → lines_from [] (render entries) ≡ lines_of entries
lines_from-render [] all = refl
lines_from-render ((key, value) ∷ entries) all =
    lines_from-line [] (entry_line (key, value)) (render entries)
      (entry_line-All key value all.0.0 all.0.2)
    ∙ ap (λ l. entry_line (key, value) ∷ l) (lines_from-render entries all.1)

last_assignment-lines_of :
    (k : ConfigKey) (entries : List (List ℕ × List ℕ))
    → All IsEntry entries
    → last_assignment k (lines_of entries) ≡ last_entry k entries
last_assignment-lines_of k [] all = refl
last_assignment-lines_of k ((key, value) ∷ entries) all =
    ap₂ otherwise (value_in-entry_line k key value all.0) (last_assignment-lines_of k entries all.1)

all_lines-render :
    (files : Files) (path : List ℕ) (entries : List (List ℕ × List ℕ))
    → All IsEntry entries
    → files path ≡ some (render entries)
    → all_lines files (path ∷ []) ≡ some (lines_of entries)
all_lines-render files path entries all written =
    ground (arith, written, lines_from-render entries all, append-nil (lines_of entries))

-- Entries written to a file, one key=value line each, with no line break in them, no `=` in a key and
-- no key that starts a comment: a system that is not loaded loads the file with success, and Get of a
-- string then gives for every key the value of the last entry that has it, and throws
-- ConfigNotFoundException where no entry has it.
pub load_rendered :
    (files : Files) (s : ConfigSystem) (path : List ℕ) (entries : List (List ℕ × List ℕ))
    → s.parser ≡ key_value_parser files
    → s.loaded ≡ false
    → All IsEntry entries
    → files path ≡ some (render entries)
    → ((load s (path ∷ [])).0 ≡ true)
      × ((key : ConfigKey)
          → get ConfigValueType.string (load s (path ∷ [])).1 key
            ≡ found_as ConfigValueType.string (last_entry key entries))
load_rendered files s path entries reader unloaded all written =
    let (done, loaded, got, again) =
      load-last_assignment files s (path ∷ []) (lines_of entries) reader unloaded
        (all_lines-render files path entries all written) in
    (
      done,
      λ key.
          got ConfigValueType.string key
          ∙ ap (found_as ConfigValueType.string) (last_assignment-lines_of key entries all),
    )
