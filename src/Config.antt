-- ===== src/Config.antt =====
-- infrastructure/ConfigSystem: ConfigSystem over the interface IConfigParser, with the parser of
-- key=value files. Strings are lists of bytes. Which files can be opened, and what they hold, is up to
-- the system: a parameter.
pub mod Parsing
pub mod Loading
pub mod RoundTrip
mod Tests
use mmo_server.Common.{
  ℕ, zero, suc, ◌+◌, Bool, true, false, not, ◌&&◌, Option, none, some, List, [], ◌∷◌, ◌++◌, take,
  drop, ◌==◌, if◌then◌else◌, Result, returned, thrown, config_not_found, config_type_mismatch,
}
use mathlib.Core.Option

abbrev pub ConfigKey : Type 0
ConfigKey = List ℕ

-- The alternatives of the variant; an integer and a double are their 64 bits.
pub data ConfigValue : Type 0 where
  boolean : Bool → ConfigValue
  integer : ℕ → ConfigValue
  floating : ℕ → ConfigValue
  string : List ℕ → ConfigValue

pub data ConfigValueType : Type 0 where
  boolean integer double string : ConfigValueType

-- `std::holds_alternative`
abbrev pub holds : ConfigValueType → ConfigValue → Bool
holds ConfigValueType.boolean (ConfigValue.boolean _) = true
holds ConfigValueType.integer (ConfigValue.integer _) = true
holds ConfigValueType.double (ConfigValue.floating _) = true
holds ConfigValueType.string (ConfigValue.string _) = true
holds _ _ = false

abbrev pub same_key : ConfigKey → ConfigKey → Bool
same_key [] [] = true
same_key (a ∷ k) (b ∷ l) = (a == b) && same_key k l
same_key _ _ = false

-- The unordered map, as a list in which a key stands at most once.
abbrev pub Storage : Type 0
Storage = List (ConfigKey × ConfigValue)

abbrev pub find : ConfigKey → Storage → Option ConfigValue
find key [] = none
find key (entry ∷ entries) = if same_key entry.0 key then some entry.1 else find key entries

-- `out[key] = value`
abbrev pub assign : ConfigKey → ConfigValue → Storage → Storage
assign key value [] = (key, value) ∷ []
assign key value (entry ∷ entries) =
    if same_key entry.0 key then (key, value) ∷ entries else entry ∷ assign key value entries

pub record ParseError : Type 0 where
  pub message : List ℕ
  pub file : List ℕ
  pub line : ℕ

pub record ParseResult : Type 0 where
  pub success : Bool
  pub errors : List ParseError

-- `ParseFile` returns a result and the changed map, or throws.
pub record IConfigParser : Type 0 where
  pub parse_file : List ℕ → Storage → Result (ParseResult × Storage)

-- What is in a file, if it can be opened.
abbrev pub Files : Type 0
Files = List ℕ → Option (List ℕ)

abbrev pub newline : ℕ
newline = 10

abbrev pub equals_sign : ℕ
equals_sign = 61

abbrev pub hash_sign : ℕ
hash_sign = 35

-- What `std::getline` reads one by one; the empty line behind a last newline is not read by it, and
-- is skipped by the parser in any case. `line` is what was read of the current one.
abbrev pub lines_from : List ℕ → List ℕ → List (List ℕ)
lines_from line [] = line ∷ []
lines_from line (c ∷ cs) =
    if c == newline then line ∷ lines_from [] cs else lines_from (line ++ c ∷ []) cs

-- `line.find('=')`
abbrev pub find_equals : List ℕ → Option ℕ
find_equals [] = none
find_equals (c ∷ cs) =
    if c == equals_sign then some 0 else Option.map (λ pos. pos + 1) (find_equals cs)

abbrev pub is_skipped : List ℕ → Bool
is_skipped [] = true
is_skipped (c ∷ cs) = c == hash_sign

unfoldable pub parse_line : List ℕ → Storage → Storage
parse_line line out = if is_skipped line then out else elim (find_equals line) [
  | none ↦ out
  | some pos ↦ assign (take pos line) (ConfigValue.string (drop (pos + 1) line)) out
]

unfoldable pub parse_lines : List (List ℕ) → Storage → Storage
unfolding parse_line
parse_lines [] out = out
parse_lines (line ∷ lines) out = parse_lines lines (parse_line line out)

-- "Cannot open target file"
abbrev pub cannot_open : List ℕ
cannot_open =
    67 ∷ 97 ∷ 110 ∷ 110 ∷ 111 ∷ 116 ∷ 32 ∷ 111 ∷ 112 ∷ 101 ∷ 110 ∷ 32 ∷ 116 ∷ 97 ∷ 114 ∷ 103 ∷ 101
    ∷ 116 ∷ 32 ∷ 102 ∷ 105 ∷ 108 ∷ 101 ∷ []

-- KeyValueConfigParser
unfoldable pub parse_file : Files → List ℕ → Storage → ParseResult × Storage
unfolding parse_lines
parse_file files path out = elim (files path) [
  | none ↦ (
    record {
      success = false;
      errors = record { message = cannot_open; file = path; line = 0 } ∷ [];
    },
    out,
  )
  | some content ↦ (record { success = true; errors = [] }, parse_lines (lines_from [] content) out)
]

abbrev pub key_value_parser : Files → IConfigParser
key_value_parser files = record { parse_file = λ path out. returned (parse_file files path out) }

pub record ConfigSystem : Type 0 where
  pub storage : Storage
  pub loaded : Bool
  pub parser : IConfigParser

-- Without a parser the one of key=value files is taken.
abbrev pub construct : Files → Option IConfigParser → ConfigSystem
construct files none = record { storage = []; loaded = false; parser = key_value_parser files }
construct files (some parser) = record { storage = []; loaded = false; parser = parser }

-- The loop of Load: `none` is the early return, with an error or by an exception.
unfoldable pub load_files : IConfigParser → List (List ℕ) → Storage → Option Storage
load_files parser [] out = some out
load_files parser (path ∷ paths) out = elim (parser.parse_file path out) [
  | thrown e ↦ none
  | returned parsed ↦
      let rest = load_files parser paths parsed.1 in if not parsed.0.success then none else rest
]

unfoldable pub load : ConfigSystem → List (List ℕ) → Bool × ConfigSystem
unfolding load_files
load s paths = if s.loaded then (false, s) else elim (load_files s.parser paths []) [
  | none ↦ (false, record s { storage = []; loaded = false })
  | some storage ↦ (true, record s { storage = storage; loaded = true })
]

unfoldable pub clear : ConfigSystem → ConfigSystem
clear s = record s { storage = []; loaded = false }

abbrev pub is_loaded : ConfigSystem → Bool
is_loaded s = s.loaded

-- `Get<TValue>`
unfoldable pub get : ConfigValueType → ConfigSystem → ConfigKey → Result ConfigValue
get type s key = elim (find key s.storage) [
  | none ↦ thrown config_not_found
  | some value ↦ if not (holds type value) then thrown config_type_mismatch else returned value
]

-- `TryGet<TValue>`: a null pointer, or the value.
unfoldable pub try_get : ConfigValueType → ConfigSystem → ConfigKey → Option ConfigValue
try_get type s key = elim (find key s.storage) [
  | none ↦ none
  | some value ↦ if holds type value then some value else none
]
