-- ===== src/Config/Environment.antt =====
-- How `Load` of backend/internal/config/config.go reads variables and files: `loadKeyPairs`,
-- `setListEnv` and `setFromFile`.
use kite_rail.Prelude.{ℕ, ◌==◌, Bool, Option, none, some, List, [], ◌∷◌, map, if◌then◌else◌}
use kite_rail.Prelude.Text.{Text, text_eq}
use kite_rail.Prelude.Numbers.{Signed}
use kite_rail.Prelude.Std.{Std}
use kite_rail.Config.{Keys, Config, ConfigError, unreadable}
use kite_rail.Config.Validate.{Validated, valid, invalid}
use kite_rail.Config.Legacy.{Variables, lookup_env}

-- What `Load` reads: the variables, the files, and the functions of the packages that it calls.
pub record Source : Type 0 where
  pub variables : Variables
  pub read_file : Text → Option Text
  -- `yaml.Unmarshal` over the defaults
  pub unmarshal : Text → Config → Option Config
  pub parse_duration : Text → Option Signed
  pub parse_bool : Text → Option Bool
  pub to_upper : Text → Text

-- `os.Getenv`
abbrev pub text_or_empty : Option Text → Text
text_or_empty none = []
text_or_empty (some t) = t

unfoldable pub getenv : Variables → Text → Text
unfolding lookup_env
getenv env name = text_or_empty (lookup_env name env)

-- The parts of a text between separators; `strings.Split`, for one byte.
unfoldable pub split_at : ℕ → Text → Text × List Text
split_at sep [] = ([], [])
split_at sep (c ∷ s) =
    let rest = split_at sep s in if c == sep then ([], rest.0 ∷ rest.1) else (c ∷ rest.0, rest.1)

unfoldable pub split : ℕ → Text → List Text
unfolding split_at
split sep s = (split_at sep s).0 ∷ (split_at sep s).1

-- `strings.SplitN` into two parts
unfoldable pub cut : ℕ → Text → Option (Text × Text)
cut sep [] = none
cut sep (c ∷ s) =
    let rest = cut sep s in
    if c == sep then some ([], s) else elim rest [ none ↦ none | some p ↦ some (c ∷ p.0, p.1) ]

abbrev pub comma : ℕ
comma = 44

abbrev pub colon : ℕ
colon = 58

abbrev pub newline : ℕ
newline = 10

-- `dst[token] = id`
unfoldable pub set_key : Text → Text → Keys → Keys
set_key token id [] = (token, id) ∷ []
set_key token id (k ∷ keys) =
    if text_eq k.0 token then (token, id) ∷ keys else k ∷ set_key token id keys

module _ (std : Std) where
  unfoldable pub load_pair : Text → Keys → Keys
  unfolding cut set_key
  load_pair pair keys = elim (cut colon pair) [
    | none ↦ keys
    | some p ↦ set_key (std.trim_space p.0) (std.trim_space p.1) keys
  ]

  unfoldable pub load_pairs : List Text → Keys → Keys
  unfolding load_pair
  load_pairs [] keys = keys
  load_pairs (pair ∷ pairs) keys = load_pairs pairs (load_pair pair keys)

  -- `loadKeyPairs`
  unfoldable pub load_key_pairs : Text → Keys → Keys
  unfolding load_pairs split
  load_key_pairs val keys = if text_eq val [] then keys else load_pairs (split comma val) keys

  -- `setListEnv`
  unfoldable pub list_env : Text → List Text → List Text
  unfolding split
  list_env val items = if text_eq val [] then items else map std.trim_space (split comma val)

abbrev pub then_with : Validated → (Config → Validated) → Validated
then_with (valid c) f = f c
then_with (invalid e) f = invalid e

-- A setting that a parser may refuse.
unfoldable pub parsed :
    {A : Type 0} → (Text → Option A) → ConfigError → Text → (A → Config) → Config → Validated
parsed parse e val put c =
    if text_eq val []
    then valid c
    else elim (parse val) [ none ↦ invalid e | some a ↦ valid (put a) ]

-- `setFromFile`, with what becomes of the content.
unfoldable pub from_file : Source → Std → Text → (Text → Config → Config) → Config → Validated
from_file src std path put c = if text_eq path [] then valid c else elim (src.read_file path) [
  | none ↦ invalid unreadable
  | some content ↦ valid (put (std.trim_space content) c)
]

-- A variable that names a file, and where its content goes.
abbrev pub FileSetting : Type 0
FileSetting = Text × (Text → Config → Config)

unfoldable pub from_files : Source → Std → Variables → List FileSetting → Config → Validated
unfolding from_file
from_files src std env [] c = valid c
from_files src std env ((key, put) ∷ rest) c =
    then_with (from_file src std (getenv env key) put c) (from_files src std env rest)
