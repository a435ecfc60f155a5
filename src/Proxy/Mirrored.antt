-- ===== src/Proxy/Mirrored.antt =====
-- `validateMirroredHeaders`, `singleHeader` and `decodeHeaderName` of backend/internal/proxy/proxy.go.
pub mod Agreement
pub mod RoundTrip
pub mod Tests
use kite_rail.Prelude.{
  ℕ, Bool, true, false, not, ◌&&◌, ◌||◌, ◌==◌, leb, Option, none, some, List, [], ◌∷◌, ◌++◌, any,
  if◌then◌else◌,
}
use kite_rail.Prelude.Text.{Text, codes, text_eq, has_prefix, trim_prefix, strip_suffix}
use kite_rail.Prelude.Headers.{Headers, to_lower}
use kite_rail.Proxy.Ingress.{IngressRequest}
use kite_rail.Proxy.Base64.{encode, decode, utf8_valid}

-- What is left behind a prefix.
abbrev after : Text → Text → Option Text
after prefix s = if has_prefix s prefix then some (trim_prefix prefix s) else none

-- The runes beyond ASCII that `strings.EqualFold` takes for a letter: the Kelvin sign for `k` and the
-- long s for `s`, in UTF-8.
unfoldable pub fold_rune : ℕ → Text → Option Text
fold_rune x s =
    if x == b'k'
    then after (226 ∷ 132 ∷ 170 ∷ []) s
    else if x == b's'
    then after (197 ∷ 191 ∷ []) s
    else none

-- What is left behind a first rune that folds like this ASCII byte.
unfoldable pub fold_head : ℕ → Text → Option Text
unfolding fold_rune
fold_head x [] = none
fold_head x (c ∷ s) = if to_lower c == to_lower x then some s else fold_rune (to_lower x) (c ∷ s)

-- `strings.EqualFold(name, expected)` for an expected name in ASCII.
unfoldable pub equal_fold : Text → Text → Bool
unfolding fold_head
equal_fold [] [] = true
equal_fold (c ∷ name) [] = false
equal_fold name (x ∷ expected) = elim (fold_head x name) [
  | none ↦ false
  | some rest ↦ equal_fold rest expected
]

pub data HeaderReason : Type 0 where
  not_single outer_space bad_characters bad_encoding : HeaderReason
  method_contradicts name_contradicts many_versions : HeaderReason

-- The results of `singleHeader`: omitted, present with its value, or an error.
pub data Single : Type 0 where
  omitted : Single
  single : Text → Single
  malformed : HeaderReason → Single

-- The loop over the header: whether a name matches, and all values under such names.
unfoldable pub is_present : Text → Headers → Bool
is_present expected header = any (λ kv. equal_fold kv.0 expected) header

unfoldable pub collect : Text → Headers → List Text
collect expected [] = []
collect expected ((name, entries) ∷ rest) =
    let values = collect expected rest in
    if equal_fold name expected then entries ++ values else values

abbrev is_blank : ℕ → Bool
is_blank c = (c == 32) || (c == 9)

-- `strings.Trim(value, " \t") != value`
unfoldable pub ends_blank : Text → Bool
ends_blank [] = false
ends_blank (c ∷ []) = is_blank c
ends_blank (c ∷ d ∷ s) = ends_blank (d ∷ s)

unfoldable pub has_outer_space : Text → Bool
unfolding ends_blank
has_outer_space [] = false
has_outer_space (c ∷ s) = is_blank c || ends_blank (c ∷ s)

-- A byte beyond ASCII belongs to a rune above 0x7e, also when it is not valid UTF-8.
unfoldable pub is_bad_character : ℕ → Bool
is_bad_character c = (not (leb 32 c) && not (c == 9)) || not (leb c 126)

unfoldable pub check_value : Text → Single
unfolding has_outer_space is_bad_character
check_value [] = malformed not_single
check_value (c ∷ s) =
    if has_outer_space (c ∷ s)
    then malformed outer_space
    else if any is_bad_character (c ∷ s)
    then malformed bad_characters
    else single (c ∷ s)

unfoldable pub check_values : List Text → Single
unfolding check_value
check_values (value ∷ []) = check_value value
check_values _ = malformed not_single

unfoldable pub single_header : Headers → Text → Single
unfolding is_present collect check_values
single_header header expected =
    if is_present expected header then check_values (collect expected header) else omitted

abbrev pub sentinel_prefix : Text
sentinel_prefix = codes "=?base64?"

abbrev pub sentinel_suffix : Text
sentinel_suffix = codes "?="

-- The checks on the decoded bytes.
unfoldable pub canonical_text : Text → Option Text → Option Text
canonical_text encoded none = none
canonical_text encoded (some decoded) =
    if utf8_valid decoded && text_eq (encode decoded) encoded then some decoded else none

-- The inner text of a value that starts and ends like a sentinel. The suffix is cut from what the
-- prefix leaves, if it is there: the two may overlap in the value.
unfoldable pub decode_header_name : Text → Option Text
unfolding canonical_text
decode_header_name value = elim (strip_suffix sentinel_suffix value) [
  | none ↦ some value
  | some _ ↦
      if has_prefix value sentinel_prefix
      then inner (trim_prefix sentinel_prefix value)
      else some value
]
  where
    inner : Text → Option Text
    inner s = elim (strip_suffix sentinel_suffix s) [
      | none ↦ canonical_text s (decode s)
      | some encoded ↦ canonical_text encoded (decode encoded)
    ]

-- The first error of two checks.
abbrev pub or_else {ℓ} : {E : Type ℓ} → Option E → Option E → Option E
or_else none k = k
or_else (some e) k = some e

unfoldable pub method_error : IngressRequest → Single → Option HeaderReason
method_error ingress omitted = none
method_error ingress (malformed e) = some e
method_error ingress (single method) =
    if text_eq method ingress.method then none else some method_contradicts

unfoldable pub compare_name : IngressRequest → Option Text → Option HeaderReason
compare_name ingress none = some bad_encoding
compare_name ingress (some name) =
    if text_eq ingress.params_name [] || not (text_eq name ingress.params_name)
    then some name_contradicts
    else none

unfoldable pub name_error : IngressRequest → Single → Option HeaderReason
unfolding compare_name
name_error ingress omitted = none
name_error ingress (malformed e) = some e
name_error ingress (single name) = compare_name ingress (decode_header_name name)

unfoldable pub version_error : Single → Option HeaderReason
version_error omitted = none
version_error (malformed e) = some e
version_error (single version) = if any (λ c. c == b',') version then some many_versions else none

abbrev pub protocol_version : Text
protocol_version = codes "MCP-Protocol-Version"

-- `validateMirroredHeaders`; `none` is nil.
unfoldable pub validate_mirrored_headers : Headers → IngressRequest → Option HeaderReason
unfolding method_error name_error version_error
validate_mirrored_headers header ingress =
    or_else (method_error ingress (single_header header (codes "Mcp-Method"))) (
      or_else (name_error ingress (single_header header (codes "Mcp-Name")))
        (version_error (single_header header protocol_version)))
