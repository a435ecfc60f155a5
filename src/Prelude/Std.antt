-- ===== src/Prelude/Std.antt =====
-- What the program calls of packages strings and net/url where Unicode tables or the grammar of URLs
-- decide the result, as a record of functions that the models take.
use mathlib.Core.Bool.{Bool}
use mathlib.Core.Option.{Option}
use kite_rail.Prelude.Text.{Text}

-- The parts of a `url.URL` that the program reads.
pub record Url : Type 0 where
  pub scheme : Text
  -- `Host`, and `Hostname()` behind it.
  pub host : Text
  pub hostname : Text
  pub has_user : Bool
  -- `EscapedPath()`
  pub path : Text

pub record Std : Type 0 where
  -- `strings.ToLower` and `strings.TrimSpace`
  pub to_lower : Text → Text
  pub trim_space : Text → Text
  -- `url.Parse`; `none` is an error.
  pub parse_url : Text → Option Url
  -- The text of the URL with the query parameter set to a value.
  pub set_query : Text → Text → Text → Text
