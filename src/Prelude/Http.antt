-- ===== src/Prelude/Http.antt =====
-- The parts of net/http requests that the handlers read.
use mathlib.Core.List.{List, [], ◌∷◌}
use mathlib.Core.Bool.{Bool, true, false}
use kite_rail.Prelude.Tests.{if◌then◌else◌}
use kite_rail.Prelude.Text.{Text, text_eq}

pub data Method : Type 0 where
  get head options post put patch delete other_method : Method

abbrev pub is_get : Method → Bool
is_get get = true
is_get m = false

abbrev pub is_post : Method → Bool
is_post post = true
is_post m = false

-- `url.Values.Get`: the first value under a key, or the empty text.
unfoldable pub query_get : Text → List (Text × Text) → Text
query_get key [] = []
query_get key ((k, v) ∷ rest) = if text_eq k key then v else query_get key rest
