-- ===== src/Proxy/Adapter/Unambiguous.antt =====
-- A parsed request and its routing headers say the same.
use kite_rail.Prelude.{◌≡◌, refl, subst, Option, none, some, List}
use kite_rail.Prelude.Text.{Text}
use kite_rail.Prelude.Headers.{Headers, lookup}
use kite_rail.Mcp.Json.{Token}
use kite_rail.Proxy.Ingress.{IngressRequest, Validated, valid, invalid}
use kite_rail.Proxy.Mirrored.{
  HeaderReason, Single, omitted, single, malformed, version_error, validate_mirrored_headers,
}
use kite_rail.Proxy.Mirrored.Agreement.{
  Holds, Mirrors, validate_mirrored_headers-Mirrors, validate_mirrored_headers-version,
}
use kite_rail.Proxy.Adapter.{
  Invocation, Parsed, parsed, rejected, version_of, parse_headers, parse_validated, parse,
}

abbrev Agrees : Text → List Text → Parsed → Type 0
Agrees name values (parsed inv) = Mirrors name values inv.method inv.name inv.version
Agrees name values (rejected e) = Unit

pub declared : (s : Single) → version_error s ≡ none → Holds (λ v. v ≡ version_of s) s
unfolding version_error version_of
declared omitted h = tt
declared (single v) h = refl
declared (malformed e) h = cc

parse_headers-Agrees :
    (name : Text) (values : List Text) (header : Headers) (ing : IngressRequest)
    (o : Option HeaderReason)
    → validate_mirrored_headers header ing ≡ o
    → lookup name header ≡ some values
    → Agrees name values (parse_headers header ing o)
unfolding parse_headers
parse_headers-Agrees name values header ing (some e) passed found = tt
parse_headers-Agrees name values header ing none passed found =
    validate_mirrored_headers-Mirrors name values header ing _ passed
      (declared _ (validate_mirrored_headers-version header ing passed)) found

parse_validated-Agrees :
    (name : Text) (values : List Text) (header : Headers) (v : Validated)
    → lookup name header ≡ some values
    → Agrees name values (parse_validated header v)
unfolding parse_validated
parse_validated-Agrees name values header (invalid r id) found = tt
parse_validated-Agrees name values header (valid ing) found =
    parse_headers-Agrees name values header ing _ refl found

-- A request that is parsed has no mirrored header that disagrees with the invocation: every value
-- under a name that folds to Mcp-Method is its method, every value under Mcp-Name decodes to its
-- name, and every value under MCP-Protocol-Version is its version.
pub parse-Mirrors :
    (lex : Text → Option (List Token)) (header : Headers) (body name : Text) (values : List Text)
    (inv : Invocation)
    → parse lex header body ≡ parsed inv
    → lookup name header ≡ some values
    → Mirrors name values inv.method inv.name inv.version
unfolding parse
parse-Mirrors lex header body name values inv understood found =
    subst (Agrees name values) understood (parse_validated-Agrees name values header _ found)
