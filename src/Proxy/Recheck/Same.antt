-- ===== src/Proxy/Recheck/Same.antt =====
-- The re-check decides on what ingress has decided on.
use kite_rail.Prelude.{
  ℕ, zero, suc, ◌++◌, map, ◌≡◌, ◌⊎◌, inl, inr, refl, subst, ap, Bool, true, false, Option, none,
  some, List, [], ◌∷◌, Bool-cases, if◌then◌else◌,
}
use kite_rail.Prelude.Text.{Text, codes, text_eq}
use kite_rail.Prelude.Headers.{
  Headers, to_lower, to_upper, words, put, add, lookup, canonical, all_tokens,
}
use kite_rail.Prelude.Headers.Names.{all_tokens-canonical}
use kite_rail.Policy.{ProxyDecision}
use kite_rail.Mcp.Headers.{is_replayable, capture_replay_headers, add_all, capture_onto}
use kite_rail.Mcp.Json.{Token}
use kite_rail.Ledger.Timestamp.{Time}
use kite_rail.Proxy.Ingress.{IngressRequest, Validated, valid, invalid, validate_ingress}
use kite_rail.Proxy.Mirrored.{
  HeaderReason, omitted, equal_fold, is_present, collect, check_values, single_header,
  protocol_version, validate_mirrored_headers,
}
use kite_rail.Proxy.Mirrored.Agreement.{
  Holds, validate_mirrored_headers-Holds, validate_mirrored_headers-version,
}
use kite_rail.Proxy.Adapter.{Invocation, parsed, parse_headers, parse_validated, parse}
use kite_rail.Proxy.Adapter.Unambiguous.{declared}
use kite_rail.Proxy.World.{EvalInput}
use kite_rail.Proxy.Handler.{eval_input}
use kite_rail.Proxy.Recheck.{policy_recheck, recheck_parsed}
use kite_rail.Proxy.Recheck.Captured.{TokenNames, is_empty, captured-single_header}

Holds-usable :
    (P : Text → Type 0) (header : Headers) (expected : Text)
    → Holds P (single_header header expected)
    → (is_present expected header ≡ false) ⊎ (is_empty (collect expected header) ≡ false)
unfolding single_header
Holds-usable P header expected h = elim (Bool-cases (is_present expected header)) [
  | inr absent ↦ inl absent
  | inl there ↦ inr (
      filled (collect expected header) (
        subst (λ b. Holds P (if b then check_values (collect expected header) else omitted)) there
          h))
]
  where
    filled : (vs : List Text) → Holds P (check_values vs) → is_empty vs ≡ false
    filled [] g = absurd g
    filled (v ∷ vs) g = refl

module _ (header : Headers) (tokens : TokenNames header) (P : Text → Type 0) where
  captured_method :
      Holds P (single_header header (codes "Mcp-Method"))
      → single_header (capture_replay_headers header) (codes "Mcp-Method")
        ≡ single_header header (codes "Mcp-Method")
  unfolding equal_fold words is_replayable to_lower to_upper text_eq
  captured_method h =
      captured-single_header (codes "Mcp-Method") (codes "Mcp-Method") refl refl refl header tokens
        (Holds-usable P header _ h)

  captured_name :
      Holds P (single_header header (codes "Mcp-Name"))
      → single_header (capture_replay_headers header) (codes "Mcp-Name")
        ≡ single_header header (codes "Mcp-Name")
  unfolding equal_fold words is_replayable to_lower to_upper text_eq
  captured_name h =
      captured-single_header (codes "Mcp-Name") (codes "Mcp-Name") refl refl refl header tokens
        (Holds-usable P header _ h)

  captured_version :
      Holds P (single_header header protocol_version)
      → single_header (capture_replay_headers header) protocol_version
        ≡ single_header header protocol_version
  unfolding equal_fold words is_replayable to_lower to_upper text_eq
  captured_version h =
      captured-single_header protocol_version (codes "Mcp-Protocol-Version") refl refl refl header
        tokens (Holds-usable P header _ h)

validate-captured :
    (header : Headers) (ing : IngressRequest)
    → TokenNames header
    → validate_mirrored_headers header ing ≡ none
    → (validate_mirrored_headers (capture_replay_headers header) ing ≡ none)
      × (single_header (capture_replay_headers header) protocol_version
          ≡ single_header header protocol_version)
unfolding validate_mirrored_headers
validate-captured header ing tokens passed =
    let (m, n) = validate_mirrored_headers-Holds header ing passed in
    let v = declared _ (validate_mirrored_headers-version header ing passed) in
    let same_version = captured_version header tokens _ v in
    (
      rw (captured_method header tokens _ m, captured_name header tokens _ n, same_version) passed,
      same_version,
    )

parse_headers-captured :
    (header : Headers) (ing : IngressRequest) (inv : Invocation) (o : Option HeaderReason)
    → TokenNames header
    → validate_mirrored_headers header ing ≡ o
    → parse_headers header ing o ≡ parsed inv
    → parse_validated (capture_replay_headers header) (valid ing) ≡ parsed inv
unfolding parse_validated parse_headers
parse_headers-captured header ing inv (some e) tokens passed understood = cc
parse_headers-captured header ing inv none tokens passed understood =
    let (valid_again, same_version) = validate-captured header ing tokens passed in
    rw (valid_again, same_version) understood

parse_validated-captured :
    (header : Headers) (v : Validated) (inv : Invocation)
    → TokenNames header
    → parse_validated header v ≡ parsed inv
    → parse_validated (capture_replay_headers header) v ≡ parsed inv
unfolding parse_validated
parse_validated-captured header (invalid reason id) inv tokens understood = cc
parse_validated-captured header (valid ing) inv tokens understood =
    parse_headers-captured header ing inv _ tokens refl understood

put-TokenNames :
    (key : Text) (vs : List Text) (h : Headers)
    → all_tokens key ≡ true
    → TokenNames h
    → TokenNames (put key vs h)
unfolding put
put-TokenNames key vs [] named t = (named, tt)
put-TokenNames key vs ((k, ws) ∷ rest) named t = elim (Bool-cases (text_eq k key)) [
  | inl same ↦ rw same (t.0, t.1)
  | inr other ↦ rw other (t.0, put-TokenNames key vs rest named t.1)
]

add-TokenNames :
    (name v : Text) (h : Headers)
    → all_tokens name ≡ true
    → TokenNames h
    → TokenNames (add name v h)
unfolding add
add-TokenNames name v h named t = by_values (lookup (canonical name) h)
  where
    by_values :
        (o : Option (List Text))
        → TokenNames (elim o as (λ _. Headers) [
          | none ↦ put (canonical name) (v ∷ []) h
          | some us ↦ put (canonical name) (us ++ (v ∷ [])) h
        ])
    by_values none = put-TokenNames (canonical name) _ h (all_tokens-canonical name named) t
    by_values (some us) = put-TokenNames (canonical name) _ h (all_tokens-canonical name named) t

add_all-TokenNames :
    (name : Text) (vs : List Text) (h : Headers)
    → all_tokens name ≡ true
    → TokenNames h
    → TokenNames (add_all name vs h)
unfolding add_all
add_all-TokenNames name [] h named t = t
add_all-TokenNames name (v ∷ vs) h named t =
    add_all-TokenNames name vs (add name v h) named (add-TokenNames name v h named t)

capture_onto-TokenNames :
    (captured h : Headers)
    → TokenNames captured
    → TokenNames h
    → TokenNames (capture_onto captured h)
unfolding capture_onto
capture_onto-TokenNames captured [] c t = c
capture_onto-TokenNames captured ((name, values) ∷ rest) c t =
    capture_onto-TokenNames
      (if is_replayable (map to_lower name) then add_all name values captured else captured) rest
      (by_name (is_replayable (map to_lower name))) t.1
  where
    by_name : (b : Bool) → TokenNames (if b then add_all name values captured else captured)
    by_name true = add_all-TokenNames name values captured t.0 c
    by_name false = c

-- The stored headers: the proxy, the store and the replay each capture them.
unfoldable pub captured : ℕ → Headers → Headers
captured zero header = header
captured (suc n) header = captured n (capture_replay_headers header)

captured-parsed :
    (lex : Text → Option (List Token)) (n : ℕ) (header : Headers) (body : Text) (inv : Invocation)
    → TokenNames header
    → parse lex header body ≡ parsed inv
    → parse lex (captured n header) body ≡ parsed inv
unfolding captured parse capture_replay_headers
captured-parsed lex zero header body inv tokens understood = understood
captured-parsed lex (suc n) header body inv tokens understood =
    captured-parsed lex n (capture_replay_headers header) body inv
      (capture_onto-TokenNames [] header tt tokens)
      (parse_validated-captured header (validate_ingress lex body) inv tokens understood)

-- A request whose header names are tokens and that parsed at ingress parses to the same invocation
-- from its body and its headers as they are after any number of captures. So the re-check of the
-- stored request asks the engine about the same input, but for the time: the same agent, tool
-- and arguments.
pub policy_recheck-captured :
    (lex : Text → Option (List Token)) (evaluate : EvalInput → Option ProxyDecision) (now : Time)
    (agent body : Text) (header : Headers) (inv : Invocation) (n : ℕ)
    → TokenNames header
    → parse lex header body ≡ parsed inv
    → policy_recheck lex evaluate now agent body (captured n header)
      ≡ evaluate (eval_input agent now inv)
unfolding policy_recheck recheck_parsed
policy_recheck-captured lex evaluate now agent body header inv n tokens understood =
    ap (recheck_parsed lex evaluate now agent)
      (captured-parsed lex n header body inv tokens understood)
