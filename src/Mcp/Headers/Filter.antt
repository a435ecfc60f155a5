-- ===== src/Mcp/Headers/Filter.antt =====
-- Only allowlisted headers are stored with a held request and come back from the table.
use kite_rail.Prelude.{
  ◌≡◌, ◌∙◌, ap, subst, inl, inr, true, Option, none, some, List, [], ◌∷◌, ◌++◌, map, All,
  Bool-cases,
}
use mathlib.Core.Option.{some-injective}
use kite_rail.Prelude.Text.{Text, text_eq, text_eq_iff}
use kite_rail.Prelude.Headers.{Headers, to_lower, canonical, lookup, put, add, lower-canonical}
use kite_rail.Mcp.Headers.{
  is_replayable, add_all, capture_onto, capture_replay_headers, decode_replay_headers,
}

-- Every header name, in lower case, is on the list.
abbrev pub AllReplayable : Headers → Type 0
AllReplayable h = All (λ kv. is_replayable (map to_lower kv.0) ≡ true) h

pub put-AllReplayable :
    (key : Text) (vs : List Text) (h : Headers)
    → is_replayable (map to_lower key) ≡ true
    → AllReplayable h
    → AllReplayable (put key vs h)
unfolding put
put-AllReplayable key vs [] ok h = (ok, tt)
put-AllReplayable key vs ((k, ws) ∷ rest) ok h = elim (Bool-cases (text_eq k key)) [
  | inl same ↦ rw same (h.0, h.1)
  | inr other ↦ rw other (h.0, put-AllReplayable key vs rest ok h.1)
]

add-AllReplayable :
    (name v : Text) (h : Headers)
    → is_replayable (map to_lower name) ≡ true
    → AllReplayable h
    → AllReplayable (add name v h)
unfolding add
add-AllReplayable name v h ok all = known (lookup (canonical name) h)
  where
    known :
        (o : Option (List Text))
        → AllReplayable (elim o as (λ _. Headers) [
          | none ↦ put (canonical name) (v ∷ []) h
          | some vs ↦ put (canonical name) (vs ++ (v ∷ [])) h
        ])
    known none =
        put-AllReplayable (canonical name) _ h (ap is_replayable (lower-canonical name) ∙ ok) all
    known (some vs) =
        put-AllReplayable (canonical name) _ h (ap is_replayable (lower-canonical name) ∙ ok) all

add_all-AllReplayable :
    (name : Text) (vs : List Text) (h : Headers)
    → is_replayable (map to_lower name) ≡ true
    → AllReplayable h
    → AllReplayable (add_all name vs h)
unfolding add_all
add_all-AllReplayable name [] h ok all = all
add_all-AllReplayable name (v ∷ vs) h ok all =
    add_all-AllReplayable name vs (add name v h) ok (add-AllReplayable name v h ok all)

capture_onto-AllReplayable :
    (captured h : Headers) → AllReplayable captured → AllReplayable (capture_onto captured h)
unfolding capture_onto
capture_onto-AllReplayable captured [] all = all
capture_onto-AllReplayable captured ((name, vs) ∷ rest) all =
    elim (Bool-cases (is_replayable (map to_lower name))) [
      | inl ok ↦ rw ok (
          capture_onto-AllReplayable (add_all name vs captured) rest
            (add_all-AllReplayable name vs captured ok all))
      | inr skip ↦ rw skip (capture_onto-AllReplayable captured rest all)
    ]

pub lookup-replayable :
    (key : Text) (vs : List Text) (h : Headers)
    → AllReplayable h
    → lookup key h ≡ some vs
    → is_replayable (map to_lower key) ≡ true
unfolding lookup
lookup-replayable key vs [] all e = cc
lookup-replayable key vs ((k, ws) ∷ rest) all e = elim (Bool-cases (text_eq k key)) [
  | inl same ↦ subst (λ j. is_replayable (map to_lower j) ≡ true) ((text_eq_iff k key).0 same) all.0
  | inr other ↦ lookup-replayable key vs rest all.1 (rw other at e)
]

pub decode_replay_headers-AllReplayable :
    (json_unmarshal : Text → Option Headers) (encoded : Text) (stored : Headers)
    → decode_replay_headers json_unmarshal encoded ≡ some stored
    → AllReplayable stored
unfolding decode_replay_headers capture_replay_headers
decode_replay_headers-AllReplayable json_unmarshal [] stored e =
    subst AllReplayable (some-injective _ _ e) tt
decode_replay_headers-AllReplayable json_unmarshal (c ∷ s) stored e =
    decoded (json_unmarshal (c ∷ s)) e
  where
    decoded :
        (o : Option Headers)
        → elim o as (λ _. Option Headers) [ none ↦ none | some h ↦ some (capture_onto [] h) ]
          ≡ some stored
        → AllReplayable stored
    decoded none p = cc
    decoded (some h) p =
        subst AllReplayable (some-injective _ _ p) (capture_onto-AllReplayable [] h tt)

-- Whatever text stands in the table, a header that `DecodeReplayHeaders` returns has a name on the
-- allowlist, so the second filter lets no other header through.
pub decode_replay_headers-allowlisted :
    (json_unmarshal : Text → Option Headers) (encoded : Text) (stored : Headers) (key : Text)
    (vs : List Text)
    → decode_replay_headers json_unmarshal encoded ≡ some stored
    → lookup key stored ≡ some vs
    → is_replayable (map to_lower key) ≡ true
decode_replay_headers-allowlisted json_unmarshal encoded stored key vs e found =
    lookup-replayable key vs stored
      (decode_replay_headers-AllReplayable json_unmarshal encoded stored e) found
