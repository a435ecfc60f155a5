-- ===== src/Proxy/Recheck/Captured.antt =====
-- What is left of a mirrored header in the headers that are stored with a held request.
use kite_rail.Prelude.{
  ◌≡◌, ◌≢◌, ◌⊎◌, inl, inr, refl, sym, subst, ◌∙◌, ap, ap₂, Bool, true, false, not, List, [], ◌∷◌,
  ◌++◌, map, any, All, append_assoc, append-nil, Bool-cases, if◌then◌else◌,
}
use mathlib.Core.Bool.{true≢false}
use kite_rail.Prelude.Text.{Text}
use kite_rail.Prelude.Headers.{Headers, to_lower, all_tokens, words}
use kite_rail.Mcp.Headers.{is_replayable, add_all, capture_onto, capture_replay_headers}
use kite_rail.Proxy.Mirrored.{omitted, equal_fold, is_present, collect, check_values, single_header}
use kite_rail.Proxy.Mirrored.Agreement.{collect-absent}
use kite_rail.Proxy.Recheck.Folding.{equal_fold-same}
use kite_rail.Proxy.Recheck.Tidy.{Matching, Tidy, add_all-Tidy, add_all-other}

-- All names are tokens, as net/http guarantees for an incoming request.
abbrev pub TokenNames : Headers → Type 0
TokenNames h = All (λ kv. all_tokens kv.0 ≡ true) h

abbrev pub is_empty : List Text → Bool
is_empty [] = true
is_empty (v ∷ vs) = false

not_empty : (vs : List Text) → vs ≢ [] → not (is_empty vs) ≡ true
not_empty [] h = absurd (h refl)
not_empty (v ∷ vs) h = refl

-- A mirrored header with the key that net/http gives it.
module _ (expected key : Text) (folds : equal_fold key expected ≡ true)
    (spelled : words true (map to_lower expected) ≡ key)
    (kept : is_replayable (map to_lower expected) ≡ true) where
  abbrev Kept : Headers → List Text → Type 0
  Kept = Tidy expected key folds spelled

  -- Capturing appends the values of all matching names, in their order.
  capture_onto-Tidy :
      (captured h : Headers) (vs : List Text)
      → TokenNames h
      → Kept captured vs
      → Kept (capture_onto captured h) (vs ++ collect expected h)
  unfolding capture_onto collect
  capture_onto-Tidy captured [] vs tokens t = rw (append-nil vs) t
  capture_onto-Tidy captured ((name, values) ∷ rest) vs tokens t =
      elim (Bool-cases (equal_fold name expected)) [
        | inl same ↦
            rw (same, ap is_replayable (equal_fold-same name expected tokens.0 same) ∙ kept)
              (subst (Kept (capture_onto (add_all name values captured) rest))
                (append_assoc vs values (collect expected rest))
                (capture_onto-Tidy (add_all name values captured) rest (vs ++ values) tokens.1 (
                  add_all-Tidy expected key folds spelled name values captured vs tokens.0 same t)))
        | inr other ↦ rw other (elim (Bool-cases (is_replayable (map to_lower name))) [
          | inl replayable ↦ rw replayable (
              capture_onto-Tidy _ rest vs tokens.1
                (add_all-other expected key folds spelled name values captured vs tokens.0 other t))
          | inr dropped ↦ rw dropped (capture_onto-Tidy captured rest vs tokens.1 t)
        ])
      ]

  -- The header is found with these values.
  collect-Tidy :
      (h : Headers) (vs : List Text)
      → Kept h vs
      → (collect expected h ≡ vs) × (is_present expected h ≡ not (is_empty vs))
  unfolding collect is_present
  collect-Tidy [] vs t = rw t (refl, refl)
  collect-Tidy ((k, ws) ∷ rest) vs t = by_name (equal_fold k expected) refl t (collect-Tidy rest vs)
    where
      Collected : Headers → Type 0
      Collected h = (collect expected h ≡ vs) × (is_present expected h ≡ not (is_empty vs))

      by_name :
          (b : Bool)
          → equal_fold k expected ≡ b
          → Matching expected key folds spelled b k ws rest vs (Kept rest vs)
          → (Kept rest vs → Collected rest)
          → Collected ((k, ws) ∷ rest)
      by_name true e h later =
          rw (e, any)
            (rw (collect-absent expected rest h.3, append-nil ws) h.1, sym (not_empty vs h.2))
      by_name false e h later = rw (e, any) (later h)

  -- A header that passes the check is captured unchanged, with the values it had.
  pub captured-single_header :
      (h : Headers)
      → TokenNames h
      → (is_present expected h ≡ false) ⊎ (is_empty (collect expected h) ≡ false)
      → single_header (capture_replay_headers h) expected ≡ single_header h expected
  unfolding single_header capture_replay_headers
  captured-single_header h tokens sound =
      let (values, there) =
        collect-Tidy (capture_onto [] h) (collect expected h)
          (capture_onto-Tidy [] h [] tokens refl) in
      ap₂ (λ b vs. if b then check_values vs else omitted) (there ∙ sym (present sound)) values
    where
      present :
          (is_present expected h ≡ false) ⊎ (is_empty (collect expected h) ≡ false)
          → is_present expected h ≡ not (is_empty (collect expected h))
      present (inl absent) = rw (absent, collect-absent expected h absent) refl
      present (inr filled) = elim (Bool-cases (is_present expected h)) [
        | inl there ↦ rw (there, filled) refl
        | inr absent ↦
            absurd (true≢false (ap is_empty (sym (collect-absent expected h absent)) ∙ filled))
      ]
