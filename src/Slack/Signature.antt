-- ===== src/Slack/Signature.antt =====
-- What a valid signature of an interaction says.
use kite_rail.Prelude.{
  ℕ, ◌+◌, ◌*◌, ◌≤◌, ◌≡◌, ◌≢◌, inl, inr, refl, sym, true, Option, none, some, [], arith, Bool-cases,
}
use kite_rail.Prelude.Text.{Text, codes, text_eq, text_eq_iff, ne_of_text_eq}
use kite_rail.Prelude.Headers.{Headers}
use kite_rail.Prelude.Headers
use kite_rail.Prelude.Numbers.{Signed, nonneg, negative, parse_int}
use kite_rail.Slack.{max_signature_age, second, sign, is_recent, parsed_recent, verify}
use kite_rail.Slack.Service.{App}

-- The signature is that of the configured secret over the time and the body, and the time lies within
-- five minutes of now.
abbrev pub Recent : ℕ → Signed → Type 0
Recent now (nonneg ts) =
    (now ≤ ts * second + max_signature_age) × (ts * second ≤ now + max_signature_age)
Recent now (negative n) = now + (n + 1) * second ≤ max_signature_age

abbrev pub IsSigned : App → ℕ → Headers → Text → Type 0
IsSigned app now headers raw =
    let timestamp = Headers.get (codes "X-Slack-Request-Timestamp") headers in
    (ts : Signed) × (parse_int timestamp ≡ some ts)
    × Recent now ts
    × (app.cfg.signing_secret ≢ [])
    × (Headers.get (codes "X-Slack-Signature") headers
        ≡ sign app.hmac app.cfg.signing_secret timestamp raw)

is_recent-Recent : (now : ℕ) (ts : Signed) → is_recent now ts ≡ true → Recent now ts
unfolding is_recent
is_recent-Recent now (nonneg ts) h = ground arith
is_recent-Recent now (negative n) h = ground arith

pub verify-IsSigned :
    (app : App) (now : ℕ) (headers : Headers) (raw : Text)
    → verify app.hmac app.cfg now
        (Headers.get (codes "X-Slack-Request-Timestamp") headers)
        (Headers.get (codes "X-Slack-Signature") headers)
        raw
      ≡ true
    → IsSigned app now headers raw
unfolding verify parsed_recent
verify-IsSigned app now headers raw h =
    go (parse_int (Headers.get (codes "X-Slack-Request-Timestamp") headers)) refl
  where
    go :
        (o : Option Signed)
        → parse_int (Headers.get (codes "X-Slack-Request-Timestamp") headers) ≡ o
        → IsSigned app now headers raw
    go none e = cc (rw e at h)
    go (some ts) e = elim (Bool-cases (is_recent now ts)) [
      | inr old ↦ cc (rw (e, old) at h)
      | inl recent ↦ elim (Bool-cases (text_eq app.cfg.signing_secret [])) [
        | inl unset ↦ cc (rw (e, recent, unset) at h)
        | inr set ↦ (
          ts,
          e,
          is_recent-Recent now ts recent,
          ne_of_text_eq set,
          sym ((text_eq_iff _ _).0 (rw (e, recent, set) at h)),
        )
      ]
    ]
