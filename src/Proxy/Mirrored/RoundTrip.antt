-- ===== src/Proxy/Mirrored/RoundTrip.antt =====
-- A name in the sentinel encoding of `Mcp-Name` reads as itself.
use kite_rail.Prelude.{◌≡◌, refl, ◌∙◌, ap, ℕ, true, false, none, some, [], ◌∷◌, ◌++◌, arith, Option}
use kite_rail.Prelude.Text.{
  Text, text_eq, text_eq_refl, strip_suffix, has_prefix, has_prefix-append, trim_prefix,
  trim_prefix-append,
}
use kite_rail.Proxy.Base64.{encode, decode, utf8_valid}
use kite_rail.Proxy.Base64.RoundTrip.{AreBytes, decode-encode}
use kite_rail.Proxy.Mirrored.{sentinel_prefix, sentinel_suffix, canonical_text, decode_header_name}

longer : (c : ℕ) (s : Text) → text_eq (c ∷ (s ++ sentinel_suffix)) sentinel_suffix ≡ false
unfolding text_eq
longer c [] = ground arith
longer c (d ∷ []) = ground arith
longer c (d ∷ e ∷ s) = ground arith

strip-suffix : (s : Text) → strip_suffix sentinel_suffix (s ++ sentinel_suffix) ≡ some s
unfolding strip_suffix text_eq
strip-suffix [] = refl
strip-suffix (c ∷ s) = rw (longer c s, strip-suffix s) refl

accepted : (s : Text) → utf8_valid s ≡ true → canonical_text (encode s) (some s) ≡ some s
unfolding canonical_text
accepted s h = rw (h, text_eq_refl (encode s)) refl

sentinel :
    (value whole rest encoded : Text)
    → strip_suffix sentinel_suffix value ≡ some whole
    → has_prefix value sentinel_prefix ≡ true
    → trim_prefix sentinel_prefix value ≡ rest
    → strip_suffix sentinel_suffix rest ≡ some encoded
    → decode_header_name value ≡ canonical_text encoded (decode encoded)
unfolding decode_header_name
sentinel value whole rest encoded ends starts cut inner =
    rw (decode_header_name, ends, starts, cut)
      (ap
        (λ o. elim o as (λ _. Option Text) [
          | none ↦ canonical_text rest (decode rest)
          | some e ↦ canonical_text e (decode e)
        ])
        inner)

-- Every text of bytes in valid UTF-8, written in Base64 between the prefix =?base64? and the suffix
-- ?=, is read back as itself.
pub decode_header_name-encode :
    (name : Text)
    → AreBytes name
    → utf8_valid name ≡ true
    → decode_header_name (sentinel_prefix ++ (encode name ++ sentinel_suffix)) ≡ some name
decode_header_name-encode name h valid =
    sentinel (sentinel_prefix ++ (encode name ++ sentinel_suffix)) (sentinel_prefix ++ encode name)
      (encode name ++ sentinel_suffix) (encode name) (strip-suffix (sentinel_prefix ++ encode name))
      (has_prefix-append sentinel_prefix (encode name ++ sentinel_suffix))
      (trim_prefix-append sentinel_prefix (encode name ++ sentinel_suffix))
      (strip-suffix (encode name))
    ∙ (ap (canonical_text (encode name)) (decode-encode name h) ∙ accepted name valid)
