-- ===== src/Proxy/Mirrored/Tests.antt =====
-- A name with an accent, in the encoding of `Mcp-Name`.
use kite_rail.Prelude.{◌≡◌, refl, [], ◌∷◌, arith, true}
use kite_rail.Prelude.Text.{Text, codes}
use kite_rail.Proxy.Base64.{encode, utf8_valid}
use kite_rail.Proxy.Base64.RoundTrip.{AreBytes}

-- "pagó" and a line end
abbrev name : Text
name = 112 ∷ 97 ∷ 103 ∷ 195 ∷ 179 ∷ 10 ∷ []

name-AreBytes : AreBytes name
name-AreBytes =
    (omega arith, (omega arith, (omega arith, (omega arith, (omega arith, (omega arith, _))))))

name-utf8_valid : utf8_valid name ≡ true
unfolding utf8_valid
name-utf8_valid = refl

name_encoded : encode name ≡ codes "cGFnw7MK"
unfolding encode
name_encoded = refl
