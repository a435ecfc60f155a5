-- ===== src/Mcp/Json/Exact.antt =====
-- Decoding accepts exactly the values in which no object repeats a member name.
use kite_rail.Prelude.{
  ℕ, zero, suc, ◌+◌, ◌*◌, ◌≤◌, ◌≡◌, refl, subst, ap, Bool, true, false, not, ◌&&◌, List, [], ◌∷◌,
  ◌++◌, append_assoc, append-nil, arith, Option, some, ◌∙◌, length, Bool-cases, inl, inr,
}
use kite_rail.Prelude.Text.{Text}
use kite_rail.Mcp.Json.{
  as_object, decode_object, lookup, Result, bind, Value, Items, Fields, leaf, array, object,
  no_items, item, no_fields, field, Token, close_object, close_array, ok, err, duplicate, Decoder,
  more, member_name, fresh, end_object, end_array, exists, insert, decode_value, decode_members,
  decode_items,
}
use kite_rail.Mcp.Json.Distinct.{
  flatten, flatten_items, flatten_fields, distinct, distinct_items, distinct_fields, flatten_pos,
  length-tokens, more-flatten, join, join-nil, join-insert, disjoint, disjoint-insert, disjoint-nil,
  lookup_last, lookup-lookup_last,
}

-- The value if the test holds, and otherwise the error for a repeated name.
abbrev pub Agrees {ℓ} : {A : Type ℓ} → Bool → A → Result A → Type ℓ
Agrees true a r = r ≡ ok a
Agrees false a r = (key : Text) × (r ≡ err (duplicate key))

Agrees-bind {ℓ κ} :
    {A : Type ℓ} {B : Type κ} (b c : Bool) (a : A) (x : B) (m : Result A) (f : A → Result B)
    → Agrees b a m
    → Agrees c x (f a)
    → Agrees (b && c) x (bind m f)
Agrees-bind true c a x m f h k = rw h k
Agrees-bind false c a x m f (key, h) k = (key, rw h refl)

Agrees-map {ℓ κ} :
    {A : Type ℓ} {B : Type κ} (b : Bool) (a : A) (m : Result A) (f : A → B)
    → Agrees b a m
    → Agrees b (f a) (bind m λ r. ok (f r))
Agrees-map true a m f h = rw h refl
Agrees-map false a m f (key, h) = (key, rw h refl)

Agrees-fresh :
    (key : Text) (so_far : Fields) (ts : List Token)
    → Agrees (not (exists key so_far)) (tt, ts) (fresh key so_far ts)
unfolding fresh
Agrees-fresh key so_far ts = elim (Bool-cases (exists key so_far)) [
  | inl old ↦ rw old (key, refl)
  | inr new ↦ rw new refl
]

regroup : (n d s x f : Bool) → (n && (d && ((s && x) && f))) ≡ ((n && s) && ((x && d) && f))
regroup n d s x f = ground arith

-- Given more than this fuel, the decoder agrees on `a` in front of any other tokens.
abbrev Consumes {ℓ} : {A : Type ℓ} → List Token → ℕ → Bool → A → (ℕ → Decoder A) → Type ℓ
Consumes tokens least b a m =
    (behind : List Token) (fuel : ℕ)
    → suc least ≤ fuel
    → Agrees b (a, behind) (m fuel (tokens ++ behind))

abbrev OnValue : Value → Type 0
OnValue v = Consumes (flatten v) (2 * length (flatten v)) (distinct v) v decode_value

abbrev OnItems : Items → Type 0
OnItems xs =
    let tokens = flatten_items xs in
    Consumes (tokens ++ (close_array ∷ [])) (suc (2 * length tokens)) (distinct_items xs) xs
      decode_items

abbrev OnFields : Fields → Type 0
OnFields fs =
    (so_far : Fields)
    → let tokens = flatten_fields fs in
      Consumes (tokens ++ (close_object ∷ [])) (suc (2 * length tokens))
        (disjoint so_far fs && distinct_fields fs) (join so_far fs) (λ f. decode_members f so_far)

-- The call itself is paid with one unit.
paid {ℓ} :
    (P : ℕ → Type ℓ) (least : ℕ)
    → ((left : ℕ) → least ≤ left → P (suc left))
    → (fuel : ℕ) → suc least ≤ fuel
    → P fuel
paid P least step (suc left) enough = step left (omega arith)
paid P least step zero enough = absurd (omega arith)

-- One member: the test on its name, its value, and the other members.
member_step :
    (k : Text) (w : Value) (fs so_far : Fields) (us ts rest : List Token) (p : Decoder Value)
    (q : Value → Decoder Fields)
    → Agrees (distinct w) (w, ts) (p us)
    → Agrees
        (disjoint (insert k w so_far) fs && distinct_fields fs)
        (join (insert k w so_far) fs, rest)
        (q w ts)
    → Agrees
        (disjoint so_far (field k w fs) && distinct_fields (field k w fs))
        (join so_far (field k w fs), rest)
        (bind (fresh k so_far us) λ r. bind (p r.1) λ x. q x.0 x.1)
unfolding disjoint distinct
member_step k w fs so_far us ts rest p q hp hq =
    subst
      (λ b.
        Agrees b (join so_far (field k w fs), rest)
          (bind (fresh k so_far us) λ r. bind (p r.1) λ x. q x.0 x.1))
      (regroup (not (exists k so_far)) (distinct w) (disjoint so_far fs) (not (exists k fs))
        (distinct_fields fs))
      (Agrees-bind _ _ (tt, us) _ _ _ (Agrees-fresh k so_far us)
        (Agrees-bind (distinct w) _ (w, ts) _ (p us) (λ x. q x.0 x.1) hp
          (subst (λ b. Agrees b (join so_far (field k w fs), rest) (q w ts))
            (ap (λ b. b && distinct_fields fs) (disjoint-insert k w so_far fs))
            (subst
              (λ g.
                Agrees (disjoint (insert k w so_far) fs && distinct_fields fs) (g, rest) (q w ts))
              (join-insert k w so_far fs) hq))))

decode_value-Agrees : (v : Value) → OnValue v
unfolding decode_value flatten distinct more end_array end_object disjoint member_name join
decode_value-Agrees v = elim v as OnValue OnItems OnFields [
  | leaf s ↦ λ rest. paid _ _ λ f h. refl
  | array (xs → ih) ↦ λ rest. paid _ _ λ f h.
      Agrees-map (distinct_items xs) (xs, rest) _ (λ r. (array r.0, r.1))
        (ih rest f (omega (arith, length-tokens (flatten_items xs) (close_array ∷ []))))
  | object (fs → ih) ↦ λ rest. paid _ _ λ f h.
      Agrees-map (distinct_fields fs) (fs, rest) _ (λ r. (object r.0, r.1))
        (subst
          (λ b.
            Agrees b (fs, rest)
              (decode_members f no_fields ((flatten_fields fs ++ (close_object ∷ [])) ++ rest)))
          (ap (λ b. b && distinct_fields fs) (disjoint-nil fs))
          (ih no_fields rest f
            (omega (arith, length-tokens (flatten_fields fs) (close_object ∷ [])))))
  | no_items ↦ λ rest. paid _ _ λ f h. refl
  | item (w → ih) (xs → ihs) ↦ λ rest. paid _ _ λ f h.
      rw
        (
          append_assoc (flatten w) (flatten_items xs) (close_array ∷ []),
          append_assoc (flatten w) _ rest,
          more-flatten w,
        )
        (Agrees-bind (distinct w) (distinct_items xs) (w, _) (item w xs, rest) _ _
          (ih _ f (omega (arith, length-tokens (flatten w) (flatten_items xs))))
          (Agrees-map (distinct_items xs) (xs, rest) _ (λ r. (item w r.0, r.1))
            (ihs rest f
              (omega (arith, flatten_pos w, length-tokens (flatten w) (flatten_items xs))))))
  | no_fields ↦ λ so_far rest. paid _ _ λ f h. rw (join-nil so_far) refl
  | field k (w → ih) (fs → ihs) ↦ λ so_far rest. paid _ _ λ f h.
      rw
        (
          append_assoc (flatten w) (flatten_fields fs) (close_object ∷ []),
          append_assoc (flatten w) _ rest,
        )
        (member_step k w fs so_far _ _ rest (decode_value f)
          (λ v'. decode_members f (insert k v' so_far))
          (ih _ f (omega (arith, length-tokens (flatten w) (flatten_fields fs))))
          (ihs (insert k w so_far) rest f
            (omega (arith, length-tokens (flatten w) (flatten_fields fs)))))
]

-- The object if no name is repeated, the error for another value, or the error for the repetition.
abbrev pub Decoded : Bool → Value → Result Fields → Type 0
Decoded true v r = r ≡ as_object v
Decoded false v r = (key : Text) × (r ≡ err (duplicate key))

-- A body that is a JSON value, so that its tokens are those of the value, decodes to that value if it
-- is an object and no object in it, at any depth, has two members with one name. It is refused as
-- no object if it is another value, and refused as a duplicate if a name is repeated somewhere: the
-- fuel of the decoder is always enough.
pub decode_object-Decoded :
    (lex : Text → Option (List Token)) (body : Text) (v : Value)
    → lex body ≡ some (flatten v)
    → Decoded (distinct v) v (decode_object lex body)
unfolding decode_object
decode_object-Decoded lex body v h =
    rw (h, decode_object)
      (conclude (distinct v) (decode_value (2 * length (flatten v) + 1) (flatten v)) whole)
  where
    whole : Agrees (distinct v) (v, []) (decode_value (2 * length (flatten v) + 1) (flatten v))
    whole =
        subst (λ ts. Agrees (distinct v) (v, []) (decode_value (2 * length (flatten v) + 1) ts))
          (append-nil (flatten v))
          (decode_value-Agrees v [] (2 * length (flatten v) + 1) (omega arith))

    conclude :
        (b : Bool) (r : Result (Value × List Token))
        → Agrees b (v, []) r
        → Decoded b v (bind r λ (w, ts). as_object w)
    conclude true r e = rw e refl
    conclude false r (key, e) = (key, rw e refl)

-- A body that is a JSON object and that is accepted decodes to the object as it is written, and a
-- consumer that takes the first member of a name and one that takes the last read the same.
pub decode_object-unambiguous :
    (lex : Text → Option (List Token)) (body : Text) (fs gs : Fields) (key : Text)
    → lex body ≡ some (flatten (object fs))
    → decode_object lex body ≡ ok gs
    → (gs ≡ fs) × (lookup key gs ≡ lookup_last key fs)
unfolding distinct as_object
decode_object-unambiguous lex body fs gs key h accepted =
    conclude (distinct_fields fs) refl (decode_object-Decoded lex body (object fs) h)
  where
    conclude :
        (b : Bool)
        → distinct_fields fs ≡ b
        → Decoded b (object fs) (decode_object lex body)
        → (gs ≡ fs) × (lookup key gs ≡ lookup_last key fs)
    conclude true d e =
        let same : gs ≡ fs = cc in (same, ap (lookup key) same ∙ lookup-lookup_last key fs d)
    conclude false d (k, e) = cc
