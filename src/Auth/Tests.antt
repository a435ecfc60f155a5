-- ===== src/Auth/Tests.antt =====
-- The guards at concrete requests, with answers that are a status or the identity that was admitted.
use kite_rail.Prelude.{ℕ, ◌≡◌, ◌⊎◌, inl, inr, sym, true, Option, none, some, List, [], ◌∷◌}
use kite_rail.Prelude.Text.{Text, codes}
use kite_rail.Prelude.Http.{post}
use kite_rail.Prelude.Headers
use kite_rail.Auth.{agent, reviewer, admin, Identity, Request, reviewer_or_admin, human_middleware}
use kite_rail.Auth.Guards.{Bearer, InSession, Guarded, human_route-Guarded, Configured}

pub data Answer : Type 0 where
  status : ℕ → Answer
  served : Option Identity → Answer

abbrev alice : Identity
alice = record { id = codes "alice"; role = reviewer }

abbrev bot : Identity
bot = record { id = codes "bot"; role = agent }

abbrev tokens : List (Text × Identity)
tokens = (codes "k", bot) ∷ (codes "k2", alice) ∷ []

-- A request that changes state, with the reviewer's token.
abbrev decision : Request
decision = record {
  method = post;
  headers = (codes "Authorization", codes "Bearer k2" ∷ []) ∷ [];
  identity = none;
}

abbrev serve : Request → Answer
serve r = served r.identity

human_route-Guarded_example :
    Guarded status serve
      (λ i.
        ((i.role ≡ reviewer) ⊎ (i.role ≡ admin))
        × (Bearer tokens (Headers.get (codes "Authorization") decision.headers) i
            ⊎ InSession (some (λ r. some bot)) (λ o. true) decision i))
      decision
      (human_middleware status
        (reviewer_or_admin status serve)
        tokens
        (some (λ r. some bot))
        (λ o. true)
        decision)
human_route-Guarded_example =
    human_route-Guarded status serve tokens (some (λ r. some bot)) (λ o. true) decision

alice_only : (j : Identity) → Configured (codes "k2") j tokens → j ≡ alice
alice_only j (inl h) = cc
alice_only j (inr (inl h)) = sym h.1
alice_only j (inr (inr h)) = absurd h
