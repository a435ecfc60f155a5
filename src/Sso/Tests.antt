-- ===== src/Sso/Tests.antt =====
-- A sign-in of a reviewer, from the login to the sign-out.
use kite_rail.Prelude.{
  Holds, ℕ, ◌≡◌, ◌≢◌, ◌⊎◌, refl, true, false, Option, none, some, List, [], ◌∷◌, ◌++◌, map, All,
  arith, sym, ap, ◌∙◌,
}
use kite_rail.Prelude.Text.{Text, codes, text_eq}
use kite_rail.Prelude.Http.{query_get}
use kite_rail.Prelude.Headers
use kite_rail.Prelude.Std.{Std}
use kite_rail.Auth.{reviewer, admin}
use kite_rail.Sso.{Config, string, boolean, array, cookie, hash_token, role_of}
use kite_rail.Sso.Table.{Attempt, Session}
use kite_rail.Sso.World.{World, Env, IdToken}
use kite_rail.Sso.Service.{
  Request, failure, redirected, signed_out, callback, logout, session_token, authenticate_session,
  Event, login_request, session_check, run,
}
use kite_rail.Sso.Callback.{Answered, callback-Answered}
use kite_rail.Sso.SingleUse.{callback-once}
use kite_rail.Sso.Redirects.{SafeAnswer, run-Safe}
use kite_rail.Sso.Sessions.{Active, authenticate_session-Active}
use kite_rail.Sso.SignedOut.{logout-final}

abbrev console : Text
console = codes "https://console.example"

abbrev std : Std
std = record {
  to_lower = map Headers.to_lower;
  trim_space = λ s. s;
  parse_url = λ s. some (record {
    scheme = codes "https";
    host = codes "console.example";
    hostname = codes "console.example";
    has_user = false;
    path = codes "//evil.example";
  });
  set_query = λ t k v. t ++ (codes "?" ++ (k ++ (codes "=" ++ v)));
}

abbrev cfg : Config
cfg = record {
  redirect_url = codes "https://elodea.example/auth/callback";
  groups_claim = codes "groups";
  identity_claim = codes "email";
  reviewer_groups = codes "reviewers" ∷ [];
  admin_groups = [];
  session_ttl = 28800000000000;
  session_idle_ttl = 3600000000000;
  cookie_same_site = codes "lax";
  allowed_origins = codes "*" ∷ console ∷ [];
}

abbrev id_token : Text → IdToken
id_token nonce = record {
  subject = codes "u1";
  nonce = nonce;
  claims = some (
      (codes "email", string (codes "Ada@example.com"))
      ∷ (codes "email_verified", boolean true)
      ∷ (codes "groups", array (none ∷ some (codes "reviewers") ∷ []))
      ∷ []);
}

abbrev sha256 : Text → Text
sha256 t = t

-- The random source draws the number of the call, behind a mark.
abbrev env : ℕ → Env
env mark = record {
  store_fails = λ n. false;
  now = λ n. 1000;
  db_now = λ n. 1000;
  random = λ n. mark ∷ n ∷ [];
  discovered = λ n. true;
  exchange = λ n code verifier. some (codes "raw");
  verify = λ n raw. some (id_token (7 ∷ 2 ∷ []));
}

abbrev empty : World
empty = record { attempts = []; sessions = []; calls = 0 }

abbrev get_login : Request
get_login = record { params = []; headers = []; cookies = [] }

-- The provider answers the state that the login drew at its first call behind the first.
abbrev answered : Request
answered = record {
  params = (codes "state", 7 ∷ 1 ∷ []) ∷ (codes "code", codes "c") ∷ [];
  headers = [];
  cookies = [];
}

abbrev started : World
started = record {
  attempts =
      record {
        state = 7 ∷ 1 ∷ [];
        nonce = 7 ∷ 2 ∷ [];
        code_verifier = 7 ∷ 3 ∷ [];
        return_to = console ++ codes "/";
        expires_at = 600000001000;
      }
      ∷ [];
  sessions = [];
  calls = 6;
}

login_stores : (run (env 7) std cfg sha256 (login_request get_login ∷ []) empty).1 ≡ started
unfolding run kite_rail.Sso.Service.login kite_rail.Sso.valid_return_to text_eq query_get
    kite_rail.Sso.World.store_attempt kite_rail.Sso.Table.create_login_attempt
login_stores = refl

callback-Answered_example :
    Answered
      (env 7)
      std
      cfg
      sha256
      answered
      started
      (callback (env 7) std cfg sha256 answered started)
callback-Answered_example = callback-Answered (env 7) std cfg sha256 answered started

state_drawn : query_get (codes "state") answered.params ≡ 7 ∷ 1 ∷ []
unfolding query_get text_eq
state_drawn = refl

signed_in :
    (callback (env 7) std cfg sha256 answered started).0
    ≡ redirected (console ++ codes "/") (some (cookie std cfg (7 ∷ 10 ∷ []) (some 28800)))
unfolding callback kite_rail.Sso.World.consume kite_rail.Sso.Table.consume_login_attempt text_eq
    query_get kite_rail.Sso.identity_from kite_rail.Sso.claim kite_rail.Sso.role_from
    kite_rail.Sso.World.store_session kite_rail.Sso.Table.create_session cookie
signed_in = refl

-- The same callback, again.
callback-once_example :
    (callback
      (env 8)
      std
      cfg
      sha256
      answered
      (run
        (env 8)
        std
        cfg
        sha256
        (login_request get_login ∷ [])
        (callback
          (env 7)
          std
          cfg
          sha256
          answered
          (run (env 7) std cfg sha256 (login_request get_login ∷ []) empty).1).1).1).0
    ≡ failure 400
callback-once_example =
    callback-once (env 7) (env 8) std cfg sha256 (login_request get_login ∷ [])
      (login_request get_login ∷ []) answered answered empty refl
      (λ e.
        cc
          (sym signed_in, ap (λ w. (callback (env 7) std cfg sha256 answered w).0) login_stores, e))
      refl (λ n e. eight (e ∙ drawn))
  where
    drawn : query_get (codes "state") answered.params ≡ 7 ∷ 1 ∷ []
    drawn = state_drawn

    eight : {n : ℕ} → 8 ∷ n ∷ [] ≢ 7 ∷ 1 ∷ []
    eight e = ground arith

run-Safe_example :
    All
      (SafeAnswer std cfg)
      (run (env 7) std cfg sha256 (login_request get_login ∷ session_check get_login ∷ []) empty).0
run-Safe_example =
    run-Safe (env 7) std cfg sha256 (login_request get_login ∷ session_check get_login ∷ []) empty
      refl

abbrev ada : Session
ada = record {
  id_hash = hash_token sha256 (codes "t");
  subject = codes "u1";
  email = codes "ada@example.com";
  role = codes "reviewer";
  created_at = 1000;
  expires_at = 2000;
  last_seen_at = 1000;
  revoked_at = none;
}

abbrev signed : World
signed = record { attempts = []; sessions = ada ∷ []; calls = 0 }

abbrev sign_out : Request
sign_out = record {
  params = [];
  headers = (codes "X-Requested-With", codes "elodea" ∷ []) ∷ [];
  cookies = (codes "__Host-elodea_session", codes "t") ∷ [];
}

ada_known :
    (authenticate_session (env 7) std cfg sha256 sign_out signed).0
    ≡ some (record { id = codes "ada@example.com"; role = reviewer })
unfolding authenticate_session text_eq query_get kite_rail.Sso.cookie_name
    kite_rail.Prelude.Text.has_prefix kite_rail.Sso.World.active
    kite_rail.Sso.Table.get_active_session hash_token kite_rail.Prelude.Text.hex
    kite_rail.Auth.role_eq kite_rail.Sso.role_of
ada_known = refl

authenticate_session-Active_example :
    (s : Session) × (token : Text) × (token ≡ session_token (env 7) std cfg sha256 sign_out)
    × (token ≢ [])
    × Holds s signed.sessions
    × Active 1000 1000 cfg.session_idle_ttl (hash_token sha256 token) s
    × (codes "ada@example.com" ≡ s.email)
    × (reviewer ≡ role_of s.role)
    × ((reviewer ≡ reviewer) ⊎ (reviewer ≡ admin))
authenticate_session-Active_example =
    authenticate_session-Active (env 7) std cfg sha256 sign_out signed
      (record { id = codes "ada@example.com"; role = reviewer }) ada_known

token_t : session_token (env 7) std cfg sha256 sign_out ≡ codes "t"
unfolding session_token text_eq query_get kite_rail.Sso.cookie_name
    kite_rail.Prelude.Text.has_prefix
token_t = refl

gone : (logout (env 7) std cfg sha256 sign_out signed).0 ≡ signed_out (cookie std cfg [] none)
unfolding logout kite_rail.Sso.World.on_sessions Headers.get Headers.canonical Headers.lookup
    text_eq query_get kite_rail.Sso.cookie_name kite_rail.Prelude.Text.has_prefix
gone = refl

fresh_hash :
    (n : ℕ)
    → hash_token sha256 (300 ∷ n ∷ [])
      ≢ hash_token sha256 (session_token (env 7) std cfg sha256 sign_out)
unfolding session_token hash_token kite_rail.Prelude.Text.hex text_eq query_get
    kite_rail.Sso.cookie_name kite_rail.Prelude.Text.has_prefix
fresh_hash n e = cc e

logout-final_example :
    (authenticate_session
      (env 300)
      std
      cfg
      sha256
      sign_out
      (run
        (env 300)
        std
        cfg
        sha256
        (login_request get_login ∷ [])
        (logout (env 7) std cfg sha256 sign_out signed).1).1).0
    ≡ none
unfolding session_token
logout-final_example =
    logout-final (env 7) (env 300) std cfg sha256 (login_request get_login ∷ []) sign_out sign_out
      (cookie std cfg [] none) signed (λ e. cc (sym token_t ∙ e)) gone refl fresh_hash
