-- ===== src/Slack/Tests.antt =====
-- A click on Approve, from the request to the outcome.
use kite_rail.Prelude.{
  ℕ, ◌≡◌, ◌⊎◌, refl, Bool, true, false, Option, none, some, List, [], ◌∷◌, ◌++◌, map, if◌then◌else◌,
}
use kite_rail.Prelude.Text.{codes, text_eq, hex}
use kite_rail.Prelude.Http.{post}
use kite_rail.Prelude.Headers
use kite_rail.Quarantine.World
use kite_rail.Quarantine.World.{busy, unreachable}
use kite_rail.Slack.World.{user_info, AppState, Env}
use kite_rail.Slack.Service.{App, Request, serve_http}
use kite_rail.Slack.Authorised.{Authorised}

abbrev inner_env : World.Env
inner_env = record {
  store_fails = λ n. false;
  ledger_fails = λ n. false;
  cancelled = λ n. false;
  lock = λ n. busy;
  locked_rows = λ n m. false;
  answer_lost = λ n. false;
  now = λ n. 1000;
  upstream = λ n. unreachable;
}

abbrev env : Env
env = record {
  now = λ n. 100000000000;
  users_info = λ n user. user_info true false false (codes "Ada@example.com");
  inner = inner_env;
}

abbrev app : App
app = record {
  cfg = record {
    signing_secret = codes "s";
    team_id = codes "T1";
    reviewers = codes "ada@example.com" ∷ [];
  };
  std = record {
    to_lower = map Headers.to_lower;
    trim_space = λ s. s;
    parse_url = λ s. none;
    set_query = λ t k v. t;
  };
  hmac = λ key message. 7 ∷ [];
  parse_form = λ raw. some raw;
  parse_interaction = λ form. some (record {
    type = codes "block_actions";
    team = codes "T1";
    user = codes "U1";
    response_url = [];
    actions = record { action_id = codes "elodea_approve"; value = codes "5" } ∷ [];
    blocks = [];
  });
  decider = record {
    uuid = record {
      parse = λ s. if text_eq s (codes "5") then some 5 else none;
      print = λ n. codes "5";
    };
    sha256 = λ t. t;
    has_ledger = true;
  };
}

abbrev click : Request
click = record {
  method = post;
  headers =
      (codes "X-Slack-Request-Timestamp", codes "100" ∷ [])
      ∷ (codes "X-Slack-Signature", codes "v0=07" ∷ [])
      ∷ [];
  body = some (codes "payload");
}

abbrev idle : AppState
idle = record {
  emails = [];
  updates = [];
  inner = record { rows = []; history = []; calls = 0 };
  calls = 0;
}

click_accepted : (serve_http env app click idle).0 ≡ 200
unfolding serve_http kite_rail.Slack.verify kite_rail.Prelude.Numbers.parse_int Headers.get
    Headers.lookup text_eq Headers.canonical hex
click_accepted = refl
