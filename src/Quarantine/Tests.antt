-- ===== src/Quarantine/Tests.antt =====
-- Held actions in two rows, and what the theorems say of them.
use kite_rail.Prelude.{
  ℕ, ltb, ◌≡◌, refl, Option, true, false, none, some, [], ◌∷◌, ◌==◌, if◌then◌else◌,
}
use kite_rail.Prelude.Text.{Text, codes, text_eq}
use kite_rail.Prelude.Headers.{Headers}
use kite_rail.Prelude.Http.{post}
use kite_rail.Policy.{deny, ProxyDecision}
use kite_rail.Mcp.Headers.{decode_replay_headers}
use kite_rail.Quarantine.Worker.Blocking.{posts, SendsNothing, denied_replay-SendsNothing}
use kite_rail.Quarantine.Worker.Requests.{AtMostOne, process_claimed-AtMostOne}
use kite_rail.Auth.{agent, role_eq}
use kite_rail.Quarantine.Table.{
  Row, Rows, Status, pending, approved, replaying, approve_quarantine_entry, update_where,
}
use kite_rail.Quarantine.Store.{Uuid, QuarantineEntry, to_quarantine_entry, null_string}
use kite_rail.Quarantine.Machine.{Evolves, execute, execute-Evolves, claim_oldest}
use kite_rail.Quarantine.World.{World, Env, granted, status_code}
use kite_rail.Quarantine.Worker.{
  process_claimed, current_decision, Worker, default_max_replay_attempts,
}
use kite_rail.Quarantine.Drain.{run}
use kite_rail.Quarantine.Worker.WriteAhead.{WriteAhead}
use kite_rail.Quarantine.Worker.Passes.{run-WriteAhead}
use kite_rail.Quarantine.Handler.{
  Handler, Request, with_reason, done, reviewer_identity, serve_http,
}
use kite_rail.Quarantine.Handler.Decisions.{
  approval, denial, decide_held, Changed, Decided, decide_held-Decided, decided_once,
}
use kite_rail.Quarantine.Handler.Access.{ReadOnly, serve_http-ReadOnly}

abbrev held : ℕ → Status → Row
held id status = record {
  id = id;
  agent_id = codes "a";
  tool_name = codes "pay";
  payload = codes "body";
  status = status;
  created_at = id;
  resolved_at = none;
  resolved_by = none;
  reason = none;
  attempts = 0;
  replayed_at = none;
  request_headers = [];
  policy_rule = codes "r";
  explanation = [];
}

-- Two rows have an id that can be parsed.
abbrev toy_uuid : Uuid
toy_uuid = record {
  parse =
      λ s. if text_eq s (codes "1") then some 1 else if text_eq s (codes "2") then some 2 else none;
  print = λ n. if n == 1 then codes "1" else codes "2";
}

abbrev calm : Env
calm = record {
  store_fails = λ n. false;
  ledger_fails = λ n. false;
  cancelled = λ n. false;
  lock = λ n. granted;
  locked_rows = λ n k. false;
  answer_lost = λ n. false;
  now = λ n. n;
  upstream = λ n. status_code 200;
}

abbrev worker : Worker
worker = record {
  uuid = toy_uuid;
  sha256 = λ s. 7 ∷ s;
  json_unmarshal = λ s. some [];
  has_ledger = true;
  recheck = none;
  target_ok = true;
  target_auth_token = [];
  max_replay_attempts = default_max_replay_attempts;
  batch_size = 10;
}

abbrev handler : Handler
handler = record { uuid = toy_uuid; sha256 = λ s. 7 ∷ s; has_ledger = true }

abbrev rows : Rows
rows = held 1 approved ∷ held 2 pending ∷ []

abbrev world : World
world = record { rows = rows; history = []; calls = 0 }

run-WriteAhead_example : WriteAhead (run calm worker (tt ∷ []) world).history
run-WriteAhead_example = run-WriteAhead calm worker refl (tt ∷ []) world tt

execute-Evolves_example :
    Evolves (claim_oldest (λ n. false) 10) rows (execute (claim_oldest (λ n. false) 10) rows)
execute-Evolves_example = execute-Evolves (claim_oldest (λ n. false) 10) rows

decide_held-Decided_example :
    Decided toy_uuid true approval
      (codes "2")
      (codes "r")
      world
      (decide_held calm handler approval (codes "2") (codes "r") world)
decide_held-Decided_example =
    decide_held-Decided calm handler approval (codes "2") (codes "r") world

-- The table after the approval of the second row, at time 1.
abbrev decided_rows : Rows
decided_rows = (approve_quarantine_entry 1 (null_string (codes "r")) 2 rows).0

approval-Changed : Changed toy_uuid approval (codes "2") (codes "r") rows decided_rows
unfolding approve_quarantine_entry text_eq update_where
approval-Changed = (1, 2, refl, (λ p. cc), refl)

decided_once_example : ¬ (
    decide_held calm handler
      (denial [])
      (codes "2")
      (codes "s")
      (record world { rows = decided_rows })
    ≡ (done, world))
decided_once_example =
    decided_once calm handler approval (denial []) (codes "2") (codes "r") (codes "s") rows
      (record world { rows = decided_rows }) world approval-Changed

-- A denial that an agent sends.
abbrev from_agent : Request
from_agent = record {
  method = post;
  path = codes "/api/v1/quarantine/2/deny";
  params = [];
  identity = some (record { id = codes "a"; role = agent });
  body = with_reason (codes "no") false;
}

serve_http-ReadOnly_example : ReadOnly (serve_http calm handler from_agent)
unfolding reviewer_identity role_eq
serve_http-ReadOnly_example = serve_http-ReadOnly calm handler from_agent refl

-- The policy now in force denies everything.
abbrev revoked : ℕ → Text → Text → Headers → Option ProxyDecision
revoked n agent_id payload headers = some (record {
  action = deny;
  rule = codes "sanctions";
  explanation = [];
  policy_version = codes "v2";
})

abbrev careful : Worker
careful = record worker { recheck = some revoked }

abbrev claimed : QuarantineEntry
claimed = to_quarantine_entry toy_uuid (held 1 replaying)

denied_replay-SendsNothing_example : SendsNothing (process_claimed calm careful claimed) world
unfolding current_decision decode_replay_headers to_quarantine_entry
denied_replay-SendsNothing_example =
    denied_replay-SendsNothing calm careful revoked claimed world refl refl

process_claimed-AtMostOne_example :
    AtMostOne claimed world (process_claimed calm worker claimed world).1
    × (ltb worker.max_replay_attempts claimed.attempts ≡ true
        → posts (process_claimed calm worker claimed world).1.history ≡ posts world.history)
process_claimed-AtMostOne_example = process_claimed-AtMostOne calm worker claimed world
