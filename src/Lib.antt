-- ===== src/Lib.antt =====
-- KiteRail: a gateway between AI agents and their tools. Each request is decided by a policy; what a
-- policy holds goes into a quarantine table until a human approves or denies it, a worker replays
-- approved requests, and every decision is written to a hash-chained ledger.
--
-- The parts and their files, with paths from the root of the repository:
--   Prelude      bytes, decimal and hexadecimal text, int64 parsing, net/http headers and queries,
--                and the functions of strings and net/url that are parameters
--   Policy       backend/internal/types/types.go: actions and decisions
--   Engine       backend/internal/opaengine/engine.go: Evaluate, Reload, WatchForChanges
--   Auth         backend/internal/auth/auth.go: bearer tokens, sessions, CSRF check, role guards
--   Mcp          backend/internal/mcp: Headers (headers.go: CaptureReplayHeaders,
--                DecodeReplayHeaders) and Json (json.go: DecodeObject, decodeValue)
--   Proxy        backend/internal/proxy: Ingress and Mirrored (validateIngress,
--                validateMirroredHeaders and what they call), Base64 (the encodings these use),
--                Adapter (adapter.go: Parse and the responses), Upstream (the Rewrite hook),
--                World (what its calls can reach), Handler (ServeHTTP), Recheck (NewPolicyRecheck)
--   Sso          backend/internal/sso/sso.go: identities, roles and return addresses; Table (the
--                statements of backend/internal/db/auth.sql.go), World, Service (login, callback,
--                logout, AuthenticateSession, one tick of Run)
--   Slack        backend/internal/slackapp/slackapp.go: the signature (verify, Sign), slackHost and
--                resolvedBlocks; World, Service (ServeHTTP, decide, email, respond)
--   Config       backend/internal/config/config.go: Rules and Validate (Validate and what it calls),
--                Legacy (ApplyLegacyEnv), Environment (loadKeyPairs, setListEnv, setFromFile),
--                Settings and Load (Load)
--   Notify       backend/internal/notify/notify.go: slackEscape, backoff, truncate, Sign; Outbox (the
--                statements of backend/internal/db/notify.sql.go), Delivery (the Worker)
--   Ledger       backend/internal/ledger and the statements of backend/internal/db/ledger.sql.go:
--                Timestamp and Entry (normalizeTimestamp, calculateHash), Append (Append, appendOnce
--                and its retries), Verify (Stream, VerifyChain), Page (Page, Query, Head), Handler
--                and Routes (handler.go)
--   Quarantine   backend/internal/quarantine and the statements of
--                backend/internal/db/quarantine.sql.go: Table (the SQL), Store (store.go), World (what
--                calls can reach), Worker and Drain (worker.go), Handler (handler.go)
--
-- State. The ledger table is a list of rows by descending seq_num; the quarantine table, the outbox
-- and the tables of sign-in attempts and sessions are lists of rows. The worker and the reviewer API
-- run in a state monad over a World: the quarantine rows, and a history of the ledger entries that
-- were accepted and the requests that were handed to the HTTP client. The proxy runs in one over its
-- own World, whose history also has what it has held, and the Slack app in one over the World of the
-- reviewer API. What the database, the clock, the upstream, Slack, the identity provider and a cancelled
-- context do is decided call by call by an environment that every theorem quantifies over. SHA-256,
-- HMAC, the libraries for UUIDs, JSON, YAML and URLs, and OPA are parameters, and so is the policy
-- re-check for the worker.
--
-- Bounds. Numbers are unbounded: sequence numbers and ids of the table stay below 2^63, attempts
-- below 2^31. A negative number occurs only as a year, or where a request or the configuration is
-- parsed. Append has 8 rounds as in the source. The loops of the workers run for any number of ticks.
-- The client that reads pages has fuel, and a page more than there are entries is enough. The
-- decoder of JSON has fuel for twice the tokens of a body, which is shown to be enough.
--
-- Requests of a replay are counted as calls of the HTTP client; that its transport may send one with
-- an idempotency key again is below the model. A statement of the database that fails has changed
-- nothing, a commit included, except that rows may be claimed and the answer be lost.
--
-- Not modelled: the texts of the proxy's errors and its event publisher, the bodies of
-- notifications and of messages in Slack, the listing of policies, the dashboard and the wiring of the
-- server; logging, metrics, latencies and waiting times; concurrent transactions, which the
-- advisory locks of the source serialise.
pub mod Prelude
pub mod Policy
pub mod Proxy
pub mod Engine
pub mod Auth
pub mod Mcp
pub mod Notify
pub mod Sso
pub mod Ledger
pub mod Quarantine
pub mod Slack
pub mod Config
