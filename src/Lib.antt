-- ===== src/Lib.antt =====
-- A verification library for dilion, an authentication and privacy server. It models the privacy
-- engine of internal/privacy: data subject requests, legal holds, the erasure pipeline and the
-- compliance policies and durations that steer them; the access control of internal/iam: roles,
-- role assignments, API keys and the decision who may do what; the limit on failed credentials and
-- the refresh tokens of internal/auth; the guard of outbound calls of internal/netguard; and the
-- reading of the access log of internal/audit.
--
-- The parts and their files:
--   Base            lists as tables and Go slices, Boolean tests, lemmas on updates and insertions
--   Text, Calendar  strings.TrimSpace, strconv.Atoi and decimals, and time.AddDate on a time in
--                   nanoseconds, as far as the engine uses them
--   Exec            code that calls the database: a run meets a list of ticks that say, for each
--                   statement, whether it fails and how much time passes. Exec.Grows has the rules
--                   for relations between the database before and after (invariants, frames),
--                   Exec.Yields for what holds when a run returns a value, Exec.From for
--                   relations from states that meet a precondition, and Exec.Succeeds for runs
--                   in which no statement fails
--   Privacy.Duration  internal/privacy/duration.go: ParseISODuration, String, AddTo, IsZero
--   Privacy.Domain, Privacy.Policy  internal/privacy/policy.go and the enums of service.go:
--                   erasure domains and actions, validate, mergePolicy, Resolve and the accessors
--   Privacy.Db      the tables of migrations/ that the engine works on, its errors, and Deps: what
--                   is given from outside
--   Privacy.Pipeline  internal/privacy/pipeline.go: the ten steps (Credentials 100 to 600, Evidence
--                   700 and 800, Vault 900 and 1000, with DestroyDEK of internal/kmslocal), and
--                   Runner: processRequest, logDestruction, completedDomains, activeHoldFor,
--                   and Poll: runPipelineOnce, withRequestLock.
--                   Its theorems: Gates (what stops a run), Isolation (whose rows a run touches),
--                   Receipts (step 700), Safe (relations that a run keeps), Completion
--                   (what DONE means), Liveness (runs in which no statement fails)
--   Privacy.Requests  internal/privacy/requests.go: CreateRequest, CancelRequest, GetRequest,
--                   resolvePolicy
--   Privacy.Holds   internal/privacy/holds.go: CreateHold, ReleaseHold
--   Privacy.Tasks   internal/privacy/tasks.go: runTasksOnce, executeTask, completeTask, failTask and
--                   backoffFor; Peers stands for the webhooks, connectors, secrets, random numbers
--                   and what the processor makes of a float that no int64 holds
--   Privacy.Retention  internal/privacy/retention.go: sweepConsentShredDue, shredConsentKeys
--   Privacy.System  sequences of these operations and of the workers' runs, each of which may fail
--                   at any statement
--   Iam             internal/iam, and the handlers of internal/api that grant: Db (tables), Roles,
--                   Assignments, Keys, Authorizer (Can, Permissions), Handlers (grantCeiling and the
--                   handlers of internal/api/iam.go), Ops (sequences of calls). Its theorems: Safe
--                   (relations that the operations keep), History, OwnerOnly, Decision, Revoked,
--                   Escalation (what the grant ceiling achieves), with Tests
--   Auth            internal/auth/attempts.go: throttled and what it records. Auth.Guesses has its
--                   theorems, with sequences of guesses
--   Auth.Refresh    internal/auth/grant.go, the refresh token grant: Tables (its statements in
--                   store.go), Validity (the limits of a session), Grant (refreshTokenGrant,
--                   handleRefreshTokenReuse, checkSinglePerUser, checkSessionValidity). Its theorems:
--                   Rows, Family (that the rounds find all descendants of a token), Ended, Rotated,
--                   Outcome, Redeem and Served (what a refresh answers and leaves behind), Reuse
--   Audit           internal/audit/read.go: ListEvents, with its filter, order, cursor and pages.
--                   Audit.Order has the order of the events, Audit.Cursor reads a cursor back,
--                   Audit.Pages is about one page, and Audit.Walk reads page after page, on fuel: one
--                   more than the events that match is enough
--   Net             internal/netguard/netguard.go: Addr (what it uses of net/netip), Guard (IsPublic,
--                   ParseNetworks, Contains, Allowed, Control, CheckHost) and ClientIp (ClientIP).
--                   Its theorems: Public, Zones and Forwarded
--   Privacy.Tests   concrete tables, runs on them, and the properties there
--
-- A table is the list of its rows in the order of its key. A statement is one step that reads and
-- writes the tables at once; a failing statement changes nothing and returns its error. A function
-- that reports through a log only, or a hook whose answer is only logged, is left out. Times are
-- natural numbers of nanoseconds, an int that may be negative is its 64-bit pattern, and AddDate
-- wraps it as the code does. A loop over rows is recursion on the list; fuel is used for the digits
-- of a number, for the rounds of a token family, as many as there are tokens, and for the pages of
-- a walk. The calls of internal/iam are one after the other. An interleaving of two runs is not
-- modelled statement by statement: the code holds an advisory lock for a request or a person, and
-- Gates states what a run does when the row that it loaded has changed since.
--
-- Deps stands for code outside the repository or for values that nothing may rest on: the answers
-- of registered hooks, keyed hashes, new identifiers, and uuid.Parse on the trimmed text. The one
-- assumption on them, in Liveness alone, is AcceptsAll: every hook accepts. Parsers stands for the
-- parsers and the printer of net and net/netip, digest for SHA-256, and new_token for the random
-- text of a new refresh token; nothing is assumed of them. Codec stands for base64 and the format of
-- a time: what is written is read back, a time if it is before a horizon (in Go the
-- year 10000), and a time has no bar. The database orders the identifiers
-- of events; the order is strict and total. Issuing an access token is one statement that may fail.
--
-- Not modelled: the HTTP API (internal/api, httpapi), the authentication server (internal/auth)
-- other than its attempts and refresh tokens, netguard's Transport, which builds an http.Transport,
-- the lists and the actor details of internal/iam, instances, GetEvent and the writing of the audit
-- log, devmail, the envelope encryption of internal/kmslocal other than DestroyDEK, YAML and JSON
-- decoding of policies, and of internal/privacy the profile vault, its search, consent, the outbox
-- and the access log sweep.

pub mod Audit
pub mod Auth
pub mod Base
pub mod Calendar
pub mod Exec
pub mod Iam
pub mod Net
pub mod Privacy
pub mod Text
