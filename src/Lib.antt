-- ===== src/Lib.antt =====
-- The wallet and wager engine: a service that applies bets, wins, losses, refunds and rollbacks of
-- game providers to the wallets of players, once each, and keeps a ledger of every movement.
--
-- Its parts and their modules:
--   * Base: Boolean tests, int64 on unbounded integers (`wrap64`), texts as code points, lists.
--   * Domain: internal/domain. Money (money.go), Id (id.go), Wallet (wallet.go), Ledger (ledger.go),
--     Wager (wager.go up to `Fail`), Evaluate (`Evaluate`), Events (events.go), Errors (errors.go).
--     A method that mutates its receiver is a function to the new data.
--   * Application: internal/application, the commands and `NormalizeCommand`.
--   * Store: internal/adapters/postgres. Tables has the rows of the schema and the tests of the SQL
--     conditions, Monad the state of a transaction (Upholds and Ends are the logics to reason about
--     one), Rows the scans (store.go), Lasting what the operations ask of a property of the table of
--     transactions, Apply `apply` and the events (process.go, events.go), Process `ProcessWager`
--     (process.go), Create `CreateWallet` and the reads (store.go, read.go), Cursor and Page the
--     ledger by pages (read.go), Work the retries and the answers to claims, Claim the two
--     statements that make claims, Backlog what waits (work.go), Runs all of these in any order. Reversals is about the
--     settled refunds and rollbacks of one transaction, Bank the contract of `ProcessWager` without
--     tables.
--   * Config: `Load` of internal/platform/config/config.go.
--   * Workers: `Decode`, `Backoff` and `retryReason` of internal/workers/engine.go; Consume `handle`,
--     Outbox `publishOne`, Rounds the loops, one round of each, while others commit between calls.
--   * HttpApi: `applicationError` of internal/adapters/httpapi/http.go; Requests the guards and the
--     two handlers that write, Reads the five that read.
--   * Auth: the configuration, the keys and the validation of tokens of
--     internal/adapters/auth/oidc.go.
--   * Observability: two labels of internal/adapters/observability.
--   * Tests: the theorems at concrete inputs.
--
-- `ProcessWager` normalizes a command, looks for a transaction that has its key or its external id,
-- locks the wallet, and inserts and applies a new transaction: `Evaluate` decides, and the wallet's
-- row, the ledger, the transaction's row and the outbox are written together. A transaction is a
-- function of the tables and a counter; an error leaves what the others committed alone.
--
-- Parameters are the record `Env`: the clocks of the process and of the server, the generator of
-- identities, which statements fail, what other transactions commit before a lock is granted, and
-- the hash of a payload; `Decode` takes the JSON decoder and the hash of a message, the claims
-- which rows others lock, `handle` and `publishOne` the broker's answers, the rounds what others
-- commit before each of their calls, the HTTP guards the validation of a token, which in Auth takes
-- the check of a signature with the registered claims, base64, JSON and the HTTP client, the pages
-- a codec of cursors and the parser of a limit, and `Load` the environment and the parsers. Times
-- are nanoseconds on ℕ, 0 for the zero time; the durations of the configuration are on ℤ.
-- Definitions are structurally recursive; the digits of a number are on fuel that exceeds it, which
-- is enough, as the round trip shows, and the loop of `publish` on fuel that is enough once it
-- exceeds the events that are left and those that others still add.
--
-- Not modelled: JSON and hashing; the time limits, metrics and cancellation of the workers, and
-- goroutines that interleave within one of their calls of the store; routing, headers and the text
-- of HTTP messages; the calls of SQS, the collectors of metrics and the wiring, which are calls of
-- libraries.
-- A statement sees the tables as a list of rows; a row is stored in its domain type, where the source
-- scans columns and parses them.
pub mod Base
pub mod Domain
pub mod Application
pub mod Config
pub mod Store
pub mod Workers
pub mod HttpApi
pub mod Auth
pub mod Observability
pub mod Tests
