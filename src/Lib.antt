-- ===== src/Lib.antt =====
-- ReadyOn: a time-off service that keeps employees' balances in step with an HCM system.
--
-- Parts of the program, and how they interact:
--   * `RequestService` (src/request) creates, cancels, approves and rejects requests. Each of these
--     runs in one SQLite transaction over the repositories of requests, balances, holds, the
--     integration outbox and the audit log. A pending request holds its hours back by a row of
--     balance_holds; an approval writes an entry to the outbox.
--   * `OutboxProcessor` (src/integration/outbox) claims due entries, calls the HCM system for each,
--     and settles the answer in a second transaction: deduction, refund, retry or failure.
--   * The controllers (src/request) put an idempotency key around the four operations.
--   * `BatchSyncService`, `ReconciliationService` and the integration controller (src/integration)
--     bring balances in from the HCM system.
--   * The state machine (src/common/utils/state-machine.ts) says which status may follow which; the
--     circuit breaker (src/integration/hcm/circuit-breaker.ts) counts failures of the HCM system.
--
-- Files:
--   * Base: lists as tables, signed integers, Boolean tests.
--   * Types: src/common/types/index.ts, with the columns of src/database/migrations/index.ts.
--   * Errors: src/common/exceptions/index.ts; Errors/Filter: the bodies of
--     src/common/filters/http-exception.filter.ts.
--   * Store: src/database/database.service.ts and src/common/utils/index.ts; Store/Returns has the
--     rules by which operations are proved.
--   * Database: the migration runner of src/database/migrations/index.ts and resetDatabase of
--     src/database/database.service.ts; Migrations is about runs of it.
--   * StateMachine: src/common/utils/state-machine.ts.
--   * Balance/Repository: src/balance/balance.repository.ts. Balance/Held and Balance/Updates are
--     lemmas on held hours and on updates of projections. Balance/Service:
--     src/balance/balance.service.ts and src/balance/balance.controller.ts.
--   * Hold/Repository: src/hold/hold.repository.ts. Audit: src/audit/audit.service.ts.
--   * Request/Repository, Request/Service (Creating, Deciding): src/request/request.repository.ts
--     and src/request/request.service.ts. Request/Inserts and Request/Updates say what the inserts
--     and updateStatus do; Request/Creation, Cancellation, Approval and Rejection are the
--     operations, Request/Reads the reads, and Request/Returning says when operations return.
--   * Outbox/Repository, Outbox/Processor: src/integration/outbox. Outbox/Settlement is the
--     transaction after a successful deduction, with Available on the hours that it leaves,
--     Outbox/Refund that after a cancellation, Outbox/Failures the handling of errors, and
--     Outbox/Claims the claiming of entries; Outbox/Endings and Outbox/Rounds are what a whole sweep
--     does, Outbox/Returning says when the transactions return, and Outbox/Timer is processOutbox.
--   * Hcm/Port: src/integration/hcm/hcm-adapter.port.ts and hcm-errors.ts; Hcm/CircuitBreaker:
--     src/integration/hcm/circuit-breaker.ts; Hcm/HttpAdapter:
--     src/integration/hcm/http-hcm-adapter.ts, with Errors on the exceptions that it raises.
--   * Hcm/MockAdapter: src/integration/hcm/mock-hcm-adapter.ts. Faults has the failure rules, State
--     the fields and the set-up, Calls (Answers, Posting, Cancelling) the four calls, and Steps what
--     can happen in any order. Changes, Within and Invariants are lemmas on one balance and on a run;
--     Ledger (Books), Totals and Bounds are about what the balances come to, Replay about repeated
--     keys, RoundTrip about cancellations, and Countdown about the failure rules.
--   * MockServer: src/mock-hcm-server/server.ts. Rules has the failure rules, State the data,
--     Handlers the route handlers, Admin the admin requests and Routes the listener; Replay is about
--     repeated keys, and Unknown and Hours about a post without hours.
--   * Idempotency: src/idempotency/idempotency.service.ts. Api: the POST handlers of
--     src/request/employee-request.controller.ts and src/request/manager-request.controller.ts;
--     Api/Reads: their GET handlers, the health report and the correlation id.
--   * Batch/Repository, Batch/Sync (Items): src/integration/batch. Batch/Flags, Items, Counts
--     (Tallies) and Versions are about flagged requests, single items, the counts of a batch and the
--     version gate, and Batch/Rounds about a whole batch.
--   * Reconciliation: src/integration/reconciliation/reconciliation.service.ts. Reconciliation/Marks
--     is the flagging of requests, Reconciliation/Results the three results, and
--     Reconciliation/Rounds a whole run.
--   * Integration: src/integration/integration.controller.ts, with Update on its transaction;
--     Integration/MockFailures is its handler of that name.
--   * System: the writes of all these parts as one step relation, and Rules on any property of the
--     tables and Effects on what a step can do to them. Holds and Coherence are about requests that
--     have ended and their holds, Reserved and Reservations about requests that wait and theirs,
--     Rows and Soundness about the rows of the projections.
--   * Tests: examples.
--
-- State. A `World` has the tables (`Db`), the sequence of identifiers that `v4` returns and the
-- clock; an operation (`M`) takes a world and ends with a result or an exception and the world then.
-- A table is the list of its rows in insertion order; SQL statements are the list functions of
-- Base/Lists, and a write that breaks a constraint of the migrations raises `sqlite_error`.
-- `run_in_transaction` restores the tables on an exception. The service is one thread, and SQLite is
-- called synchronously, so that operations interleave only where an adapter's call is awaited: the
-- world after such a call is whatever the adapter's parameter says, other operations included.
--
-- Strings are only compared, ordered and tested for emptiness, and are numbers (`Text`): any finite
-- set of strings has an order-preserving numbering with the empty string at 0. Columns that are never
-- compared with each other are numbered apart; locations are not ordered, and 'HQ' is 1. Hours are
-- integers (multiples of one unit; SQLite's REAL has rounding that is not modelled). The clock does
-- not move during one operation, and the time columns' defaults are read from it too. There is no
-- fuel: every loop goes over a list.
--
-- A call of the mock adapter is two steps, as it awaits its delay in between: it counts itself, and
-- then does the rest at once. A run of the adapter is a list of such steps of any calls, so that calls
-- overlap in every way that the code allows, and of settings of balances, of one or of many, and
-- resets, which are one step each.
--
-- Parameters: the HCM adapter, `fetch`, the texts of exceptions, `trim`, the hash of a payload and
-- the JSON text of a response. Not modelled: logging, the HTTP framework and its validation decorators, the
-- timers that start the processing, the pragmas of the opened database, and the wiring of modules.
pub mod Base
pub mod Types
pub mod Errors
pub mod Store
pub mod Database
pub mod StateMachine
pub mod Balance
pub mod Hold
pub mod Audit
pub mod Request
pub mod Hcm
pub mod MockServer
pub mod Outbox
pub mod Idempotency
pub mod Api
pub mod Batch
pub mod Reconciliation
pub mod Integration
pub mod System
pub mod Tests
