-- ===== src/Lib.antt =====
-- Distributed order processing API: the Go service under api/ that sells products over HTTP with
-- PostgreSQL behind it. Customers place, cancel and pay orders; a retry of a request is recognised
-- by its idempotency key.
--
-- The parts and their files.
--   Base: tests on native numbers, machine integers as bit patterns (Base/Words), tables with a
--     primary key (Base/Table), sorting (Base/Sort), products that wrap around (Base/Modular).
--   Database: the tables of api/migrations (Rows, Keys), and the computations over them (Tx): a
--     statement, a transaction with its commit and rollback, the row locks held, the log of the
--     payment provider. What PostgreSQL and the runtime supply is a record Env, read at the number
--     of the call: UUIDs, clocks, random draws, and which calls fail. So a theorem for every Env is
--     about every pattern of failures. Post is the logic of postconditions.
--   Order: api/internal/order. Queries are the statements of sqlc/orders.sql.go, Store is
--     order_store.go, Service is order_service.go; Totals compares the map of quantities with the
--     request's items, Stable and Frame hold the rule for an invariant that each row written keeps,
--     Answered the rule for calls that do not fail, LockOrder the proof about the row locks.
--   Payment: api/internal/payment, laid out in the same way; Provider is fake_provider.go. Deadlock
--     is about transactions that wait for each other's row locks.
--   Product: api/internal/product, laid out in the same way. Catalog is the invariant, Shop joins
--     it with the ledger's; Creating, Updating, Deleting and Pages are the proofs.
--   Idempotency: api/internal/idempotency, laid out in the same way. Calls is the set of calls
--     that requests make, and Exclusive, Once and Verdict are the proofs.
--   Http: the handlers of the order, payment, product and user routes, middleware/idempotency.go
--     and middleware/auth.go (Users). A response is a status and the value put into the envelope.
--     The decoder, the validator, the hash, the encoder and the parser of UUIDs are a record Codec,
--     arbitrary in every theorem; Replay, Retry, Errors, Lockout, SignIn, Refusals and Ownership
--     hold the proofs. Api is server/router.go with the RegisterRoutes of the handlers: one
--     function answers a request over the tables and Redis. Answers, Reads, Handlers, Catalogue and
--     Kept carry a property that the services keep over to every request; Guarded, Lifecycle and
--     Healthy are theorems about all requests.
--   User: api/internal/user, laid out in the same way. Accounts is the invariant, Accounts and
--     Registering the proofs. bcrypt and LOWER are a record Crypto.
--   Auth: api/internal/platform/auth (Jwt) and the reading of the Authorization header (Header,
--     Bearer); what golang-jwt does is a record Jwt.
--   RateLimit: api/internal/platform/ratelimit (Limiter) over the four commands of Redis that it
--     sends (Redis), an interface with the documented effect of each on a key and its time to live.
--     Counters relates the keys to one counter for each address, Race is the expiry between two
--     commands.
--   Platform: connecting to the database (Connect, api/internal/platform/database) and the
--     environment variables (Config, Settings, api/internal/platform/config), and the request
--     metrics (Metrics, Served, api/internal/platform/metrics). Requests overlap there step by
--     step; PoolStats is the collector of the pool. App is what api/internal/server/app.go opens
--     and closes, Main the life of the process (api/cmd/api/main.go), which Ending is about, Tracing
--     the logger and the provider of traces, Health the answers of api/internal/health.
--   Ledger: the specification (Spec) and the proofs about orders, payments and stock, for one
--     request and for sequences of them (History), about what an order costs (Pricing), when it is
--     placed (Demand, Available), how rows change over time (Evolution, Lifecycle), and about
--     payments that go through (Charged) or are sent again (Retrying).
--   Tests: runs on concrete data.
--
-- Modelling. A Go int or int64 is a number below 2 ^ 64 and an int32 or INT one below 2 ^ 32, with
-- wrap-around and signed comparison written out; arithmetic on INT in SQL fails out of range
-- instead. A UUID is a number, compared as its bytes are. A table is a list of rows. ListProducts,
-- which pages without ORDER BY, reads them at each call in an order that Env gives (scan); the other
-- statements answer in the order of the list, which means nothing. A statement checks the keys, CHECK
-- and FOREIGN KEY constraints it can break. A transaction runs as one step: the program takes the
-- row locks that serialise it. A commit that reports an error is taken as not applied. A stored
-- response is the text that was encoded, where JSONB keeps the document it stands for. A
-- time.Duration is an int64 like the others. What befalls the process while it serves (a listener
-- that fails, a signal, connections that never come back to the pool) is given to Main. Recursion is
-- structural on lists; only the loop of pings has fuel, ten units for at most nine pings, and is
-- proved to end within it.
--
-- Not modelled: the log lines, the spans and the global settings of OpenTelemetry, which keep no
-- state of the orders; the matching of a path to its route, which is chi's; the deadline of the
-- shutdown.
-- The row locks are recorded in the world; of transactions that wait only the locks that they hold
-- and want are, and only those that are taken FOR UPDATE.
pub mod Auth
pub mod Base
pub mod Database
pub mod Http
pub mod Idempotency
pub mod Ledger
pub mod Order
pub mod Payment
pub mod Platform
pub mod Product
pub mod RateLimit
pub mod Tests
pub mod User
