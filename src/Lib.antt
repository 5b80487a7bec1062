-- ===== src/Lib.antt =====
-- The PPgram server: accounts, logins and account deletion over PostgreSQL and Redis, behind a router
-- of requests on QUIC streams.
--
-- A request arrives as a frame on a stream (server/transport), names a route (server/router) and is
-- answered by a handler, which calls a service (server/auth). The services read and write three
-- tables (database) and a set of taken names in Redis (cache). A worker deletes accounts whose
-- scheduled deletion is due.
--
-- Prelude    what the modules share: tests on numbers and texts, lists, association lists.
-- Text       the functions of Go's strings package that the server uses.
-- Username   utils/username.go.
-- Transport  WriteFrame, ReadFrame and WriteFrom of server/transport/stream.go.
-- Route      isDotRoute, normalizeRoute and joinRoute of server/router/router.go.
-- Table      rows of a table, and the clauses of SQL on them.
-- Errors     the error values of the packages, and errors.Is on them.
-- Database   the tables and the SQL statements of database/users.go, database/user_tokens.go and
--            database/pending_account_deletions.go, and what holds of the tables.
-- Backend    the state that a service runs against, and its steps: state passing with errors as
--            values, where a connection may lose a request or a reply.
-- Repository the methods in database/*.go, with the names of the methods.
-- Cache      cache/username.go.
-- Password   hashPassword, verifyPassword and the session tokens of server/auth/auth.go.
-- Auth       Register, LoginByCredentials and LoginByToken of server/auth/auth.go.
-- Deletion   server/auth/delete.go.
-- Context    server/router/context_*.go: the responses and the feeds of updates on a stream, and the
--            chain of middleware.
-- Router     registration, the choice of a request's route and Handle in server/router/router.go.
-- Session    server/core/session/session.go.
-- Handlers   server/handlers/auth.go, server/handlers/account.go, server/middleware/auth.go and the
--            status codes of server/core/errors.go.
-- Defaults   the default pool of database/database.go and the default client of cache/cache.go.
-- Config     config/config.go.
-- Main       the routes of main.go, with the handlers and the middleware as they work on a stream, and
--            the whole server as a state machine.
-- Service    all services as one state machine, with the worker and the environment.
--
-- A Go string is the list of the code points of valid UTF-8, a byte string a list of numbers below
-- 256. A time is a number of nanoseconds after year 1; a TIMESTAMPTZ counts microseconds.
-- Statements run one after the other, each with the database's clock; the model has no concurrent
-- transactions. argon2, SHA-256 and the table of unicode.ToLower above ASCII are parameters, as are
-- the random numbers, the uuids of the database and the future of the connections. Loops are
-- recursion on their lists; the loop of WriteFrame, which a stream that takes few bytes prolongs,
-- runs on fuel, the length of the payload, and ends before the fuel does, since a write of no bytes
-- ends it too. The loop of WriteFrom takes a byte or a part from its reader in each round but the
-- last; its fuel is the number of both and one. The calls of Next are bounded by the length of the
-- chain and one, which is the depth that they reach. The digits of a number are printed on fuel,
-- the number itself and one.
--
-- Not modelled: what is logged, signals and the loops that accept connections and streams, the
-- certificates and the database's URL, the QUIC library, the generated code of the messages, which
-- is a parameter with the package proto, and ReadTo. Requests run one after the other.
pub mod Prelude
pub mod Text
pub mod Username
pub mod Transport
pub mod Route
pub mod Table
pub mod Errors
pub mod Database
pub mod Backend
pub mod Repository
pub mod Cache
pub mod Context
pub mod Password
pub mod Auth
pub mod Deletion
pub mod Router
pub mod Session
pub mod Handlers
pub mod Service
pub mod Main
pub mod Defaults
pub mod Config
