-- ===== src/Lib.antt =====
-- SilentWhisper: the core of a self-hosted team chat.
--
-- The program is a Node.js server (backend/src) with a React frontend (frontend/src). HTTP routes
-- check the caller's authority, change tables in PostgreSQL and append to an audit log; a WebSocket
-- server keeps the live connections and the rooms of channels in memory; calls of a language model
-- pass a gate that caps them. The files follow these parts.
--
-- Prelude, Prelude/*: Boolean tests, lists, sets and keyed tables. Text: texts as lists of code
-- points, with their equality and order.
-- Errors (backend/src/errors.js) has the error classes with their statuses, and results; a handler
-- is a chain of checks in a do block. Validation (backend/src/validation.js) has the checks of the
-- parts of a request: an identifier is a number, a text that is no UUID is its own constructor.
-- Authz (backend/src/authz, frontend/src/authz/permissions.js): Permissions has the roles
-- and the maps of the server and of the frontend, Database the tables, Membership one function for
-- each of membershipService.js, and Checks states what they grant and hide.
-- Workspaces (backend/src/routes/workspaces.js): Tables has the writes, Lifecycle, Members and
-- Channels one function for each route that changes the tables, from the validated request to the
-- answer; Requests puts them into one type. Rules is the specification, a relation of permitted
-- changes that does not mention routes; Refines relates the two; Integrity and Safety draw
-- consequences for sequences of requests.
-- Invitations (backend/src/routes/membershipInvitations.js, and the route of workspaces.js that
-- makes an invitation): an invitation waits for the answer of the user to whom it is addressed.
-- Audit (backend/src/audit/auditService.js, scripts/verify-audit-log.mjs): Json has the canonical
-- form, Chain the rows and their hashes, Verify the two checks. Audit/Retry is the outbox for events
-- whose first write failed, with its worker (backend/src/audit/auditRetryQueue.js and
-- auditRetryWorker.js).
-- Auth: RefreshTokens (backend/src/auth/refreshTokens.js) is the table of refresh tokens, Accounts
-- (backend/src/auth/requireAuth.js, passwordPolicy.js, backend/src/routes/auth.js) the ways in and
-- out, Admin (backend/src/routes/admin.js) what system administrators do to accounts.
-- Messages (backend/src/services/messageService.js, backend/src/routes/messages.js): one function
-- for each route that writes; Rules is the specification, a relation that does not mention routes,
-- and Refines relates the two. Regex is a backtracking matcher for the regular expressions of the
-- sources, Tasks the task parser (backend/src/services/taskParser.js), Jobs the queues
-- (backend/src/services/messageSideEffectsQueue.js, backend/src/search/embeddingQueue.js),
-- Embedding the worker of the second (backend/src/search/embeddingWorker.js), cut at its wait for
-- the service; whether the service answers is part of the event that ends the wait.
-- Organizations (backend/src/routes/organizations.js): one function for each route that changes
-- organizations or their members; Rules is the specification, Refines relates the two, Seated and
-- Powers draw consequences.
-- InvitationLinks (backend/src/routes/invitations.js, and the routes of organizations.js and
-- workspaces.js that make such an invitation): an invitation waits for whoever has its token; Spent
-- and Granted say how often it serves and what it gives.
-- DirectMessages (backend/src/routes/directMessages.js): conversations of two users and groups;
-- Seats, Pairs, Again and Groups say who is in them. Its tables are lists, since it counts and
-- searches members.
-- Llm (backend/src/llm/concurrencyGate.js, backend/src/search/embeddingConcurrencyGate.js): Gate
-- has the operations, Gate/World the gate among its clients.
-- Ws (backend/src/ws): Table is JavaScript's Map, Registry connectionRegistry.js, Presence and
-- RateLimiter the files of their names, Session the handlers of server.js.
--
-- How the code is rendered. Mutable module state and tables are arguments and results. A table
-- with a unique key is a function of the key, one that is searched is a list of rows. A route runs
-- to its end before the next begins, its database calls do not fail, and the identifier that the
-- database would make for a new row is an argument. Identifiers are numbers, and a parameter of a
-- request says whether it spells one as the database does, in lower case; times are numbers, in
-- milliseconds. In the WebSocket server, a handler that waits for the database is cut at the wait:
-- the frame is the event of its second part, with the answer of the database in it, so that other
-- events may come between. SHA-256, JSON.stringify, JSONB, bcrypt, the check of access tokens,
-- lower and toLowerCase are parameters, and so are what the embedding service makes of a text and
-- the row that a query without an order gives first, which is assumed to be one of the rows; what
-- is assumed of JSONB is that it gives a value back up to the order of keys, and of digests their
-- length.
--
-- Fuel. Only the loop of verifyAuditChain runs on fuel, one round more than the table has rows; each
-- round reads a row that no round before it read, and running out is an outcome of its own.
--
-- Not modelled: lists and searches, invitations of users with an account into organizations,
-- notifications, profiles, mentions and entity links, digests, rate limits by a third-party
-- package, the calls of language models, configuration, and the user interface. Failures of the
-- database are modelled for the writes of the two workers and of the message queues alone; requests
-- that run at the same time are left out.
pub mod Prelude
pub mod Text
pub mod Errors
pub mod Validation
pub mod Authz
pub mod Workspaces
pub mod Llm
pub mod Audit
pub mod Ws
pub mod Auth
pub mod Invitations
pub mod Messages
pub mod Organizations
pub mod DirectMessages
pub mod InvitationLinks
