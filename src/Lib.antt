-- ===== src/Lib.antt =====
-- The back end of a tool that turns conversations into workflows: a NestJS server over PostgreSQL
-- (typeorm), NATS and socket.io. Paths are from the repository's root.
--
-- Parts and files
--   Prelude       shared names: tests on numbers and texts, equality classes, array methods.
--   Database      src/database and the entities of src/modules: rows, enumerations, JSON values.
--                 Database/Orm is the mapper, a package that is not code of the repository: a record
--                 of operations (findOne, find, count, save, insert, update) with the laws that it
--                 documents. Database/InMemory meets them with lists, for the tests.
--                 Database/Lists, Ordered, Counting are lemmas on rows.
--   World         the state that the services share: the tables, what was published or emitted,
--                 and which publications the broker takes. `Action` is a method: a function of the
--                 world into a result and a world; what was written before an exception stays.
--   Messaging     src/modules/audit/audit.service.ts (`log`), src/infra/nats/nats.publisher.service.ts
--                 and the emitters of src/modules/realtime/realtime.gateway.ts.
--   Sessions      src/modules/sessions: Fsm is session-fsm.ts; Access and Service are
--                 sessions.service.ts, method by method, Dispatch its dispatchAiTask; Controller is the
--                 routes with their guards: `handle` those that write, `read` those that read,
--                 `route` both. Fsm/Documented is the table of TODO.md.
--   Organizations src/modules/organizations/organizations.service.ts; Requests is the routes that
--                 take rights away.
--   Workflows     src/modules/workflows/workflows.service.ts (Rows, Service, Diff), the routes that
--                 write (Requests) and services/share-workflow.service.ts (Share).
--   Comments      src/modules/comments/services/comments.service.ts and its controller.
--   Rules         src/modules/rules/rules.service.ts: Conditions is the comparison of conditions,
--                 Access the private helpers, Service the methods, Requests what a request of
--                 rules.controller.ts that creates, changes, switches or deletes one rule does to
--                 the rules, their versions and the cache, which Cache reads. The import of a bundle
--                 is modelled (Service) and not among those requests.
--   Messages      src/modules/messages: Runtime is what the code uses of JSON, base64url, dates and
--                 PostgreSQL, Pagination the utilities of the cursor, Service the methods.
--   Documents     src/modules/documents: Validation is the utilities, Service the methods, Requests
--                 what a request of the controller does to the table, Preprocess the subscriber.
--   AiGateway     src/modules/ai-gateway: Tasks is ai-gateway.service.ts, Events and Results the
--                 handler of a result, Progress the handler of an agent's progress, Divergence the
--                 handler of a comparison, Failures the handler of a message that was given up,
--                 Subscriber what completes a result, Handled the set of handled messages. The
--                 loop that delivers, src/infra/nats/nats.client.ts, is Messaging/Delivery.
--   Audit         the CSV export of src/modules/audit/audit.service.ts (Csv), with a reader of CSV to
--                 judge it by (Reader).
--   Realtime      src/modules/realtime/services/ws-room-guard.service.ts.
--
-- Conventions. Identifiers and times are natural numbers that are compared and never taken apart.
-- The database is there: every query and write of the mapper succeeds, but for a query by a malformed
-- id in AiGateway/Failures, and no theorem speaks of what a failing write leaves behind.
-- New identifiers, random tokens, hashes and the time of a request are arguments of the operation
-- that draws them. An absent or null value is `none`. A method runs alone: two requests do not
-- interleave within a method. No function of the program runs on fuel; all recursion is
-- structural. A message is delivered three times at most, as its consumer is set up, and between
-- its deliveries the world may change in any way. The client that reads pages makes a given number
-- of requests, and a theorem says how many are enough.
--
-- Not modelled: the injection of comments into a conversation and the approval of elements, the
-- preview of the rules of a session and the simulated run of a rule, skills, divergence but for its
-- results, export, projects and authentication; paged queries, file storage, sockets and the wiring
-- of the framework. Of a table only the columns are kept that a modelled operation reads or writes.
pub mod Prelude
pub mod Database
pub mod World
pub mod Sessions
pub mod Messaging
pub mod Organizations
pub mod Workflows
pub mod Comments
pub mod Realtime
pub mod Rules
pub mod Messages
pub mod Documents
pub mod AiGateway
pub mod Audit
