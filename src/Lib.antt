-- ===== src/Lib.antt =====
-- LegacyVault: a model of the program's rules, and what is proved of it.
--
-- The program keeps a household's vault: facts about its affairs, documents, reports made from
-- confirmed facts, exports, and access for others in an emergency. An API takes requests, the
-- authorization policy decides on each, repositories keep rows in PostgreSQL, and a worker runs longer
-- workflows in steps. Every access is written to a chained audit log.
--
-- Files and the code that they model (paths from the repository's root):
--   Domain          packages/domain/src: Enums and Entities (entities.ts), Billing (billing.ts:
--                   deriveBillingAccess), Facts (facts.ts), Permissions (permissions.ts: isGrantActive,
--                   permits), Retention (retention.ts), and of workflows.ts: Consents
--                   (hasActiveConsent), Claims (createReportClaims, assertReportProvenance), Emergency
--                   (transitionEmergencyAccess), Steps (completeWorkflowStep)
--   Auth/Policy     packages/auth/src/policy.ts: authorize, which calls permits of the domain
--   Audit/Chain     packages/audit/src/index.ts: events, their digests, the check of a chain
--   Audit/Store     packages/audit/src/store.ts: the log of one household in the database, which
--                   continues and checks a chain
--   Reports         packages/reports/src/index.ts: generateReport (Generate), on claims of the domain,
--                   and portable exports (Portable): their entries (Entries), createPortableExport and
--                   verifyAndOpenPortableExport (Opening), on envelopes of Crypto
--   Crypto          packages/crypto/src: index.ts (Envelopes: envelopes, wrapped household keys and
--                   export signatures) and store.ts (Keys)
--   Documents       packages/documents/src/index.ts: validateDocumentBytes (Bytes), the service for the
--                   quarantine (Quarantine), the guards and commands of the object store (Commands)
--   Ai/Provider     packages/ai-gateway/src/provider.ts: DeepSeekProvider.invoke
--   Notifications   packages/notifications/src/index.ts: ResendEmailAdapter.send
--   Worker/Handler  apps/worker/src/index.ts: createPersistedWorkflowHandler, with the statements on
--                   workflow_runs of packages/database/src/repository.ts
--   Repository      packages/database/src/repository.ts: withTenant and withAccount (Transactions),
--                   the statements on one row (Rows), processBillingEvent (Billing), createCandidateFact
--                   to getFactFieldKey (Facts), emergency requests (Emergency), consents
--                   (Consents), reserveIdempotency,
--                   completeIdempotency and the keys inside other methods (Idempotency), invitations and
--                   memberships (Members, Members/Acceptance), an account's first household
--                   (Members/Onboarding), documents from startDocumentUpload to
--                   completeManualDocumentExtraction (Processing, Processing/Moves)
--   Base            what the others share: tests, equality, lists, results, instants, texts, hexadecimal
--                   digits, patterns and JSON values. Samples holds dates for the tests.
-- A component's theorems stand in its child modules, its examples in its module Tests.
--
-- How the code is read. A function that throws returns a result (Base/Results) with the error as a
-- value; a method that changes state takes the state and returns it. Optional properties are options,
-- sequences are lists, and an object used as a map is the list of its properties. A time is a text, as
-- in the source; an instant is counted in milliseconds from the earliest one that a Date can hold, so
-- that it is a natural number, and an invalid date is none. Versions and counters are naturals without
-- a bound: they stay below 2^53 in any run. An enumeration's texts are constructors.
--
-- Parameters, for code outside the repository: Date.parse and toISOString (Dates), JSON.stringify,
-- localeCompare, the text of a number and HMAC-SHA-256 (Engine, Digests), the object store, decryption
-- and malware scanner of the quarantine service (QuarantineServices), the replies of the HTTP
-- transports, new URL and Number. The audit store is the list of rows that a household's transactions
-- see, under the lock that `append` takes; a transaction that throws leaves it as it was. The
-- repository's other methods work on the rows that the database's policies show to one household or
-- account, or on the rows of one document: an operation takes the tables and answers with new ones or
-- throws, and with_tenant rolls back. `uuid` is the text that a column of that type gives back. Ids
-- are primary keys; the random ids of a membership and a person that an acceptance inserts are taken
-- as free in other households, an instant is a number, and the hash of a request, a random id and the
-- current time are arguments. Node's ciphers, signatures, base64 and UTF-8 (NodeCrypto), SHA-256 and
-- JSON.parse of an export (Exports) are parameters, too.
--
-- Loops are structural: over the list that the source's loop goes through, or over the number of
-- attempts that are left, which is the loop's own bound. No fuel is used.
--
-- Not modelled: the web application, the API's routes, adapters and runtime, the rest of the
-- repository (reports, exports, privacy requests, refunds and the lists that are only read) and of the
-- worker, the AI gateway's policy on prompts, identities and passwords, the environment's schema,
-- observability, and the programs and sockets that OCR, the malware scanner and the local SMTP adapter
-- use. Two handlers that run the same workflow at once are not modelled, nor is a database that fails
-- after a step was executed and before it is recorded, nor are fractions in a Retry-After header, nor
-- a container of an export whose JSON text has values of other types than an export's.
pub mod Base
pub mod Samples
pub mod Ai
pub mod Audit
pub mod Auth
pub mod Crypto
pub mod Documents
pub mod Domain
pub mod Notifications
pub mod Reports
pub mod Repository
pub mod Worker
