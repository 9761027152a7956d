-- ===== src/Lib.antt =====
-- A model of the core of geoplane: who may act for which client organization, how a request stands for
-- a logged-in user, and how an article goes from a knowledge package to a publication receipt.
--
-- The parts, and the files that model them (paths from the repository's root):
--   Base          what the modules share: tests, lists, results, dictionaries, texts. Base/Host is
--                 the record of what the JavaScript runtime supplies: the date format, the case
--                 table, the collation and SHA-256.
--   Tenancy       src/contracts/tenancy. Entities has the records of entities.ts; Authorization the
--                 functions of authorization.ts (canAccessClientOrganization is
--                 can_access_client_organization, and so on); Invitations, Sessions and Audit the
--                 functions of invitations.ts, sessions.ts and audit.ts; Repository the class of
--                 in-memory-repository.ts, each method a function from a repository to a result and
--                 a repository. Repository/Steps has the calls as a step relation.
--   Content       src/contracts/geo-business/entities.ts: Knowledge, Opportunities, Drafts
--                 (compileArticleDraft), Gates (evaluateQualityGate) and Publication (the packages,
--                 the channels, the plans, the receipts and derivePublicationStatus).
--   Pipeline      src/runtime/geo. Stores holds what the repositories of ports.ts and the audit port
--                 have been given, Tables how each repository is read and written, Kinds
--                 what a write to one of them leaves of all, Action the
--                 effects of a method (its clock, its ids, its writes, its throws), Services the
--                 classes of src/runtime/geo/services with the refusals of the adapters, and Requests the twenty state-changing
--                 methods as one type.
--   Auth          src/lib and src/runtime/auth. Keys and Signing have the functions of
--                 session-signing.ts, Cookie those of session-cookie.ts, Responses the response
--                 envelope of src/runtime/api-contracts/index.ts and http.ts, Ports, Accounts, Login
--                 and Service ports.ts and auth-service.ts, Table the session table
--                 (src/persistence/pg/session-repository.ts and the queries on it) and Runtime
--                 runtime-context.ts. Base/Json and Base/Codec have the JSON values and the
--                 encodings; Base/Split what the program does with separators in texts.
--   Commands      src/runtime/commands. Events and Ledger have runWriteCommand and what it calls, the
--                 audit trail being its ledger, Input the readers of a request's body, Access the
--                 tenant check of a route.
--   Provider      src/runtime/provider. Contract has the firewall of contract-validation.ts, Request
--                 the guards of provider-port.ts, feature-flag.ts and identity.ts.
--   Review        src/runtime/geo/review-reference.ts, the code of a validation id.
--   Examples      test data and runs.
--
-- A login issues a session of Tenancy/Sessions, stores it as a row and answers a cookie that Signing
-- signs with the current key. A request's cookie is verified with the current and the previous key
-- and names a user and an organization; Runtime then takes the principal from the table, and the
-- services and Commands/Access derive from it the context that Tenancy/Authorization decides on. The
-- variables of session-signing.ts are a state that each call passes on, as is the table; a call of
-- another repository is a function of the database as it stands.
--
-- The services call the tenancy checks first, then their own guards and the contract functions of
-- Content, then write one record and one audit intent. An await is a step of the same sequence: a
-- method is one function of the world, and two methods do not interleave.
--
-- Conventions. A time is the text that toISOString writes, a Date the number of milliseconds since
-- the epoch. Random ids and tokens are arguments; the clock and the id factory of the services are
-- sequences that are read one by one. A Map is a list of entries in the order of first insertion.
-- An error is a constructor with the values that its message shows. Fields whose type is one fixed
-- literal, and the messages of thrown errors, are left out. A list that the type system keeps from
-- being empty is a plain list. A repository refuses an id that it holds, as the primary keys do behind
-- src/runtime/geo/pg/article-draft-repository.ts. The methods that create them also refuse what the
-- adapters do: a family without a member or with an opportunity twice, a keyword map that has a
-- keyword without a question or a keyword twice, a second industry profile of a project, and a
-- knowledge package where the bridge in src/persistence/runtime-continuity was made without the id of
-- a user; the two compositions of the repository make it without one. A method answers the record that
-- it stored, as the adapters do but for that bridge, which reads its own view of the row. No other
-- failure of the database is modelled, so no foreign key and no CHECK constraint, and the audit port
-- does not fail. Every function is total by structural recursion; no fuel is used, and the bound
-- of twenty levels in the firewall is the source's.
--
-- A write command is one function of the database, and its transaction keeps what the function did
-- or, where it throws, what was there. The id and the time that the database gives a new row are
-- arguments. A number in a token is a whole one.
--
-- Not modelled: the adapters and the ledger of src/runtime/provider, the ingestion of knowledge
-- (src/runtime/knowledge), the dispatch of commands to the services, the composition of
-- src/composition, observability, the SQL of the database adapters apart from the session table and
-- the refusals named above, the interleaving of two requests, and the pages and routes of src/app,
-- which hold no rules of the core.
pub mod Base
pub mod Tenancy
pub mod Content
pub mod Pipeline
pub mod Auth
pub mod Commands
pub mod Provider
pub mod Review
pub mod Examples
