-- ===== src/Lib.antt =====
-- netcluster: scans networks over SNMP, runs rules over the hostnames that it finds, and sorts the devices
-- into clusters. This library models the core of the server and proves what it does.
--
-- The parts, and the files that model them:
--   internal/dsl: the small language of text transforms. Dsl/Types has the data, Dsl/Ops the operations of
--     the registry (`registry` in ops.go), Dsl/Pipeline `Apply`, with types for its steps in
--     Dsl/Pipeline/Typing, Dsl/Parser `Parse`, and Dsl/Json the JSON form (`MarshalJSON`, `FromJSON`) of a
--     pipeline, and in Dsl/Json/Maps of a map of pipelines.
--   internal/ruleengine: RuleEngine/Template has `walkTemplateTokens` and its two uses, RuleEngine/Evaluate
--     `Evaluate`, RuleEngine/Validate `ValidateRule`.
--   internal/discovery: Discovery/Targets has `ExpandTargets`, and Discovery/Orchestrator `Run`: its scans are
--     small state machines that a schedule moves one call at a time. Discovery/Orchestrator/Records follows the
--     results that they insert.
--   internal/assignment: Assignment has `Assign`, over the interfaces of its repositories as a record.
--   internal/storage/postgres: Storage/Tables has the tables as lists of rows, Storage/Clusters,
--     Storage/Elements and Storage/Rules the statements of the repositories on them, with the constraints of
--     migrations/0001_init.up.sql, Storage/Assigning `Assign` over those tables, Storage/Jobs the tables
--     of the discovery jobs, and Storage/Rules/Columns the JSON column of the rules and the scan of their rows.
--   internal/snmp: Snmp has `GetIdentity` over gosnmp as a record, Snmp/Reads what its loop reads, and Snmp/Agent
--     the table of the fake agent of snmptest.
--   internal/config: Config has `Load`.
--   internal/api/http: each handler is a function of its decoded request and of the state behind its
--     repositories. Api/Rules, Api/Clusters, Api/Elements and Api/Discovery have the handlers of the files of
--     these names, Api/Respond what they share, with respond.go, Api/Dto the package dto, Api/Pagination
--     `parsePagination`, Api/Router the routes of router.go, and Api/Site spa.go and health.go.
--   cmd/apiserver: Server has the start-up of `main`, and Server/Migrations `RunMigrations`. Service puts the
--     repositories behind the handlers, as `main` does, and has every call that writes to the tables as data (`Call`), with the tables that sequences of them lead to (`Reachable`).
--   internal/domain: Domain has the structs and the errors.
-- A rule is validated when it is saved; `ListEnabledOrdered` gives the enabled rules in order to `Evaluate`;
-- `Assign` writes what `Evaluate` returns to the tables. Storage/WellFormed has what the constraints of the
-- schema say of the tables together, and Storage/ClusterNames the abstract view of the clusters, a map from the
-- lookup keys to the ids; Service/Reached, Service/Evaluated, Service/Bulk, Service/Preview, Service/Scanning and
-- Service/Stored are
-- about the handlers, the rule engine, the scans and the tables put together.
--
-- A text is a list of code points, and where the code counts bytes so does the model (`byte_len`). A Go map is
-- an association list, and the order in which Go visits it is a parameter that may be any order. What the code
-- takes from `regexp` and `unicode` is the record `Libs` of Go/Libs, whose documented facts that a theorem
-- needs are `MatchesNames`; the text of IPv6 addresses is the record `Ipv6` of Go/Net. The functions of
-- `strings`, `strconv` and `net` that are used are written out in Go.
--
-- Fuel: the loops of the parser, of the template and of `pad` run on fuel. The length of the input is enough
-- for the first two, since each round passes a code point, and the length asked for is for `pad`, since each
-- round adds a byte. The loops of Discovery/Targets count down the 4096
-- addresses that the code allows. A scan makes at most four calls, so four steps finish it.
--
-- The tables keep a rule as the value that a scan makes of its row; the rows themselves, with the transforms as
-- JSON, are those of Storage/Rules/Columns. The body of a request for a rule is decoded by `decode_rule`, since the
-- decoding of its pipelines is internal/dsl's.
--
-- Not modelled: the encoding of JSON between bytes and values, the choice of a route by chi, and the files of the
-- web front end, which are glue over libraries; docs/docs.go, which swag generates; the protocol of SNMP, which is
-- gosnmp's, and so the socket of the fake agent of snmptest; the text of the errors, which keep what it is
-- made of; time stamps and the columns that nothing reads; a lost connection to the database; a text that a column
-- cannot hold, as one with a NUL. A statement is one step. A discovery job makes its queries with its context, and
-- they fail if that is cancelled when they are made (`in_context` of Service/Scanning); the last write of its status
-- is made with `context.Background()`. A query that is cancelled while the database is at it, and the contexts of the
-- requests, are left out. The handlers that make one
-- statement are steps of `Call` as they are; `Assign` and the scans are their statements there, one by one, so
-- that the calls of others come between them. The handlers of the discovery jobs and the goroutines that they
-- start are steps of their own in Api/Discovery, and the scans of a job are interleaved in
-- Discovery/Orchestrator.
pub mod Base
pub mod Go
pub mod Dsl
pub mod Domain
pub mod RuleEngine
pub mod Discovery
pub mod Assignment
pub mod Storage
pub mod Api
pub mod Snmp
pub mod Config
pub mod Server
pub mod Service
mod Tests
