-- ===== src/Lib.antt =====
-- ClawProxyHub-Next is a gateway in Go that takes requests in three dialects (OpenAI Chat
-- Completions, OpenAI Responses, Anthropic Messages), turns them into one envelope, sends them to a
-- plugin with the credential of an account, and turns the events that the plugin answers with back
-- into the dialect of the client. This library models its core: the router, which finds a group, a
-- model and an account for a public model name; the serving loop, which calls plugins and recovers
-- from failures; and the encoders of the three dialects with the aggregation for clients that do
-- not stream. Around it, the library models the plugin manager and what it offers to plugins, the
-- parsers and request bodies that plugins share to talk to upstream services, the engine of
-- scheduled tasks, the settings, the service of accounts with their credits and proxies, and the
-- event bus.
--
-- How the parts interact. A request comes in at `serve` (internal/gateway/server.go). It asks the
-- router (internal/router) for a target, builds the credential, and calls a plugin. The first event
-- decides: a failure goes to the recovery (refresh the credential, another account, the failover
-- group of the route), anything else goes to the output layer (internal/gateway/output.go), which
-- feeds the events to the encoder or to the aggregate of the dialect.
--
-- Which file models which part:
--   Base and Base/: numbers, lists, Go maps as association lists, int64 as 64-bit patterns.
--   Data: the rows of internal/model/model.go, with the columns that the models read.
--   Gateway/Envelope: the events of sdk/proto/cph.proto.
--   Gateway/ToolCalls, Gateway/Aggregate: internal/gateway/toolcall.go and aggregate.go
--     (`toolCallTracker.resolve`, `aggregateCore.feed`, `toolsInOrder`, which only proofs use).
--   Gateway/OpenAi, Gateway/Responses, Gateway/Anthropic: the `convertEvent`, `finish` and `failure`
--     of the encoders in openai.go, responses.go, anthropic.go and output.go; the modules below them
--     have a strict client of the dialect and the proofs. Gateway/OpenAi/Result: `openaiAggregate.result`
--     and `sortedKeys`, the reply that does not stream.
--   Gateway/Usage: the usage objects of the three dialects.
--   Gateway/Output: `newEncoder`, `streamOut`, `nonStreamOut`, `collectUsage`.
--   Gateway/Backend: what `serve` calls, as an interface; Gateway/Prepare: the first half of `serve`;
--   Gateway/Recovery: its closures `switchAccount`, `recoverCredential`, `switchFailover`,
--     `recoverFrom`; Gateway/Serve: the loop and its ends.
--   Gateway/Authorize: `authorize` and `keyMatches` of server.go.
--   Gateway/ModelIds: internal/gateway/modelids.go.
--   Router/Db: the tables and queries of internal/router; Router/Picking: `pickGroup` and the choice of
--     an account; Router/State: the `Router` with its strategies and sticky sessions; Router/Resolve:
--     `Resolve`; Router/Direct: `PickFailover` and direct.go.
--   Task/Cron: internal/task/cron.go (`parseCronExpr`, `cronMatch`, `nextCron`); Task/Engine:
--     internal/task/engine.go (`computeNext`, `selectAccounts`), Task/Engine/Execute (`executeRule`,
--     `recordRun`), Task/Engine/Tick (`fire`, `doTick`, `Start`), Task/Engine/Rules
--     (`parseSchedule`, `ScheduleOnce`, `EnsureAccountRules`).
--   Account/Service: the rest of internal/account/service.go (`shouldAdoptDisplayName` and what a
--     refresh writes), Account/Service/Operations (`Refresh`, `Models`, `SyncModels`, `SaveModels`,
--     `StoredModels`), Account/Service/Login (`create`, `SubmitLogin`), Account/Pauses
--     (`MarkExpired`, `MarkAutoPause`, `Resume`, `Delete`); Account/Credits: `CreditRemaining` and
--     `RecordCreditSnapshot` of internal/account/credit.go, Account/Expiry: its `CreditExpiryOf`;
--     Account/Proxies: internal/account/proxy.go; Account/Rows: lemmas on updated rows.
--   Plugin/Manager, Plugin/Stderr: internal/plugin/manager.go; Plugin/Packages: install.go;
--     Plugin/Host: host.go.
--   Setting/Store: internal/setting/setting.go, and Setting/Refines its specification.
--   Upstream/OpenAi, Upstream/Anthropic, Upstream/Responses: the `Parser` of sdk/openaiup,
--     sdk/anthropicup and sdk/responsesup; Upstream/Bodies: their `ChatBody`; Upstream/Chained and
--     Upstream/Usages: the parsers on what the gateway writes.
--   Admin/Version: `compareSemver` of internal/admin/version.go.
--   Event/Bus: internal/event/bus.go, with its steps in any order.
--   The modules called Examples run the theorems on small inputs.
--
-- State. The encoders, the aggregate, the router and the variables that the closures of `serve`
-- share are records that every operation takes and returns. What lies outside (plugins, JSON,
-- SHA-256, random numbers, the clock, for `serve` also the account service, and for the router the
-- amounts of credits) is an argument: the records `Backend`, `Env`, `Draw`, `Credits`, `Crypto`,
-- `Machine`, `Runner`, `Clock`, `Plugins`, `Codec`, `Floats` and `Readers`. A channel is the list
-- of the events that come out of it before it closes. A frame of a dialect is a value with the
-- fields that the source sends; its JSON text is not modelled. Tables are lists in the order of the
-- primary key; a query without ORDER BY gives its rows in that order, which SQLite does not
-- promise. Failures are values; a panic of Go is the result `none`.
--
-- Bounds and fuel. Token counts and weights are 64-bit patterns with wrap-around. The loop of
-- `serve` has no bound in the source; the model runs it on fuel, and four calls are enough: there
-- are two changes of credential or account and one failover. The loop over the values of a cron
-- field has a fuel of 64 rounds, which is enough for every step; the loop of `nextCron` has one
-- round for each minute up to its limit. A number is printed with twenty digits at most, which 64
-- bits do not exceed.
--
-- What is not modelled: the parsers of requests and the JSON of replies (of OpenAI's reply that
-- does not stream, the fields are modelled), the request log's row, HTTP headers and flushing; the
-- HTTP handlers of internal/admin; internal/database, the generated sdk/proto, cmd and web, which
-- are I/O, generated code or another language.
pub mod Account
pub mod Admin
pub mod Base
pub mod Data
pub mod Event
pub mod Gateway
pub mod Plugin
pub mod Router
pub mod Setting
pub mod Task
pub mod Upstream
