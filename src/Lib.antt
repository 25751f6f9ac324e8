-- ===== src/Lib.antt =====
-- Nuvrion: a console and task engine for virtual machines of several providers.
--
-- The program's parts. Operations on machines are tasks in a store (modules/tasks/src/task-store.js).
-- A worker claims a queued task under a lease, asks the provider, and records the result; an outbox
-- announces queued tasks to a broker; a sweep recovers the tasks of a worker that died.
--
-- Tasks (Tasks.antt and its children) models the store. Tasks/Types has its objects with the source's
-- fields, Tasks/Journal the private helpers `#auditEvent` and `#persist`, Tasks/Store, Tasks/Control
-- and Tasks/Sweep the methods, one function each (`running` is set_running, `verificationRequired` is
-- require_verification, `recoverExpiredDetailed` is recover_expired). A method takes the store and
-- returns it with its result. Tasks/Calls collects the methods as calls and runs histories;
-- Tasks/Moves states the state machine without the code.
--
-- Alerts (Alerts.antt and its children) models modules/monitoring/src/alert-rules.js and
-- alert-service.js. Rules has metrics, rules, targets and alerts, Plan the loops of planEvaluation:
-- plan_evaluation visits each target for each enabled rule, then each open alert. Service and
-- Evaluation are the alert service, whose `evaluate` plans with the stored rules and open alerts
-- and stores what the plan says; an alert of a plan is the stored one of its identifier. Feed is
-- previewRule, feedFromAlerts and the notifications, Listing what the service lists. Requests is
-- parseRule and mergeRule, which the service takes as parameters, as it takes describeValue.
--
-- Identity (Identity.antt and its children) models signing in, of modules/identity/src. Base32,
-- Totp and BackupCodes are totp.js, Mfa is mfa.js, RateLimiter is login-rate-limiter.js, Roles and
-- RoleRequests are roles.js. The two-factor rules call verify_totp and the backup codes; the
-- sign-in limiter stands alone. A code or secret is its list of UTF-16 code units, a name or
-- password a native text; a 32-bit integer is its unsigned value, with the wrap-around written out.
-- Identity/Accounts is identity-service.js: its state and the errors (State), people with
-- user-input.js (Users), signing in (Sessions), Passwords, the second factor (Factors, Verify) and
-- roles (RoleAdmin); Guarantees collects the methods as calls, and Verified follows one session
-- through them. Random draws are numbered; the password hashes and the cipher are parameters.
--
-- Webhooks (Webhooks.antt and its children) models notifications, of modules/notifications/src.
-- Webhooks/Rules is `wants` and `judge` of webhook-rules.js, Webhooks/Queue and Webhooks/Results
-- the queue of destination-service.js (enqueue, claimDue, recordResult, recordTest, prune), which
-- asks `judge` what to do after a post. Webhooks/Addresses is classifyAddress and
-- checkAddressAllowed; isIP, Number and parseInt are parameters there. A delivery that claimDue
-- changes is found by its identifier. Webhooks/Dispatcher is dispatcher.js, which calls these in
-- turn, with the sender as a parameter. Requests is parseWebhookUrl, parseDestination and
-- parseChange, and Destinations the editing in destination-service.js, over the reader of addresses
-- (URL) and the cipher as parameters. Webhooks/Events is collectEvents, which gives the
-- dispatcher's events_since, and Webhooks/Payload the body and the headers of a post.
--
-- Schedules (Schedules.antt and its children) models modules/tasks/src/schedule-*.js. Runs is
-- summariseRun, Requests parseSchedule and mergeSchedule, Words the texts, When is localToUtc,
-- nextRun and nextRuns, and Targets resolveTargets of schedule-rules.js; Store is
-- schedule-service.js and Runner schedule-runner.js, which claims what is due in the store,
-- resolves its targets, submits each machine and records a run. The calendar of a time zone
-- (Intl.DateTimeFormat and Date), the task engine that the runner submits to are parameters, and so
-- are the two parsers in Store; times are from 1970-01-02 on. A time of day and a date are their
-- numbers. The loop of nextRun has ten rounds, as in the source.
--
-- Inventory (Inventory.antt and its children) models what the inventory keeps of its own, of
-- modules/inventory/src. Inventory/TagRules, TagRequest and TagPlan are tag-rules.js,
-- Inventory/TagStore is tag-service.js, with its `catalog` in Inventory/TagCatalog; apply parses a
-- request, plans the changes of every resource it names, and stores the plan or nothing. A request
-- is JSON (Common/Json) whose numbers are whole ones from 0 on, or another that the rules do not
-- tell apart; toLowerCase, and String of a value that is no text, are parameters (Platform).
-- ViewRules and ViewRequests are view-rules.js and ViewStore is view-service.js; the identifier
-- drawn and localeCompare are arguments. Texts are native ones, their length that in UTF-16 units
-- (Common/Text). A call that throws gives an `err` and no state.
--
-- Qr (Qr.antt and its children) models the QR encoder apps/web/qr.js. Field is Reed-Solomon coding,
-- Codewords the bits and words of a text, Matrix the fixed patterns, Place the format and the data,
-- Encode the penalty and the choice of a mask; `encode` calls them in this order. The loops of
-- `terminate` and `align` run at most four and seven times, which is all that the source's do;
-- `columns` is given one round for each column. qrSvg is not modelled.
--
-- Agents (Agents.antt and its children) models automatic upgrades of agents, of modules/agents/src.
-- Versions is agent-versions.js, Policies agent-upgrade-policies.js, Upgrades
-- agent-upgrade-service.js and Cycle agent-auto-upgrade.js, whose cycle asks the first three. The
-- agents, the artifacts, the time zones and the signature are parameters.
--
-- Gates (Gates.antt and its children) models gates of a release, of modules/platform/src.
-- Expressions and Licences are license-policy.js: the recursive descent takes one of fuel for each
-- call, three for each word and three more. Scans is image-scan-gate.js. toUpperCase and Date.parse
-- are parameters.
--
-- Capacity (Capacity.antt and its children) models modules/monitoring/src/capacity-rules.js:
-- Readings is which readings are kept (worthKeeping), their averages (bucketed), the days that an
-- alert reads (daysUntilFullForAlert), and the thinning for charts. The line that forecast fits is
-- left out: it needs fractions.
--
-- Conventions. Times are whole milliseconds; the text forms toISOString and Date.parse are inverse
-- on them and are left out. One synchronous method reads the clock once, as its argument `clock`. A
-- `Map` is an association list in insertion order (Common/Dict). randomUUID and SHA-256 are
-- parameters: the n-th identifier drawn, and a function on texts. JSON.stringify followed by
-- JSON.parse gives the state back, so the file is the state that was written last. Loops run over
-- lists. The one on a number, `drain` of Identity/Base32, has as many rounds as there are bits, and
-- each round takes five; that of verifyTotp runs over its 2 * window + 1 steps.
--
-- Not modelled: the PostgreSQL stores (SQL), the HTTP server, the console, the provider clients and
-- the agents (network and process I/O); the registry of agents and the merge of what providers
-- report; `list` and `auditPage` of the task store, which only read.
pub mod Agents
pub mod Alerts
pub mod Capacity
pub mod Common
pub mod Gates
pub mod Identity
pub mod Inventory
pub mod Qr
pub mod Schedules
pub mod Tasks
pub mod Webhooks
