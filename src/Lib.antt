-- ===== src/Lib.antt =====
-- zernflow: a model of the core of the program, with the theorems that make it correct.
--
-- The program runs social media automation: it schedules and publishes posts, answers messages by
-- flows, and keeps a queue of durable tasks and a service desk. A tick of the cron (app/api/cron/tick)
-- materializes schedules, claims tasks in rounds and settles them; a task of the kind that publishes
-- asks a provider through the publishing engine, whose receipts outlive a crash.
--
-- Tasks (lib/tasks):
-- * Tasks.Cron (cron.ts) has the parser of the fields (Field), the specification (Expression) and the
--   search for the next run (Next). `Intl.DateTimeFormat` is a parameter, a function from a zone and an
--   instant to the local month, day, hour, minute and weekday. The loop of `nextCronRun` runs on fuel,
--   one unit for each of the minutes of five years, and every turn goes on by a minute at least.
-- * Tasks.Retry (retry.ts) reads a policy from JSON and computes a delay; `Math.random` is an argument.
-- * Tasks.Errors (errors.ts) has the classes and `classifyError`; `redactString` is a parameter.
-- * Tasks.Runner (runner.ts) has `executeClaimedTask` and `runTaskBatch` over the interface `Queue`, a
--   record of the procedures of the database, the handlers and the clock. The loop runs on fuel, one
--   more than the tasks of a tick, and every round claims a task. The tasks of a round, which
--   `Promise.all` starts in their order, run one after the other. Logs and metrics are left out.
--
-- Publishing (lib/publishing):
-- * Publishing.State has `LEGAL` and `publishPath` of engine.ts, a search on fuel, a round for the
--   first state, for each of the two waypoints and one more, `summarizePublishState` of compose.ts, and the trigger on the table of variants.
-- * Publishing.Contract (contract.ts) validates what a provider answers and classifies what it throws.
-- * Publishing.Engine (engine.ts) is `runApiPublish` in a monad of state and errors: Store has the rows
--   of one idempotency key and the calls of the database, each of which can fail, Apply what an outcome
--   does, Run the rest. Receipts are known by their attempt, which the database keeps unique. Its
--   proofs are in Triples, Receipts, Steps, Invariant and History.
-- * Publishing.Modes has the registry of providers (contract.ts) and the resolution of a mode
--   (capabilities.ts); Publishing.Compose has `composeText` and `validateVariant` (compose.ts), with
--   `trim` and the count of graphemes as parameters.
-- * Publishing.RepeatCron (repeat-cron.ts) builds the cron expression of the form that repeats a post,
--   which Tasks.Cron.Expression reads.
--
-- ServiceDesk.Sla (lib/service-desk/sla.ts) has the deadlines of tickets, with `Date.parse` as a
-- parameter; the warning threshold is compared as an exact fraction.
--
-- The flow engine (lib/flow-engine) runs the flow of a trigger, a graph of nodes, for a contact:
-- * FlowEngine.Triggers (trigger-matcher.ts) chooses the trigger of a message; the rows of the database
--   are a list, which keeps its order among equal priorities.
-- * FlowEngine.Types (types.ts) has the nodes, edges and contexts, FlowEngine.Interpolate the variables
--   in a text (of engine.ts and of gateway-message.ts), FlowEngine.Conditions what a condition decides
--   in engine.ts and, in Simulated, by the copy of simulator.ts, FlowEngine.Split the split of visitors.
-- * FlowEngine.Simulator (simulator.ts) is the dry run of a flow in the builder, with the edges that it
--   follows (Edges), its path (Walk over Shown) and its end (Ends); its loop goes on by the
--   steps that are left of the fifty of the code, and the random numbers are an argument.
-- * FlowEngine.Messages (platform-adapter.ts) adapts a message to a platform and reads the number of an
--   option back; FlowEngine.Reply (gateway-message.ts) builds the reply with its idempotency key.
-- * FlowEngine.Engine (engine.ts) has the rows and the calls of the database in a monad of state and
--   errors (Store), each of which can fail by a list of faults; what lies outside of the program, the
--   gateway, the AI, the clock and the requests, as functions of the number of calls before (Outside);
--   the nodes that send nothing (Nodes, over Rows), with schedule-resume.ts of lib/jobs, and those that
--   send (Replies, and Ai for nodes/ai-response.ts); the traversal (Run), `executeFlow` and
--   `resumeSession` (Start). `traverseNodes` has the depth of the code, 50. A node that goes to another
--   flow runs `executeFlow` again, which the code does not bound: these runs within runs go on fuel, and
--   the theorems are for every fuel. The proofs are in Keeps, Handlers, Contexts and Runs (what every
--   step of a run keeps), Scope, Lifecycle, Triples (what a program returns with what it leaves), Walk,
--   Loops and Settle. Identifiers are numbers, whose texts, for the keys of replies, are a parameter.
--
-- Runtime has the budget (lib/runtime/budget.ts), the rate limiter (lib/security/rate-limit.ts) and
-- `mapWithConcurrency` (lib/concurrency.ts) under every interleaving of its workers.
--
-- Security.Addresses (lib/security/safe-fetch.ts) has the addresses that outbound requests refuse; an
-- address is its parts, and the parsing of texts by `isIP` and `expandIpv6` is left out.
-- Health (lib/health/assess.ts) has the status of every check, without the texts for operators.
-- Browser (lib/browser/registry.ts) has the resolution of the executor of an operation.
--
-- Numbers of the program are naturals, `ℤ` where they can be negative, and exact fractions where they
-- are read from JSON; no model depends on the rounding of a double except Tasks.Retry, which counts the
-- steps of the random number. A text is the list of its UTF-16 code units.
--
-- Not modelled: the pages, the route handlers and components (app, components), the processors of
-- sequences and comments, the HTTP clients and webhooks, the secrets, the object storage, the browser
-- executor, and the procedures of the database other than the two triggers.
pub mod Base
pub mod Browser
pub mod FlowEngine
pub mod Health
pub mod Publishing
pub mod Runtime
pub mod Security
pub mod ServiceDesk
pub mod Tasks
