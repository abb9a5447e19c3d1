-- ===== src/Lib.antt =====
-- The backend of the music video generator: how a project's pipeline of jobs starts, advances,
-- fails and ends, and what limits the calls it makes.
--
-- A project has rows in the table of jobs, one for each stage (download, transcription, analysis,
-- images, render, finalization). A start reconciles the rows that are there with a fresh pipeline
-- and dispatches a stage to its queue; a processor reports completion or failure of the row; an
-- advance dispatches the next pending row or completes the project. A watchdog fails the rows whose
-- processor went silent, an owner can replay what went to the dead-letter queue, and quotas, permits,
-- circuits and signatures stand between the pipeline and the outside. Users log in with access and
-- refresh tokens; an authenticated socket follows the projects of its user, and the messages of the
-- Python pipeline reach it through the gateway; the health module pauses the image queue while the
-- pipeline is too slow.
--
-- Files, with the sources they model (paths from the repository's root):
--   Prelude: tests, lists, texts and updates of rows that the other files share.
--   Json: JSON values and the objects' fields.
--   Schema: prisma/schema.prisma, the enums and the columns that the pipeline reads.
--   Outcome: values and exceptions, with transactions.
--   Backend: the database client and the queues.
--   Env: src/common/utils/env-parsers.ts.
--   Pipeline.Source: src/modules/jobs/services/pipeline-definition.service.ts and
--     pipeline-preflight.service.ts.
--   Pipeline.Transition: pipeline-transition.service.ts.
--   Pipeline.Store: the database calls of these services.
--   Pipeline.Reasons: src/modules/jobs/pipeline-quality.utils.ts.
--   Pipeline.Quality: project-pipeline-quality.service.ts.
--   Pipeline.Reconciliation: pipeline-start-reconciliation.service.ts.
--   Pipeline.Lifecycle: pipeline-lifecycle.service.ts and pipeline-cancellation.service.ts.
--   Jobs.Crud, Jobs.State, Jobs.Dispatch: job-crud.service.ts, job-state.service.ts and
--     job-dispatch.service.ts.
--   Jobs.Coordinator: pipeline-dispatch-coordinator.service.ts.
--   Jobs.Watchdog: stale-watchdog.service.ts.
--   Jobs.DeadLetter: dead-letter.service.ts, dead-letter-query.service.ts and
--     dead-letter-replay.service.ts.
--   Jobs.Progress: pipeline-status.service.ts.
--   Resilience.Breaker: src/common/services/circuit-breaker.service.ts.
--   Resilience.Permits: job-concurrency.service.ts.
--   Resilience.Quota: src/common/services/user-quota.service.ts, with
--     src/common/guards/user-quota.guard.ts in Resilience.Quota.Guard.
--   Resilience.Webhook: src/common/utils/webhook-security.util.ts.
--   Resilience.Errors, Resilience.Script: src/modules/jobs/processors/retry.utils.ts.
--   Auth.Settings, Auth.Tokens, Auth.Sessions: src/modules/auth/auth.service.ts and
--     jwt-auth.guard.ts; Auth.Sessions.Logout has the runs of auth.controller.ts.
--   Health.Mitigation: src/modules/health/services/slo-mitigation.service.ts.
--   Health.Alerting: src/modules/health/health-alerting.service.ts.
--   Health.Classification: src/modules/health/services/health-pipeline-classification.service.ts.
--   Events.Metrics, Events.Gateway, Events.Messages: src/modules/events/events-metrics.service.ts,
--     events.gateway.ts and events.service.ts.
--   Examples: a database in memory, and the theorems applied to concrete requests.
--
-- How the code is rendered. An async function over the database is a function of the state of the
-- outside world that returns an outcome and the next state; `await` is the sequence of the two, and
-- `$transaction` restores the state on an exception. The database and the queues (Backend), the
-- counters of Redis (Quota.Counters), the digest and the number parser (Webhook.Crypto,
-- Env.Environment), the token library (Auth.Tokens.Jwt: a token that was signed verifies with its
-- secret and gives its claims until it expires) and the table of sessions (Auth.Sessions.AuthStore)
-- are parameters with the laws of their documented operations. A call of the
-- database does not fail for reasons outside the code (a lost connection); a call of a queue can.
-- The tables of sessions and projects in Auth and Events hold ids of type `uuid` in lower case and
-- compare them as UUIDs, while the code compares texts; the projects of a run of the gateway stay.
-- The keys of the quotas hold the user id as it is written. Elsewhere identifiers are numbers, and
-- texts are lists of UTF-16 code units, of which `toLowerCase` changes the ASCII ones. Messages built
-- from templates are constructors with the values inserted. Log lines are
-- left out. The time, random parts and the numbers of the stage metrics are arguments.
-- Each request of the authentication and each event of the mitigation has one time, where the code
-- reads the clock more than once. Ids of users, projects and sessions are texts in Auth and
-- Events, since the code tests their form.
-- A request runs alone, except for Resilience.Permits, which is a relation over the turns of the
-- event loop.
--
-- Bounds: numbers are naturals; milliseconds and counters stay far below the integers that a double
-- holds exactly. The dispatch of a stage that ends at once advances the pipeline and dispatches the
-- next one, so `Jobs.Coordinator.coordinate` recurses on fuel: it takes two units and one for each
-- pending finalization of another row.
--
-- Not modelled: HTTP routes and cookies, the queue processors with their Python scripts, project
-- management, the aggregation of health metrics, throttling over Redis, and the browser
-- client. The connection of the Redis clients (events, mitigation) is a library's.
pub mod Prelude
pub mod Json
pub mod Schema
pub mod Outcome
pub mod Backend
pub mod Env
pub mod Pipeline
pub mod Jobs
pub mod Resilience
pub mod Auth
pub mod Health
pub mod Events
pub mod Examples
