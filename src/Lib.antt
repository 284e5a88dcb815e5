-- ===== src/Lib.antt =====
-- krewhub (src/krewhub): the task board of coding agents. A bundle holds tasks; agents claim tasks,
-- post events on them and finish them; every change is recorded in a watch log and sent to live
-- subscribers; an invocation asks a hand (a human, a sandbox or another agent) for one result.
--
-- The parts, and how they interact (the paths are under src/krewhub):
--   Models (models/domain.py): the rows that the other parts exchange. A datetime is a number, an
--     identifier is its text, a JSON value is Models.JsonData.
--   Watch (watch/ and services/watch_channels.py): Watch.Log is WatchLogStore, Watch.Service is
--     WatchService, Watch.Channels is derive_channel. A queue is a list of at most 256 events.
--   Db (repositories/): the state that the operations share, with a table as a list of rows in the
--     order of their rowids. An operation returns or raises and leaves a state; every statement is
--     committed at once, so an exception undoes nothing. Db.Tasks is TaskRepo, Db.Bundles is
--     BundleRepo, Db.Events is EventRepo with the tape entry of tape/manager.py and the primary key
--     of the events. The foreign keys of the events are left out: the callers have read the rows.
--   TaskService (services/task_service.py, services/event_visibility.py): claim_task is in
--     TaskService, the other steps of a task's life are in TaskService.Lifecycle, post_event and
--     post_events_batch in TaskService.Posting, the claim as the route of routes/tasks.py asks for
--     it in TaskService.Single.Claims.
--   BundleService (services/bundle_service.py): closing and reopening a bundle.
--   Invocations (models/invocation.py, repositories/invocation_repo.py,
--     repositories/invocation_event_repo.py, services/invocation_service.py): the targets, the
--     rows, the tapes and the ends of runs. The lock of a tape makes an append one step.
--     Invocations.Schema is the dialect of request schemas with the check of results against one,
--     Invocations.Running is _run, Invocations.Creating is create with the constraints that
--     db/schema.py puts on the table.
--   GraphSandbox (services/graph_sandbox): GraphSandbox.Validator is validator.py over the syntax
--     trees of GraphSandbox.Syntax, GraphSandbox.Structure the extraction of steps and edges in
--     renderer.py.
--   GraphRuntime (services/graph_runtime): GraphRuntime.Polling is polling.py, GraphRuntime.Picker
--     agent_picker.py with _pick_with_diversity, GraphRuntime.Cycle dispatch_cycle of cycle.py with
--     the records of state.py, its loop in Cycle.Attempts and the rest in Cycle.Dispatch.
--   Controllers.Orch (controllers/orch_controller.py): a round of the controller on one task, which
--     posts its events through TaskService.
--   RepoGrants (repositories/repo_grant_repo.py): which grant lets a cookbook read a repository.
--   Redact (services/redact.py): the redaction of event bodies and payloads, which the routes of
--     routes/tasks.py apply before TaskService.Posting.
--   Prelude holds what the parts share, Samples the concrete runs.
-- An operation that awaits is one step: the model runs requests one after another, so what two
-- requests could do between each other's statements is outside it. The ids that an operation
-- draws and its reading of the clock are arguments; the readings within one call are one.
-- Numbers are natural numbers, since SQLite's integers and Python's do not wrap here; the numbers
-- of the watch log are those of an AUTOINCREMENT column.
--
-- What others write to the tables while dispatch_cycle or a run awaits is a function of the state,
-- and what a wait reads is a function of the round and the id. The state that the cycles of one
-- graph share is changed by one cycle at a time.
--
-- Fuel: the client that reads the log by pages (Watch.Log.Paging) runs on fuel, which the theorem
-- about it bounds by the rows that are left. The walk of GraphSandbox.Structure has one more than
-- the nodes of the graph, since it marks a node each time it goes deeper. The waits of
-- GraphRuntime.Polling run for the number of rounds that the time-out leaves.
--
-- Not modelled: the HTTP routes, authentication, the schema's migrations, the clients of other
-- services, git, the hands themselves, and the other controllers; of the parts above the creation
-- of bundles and the attachment of graphs, the mermaid text of a graph, the context of upstream
-- tasks that a prompt gets, the legacy publish of the watch service, and the two computed fields of
-- a bundle. The parser of Python, its order, case and printing of texts, its regular expressions,
-- and how a time is printed are parameters where the code uses them.
pub mod BundleService
pub mod Controllers
pub mod Db
pub mod GraphRuntime
pub mod GraphSandbox
pub mod Invocations
pub mod Models
pub mod Prelude
pub mod Redact
pub mod RepoGrants
pub mod Samples
pub mod TaskService
pub mod Watch
