-- ===== src/Lib.antt =====
-- Ender is a local agent runtime: an API server in JavaScript that starts tasks, runs each in a
-- tool-calling loop, asks its operator for approvals, and keeps all records as JSON files. This
-- library models the core of the server, the code under src/, and proves what makes it correct.
--
-- Parts, and the files that model them:
-- * Json (src/utils/jsonSafe.js): JSON values and the cleaning of text; Json/Read is how JavaScript
--   reads such a value (truthiness, String(), property access).
-- * Approval (src/runtime/taskApprovalCoordinator.js): the approvals that a task waits for.
-- * Task/Status (src/runtime/taskLifecycle.js): the statuses of a task and their transitions.
-- * Task (src/runtime/taskManager.js): Task/Record is a task object with the state of its runs and
--   what it has sent; Task/Content the content of messages; Task/Publish the change of status, logs
--   and events (`_transitionTask`, `_push`, `_safeBroadcast`, `_publishTerminalState`); Task/Run one
--   run (`_runThread`), split at its awaits; Task/Calls the public calls on a task; Task/Manager and
--   Task/Delete the map of tasks (`start`, `startChildTask`, `rerun`, `delete`); Task/Saved the record
--   of a task on disk and the loading at the start; Task/Views what is shown of a task and the messages
--   that a run gets; Task/Steps the calls and runs as one sequence of steps.
-- * Ledger (src/runtime/taskLedgerManager.js): the global task ledger. Ledger/Normalize and
--   Ledger/Validate read the inputs, Ledger/Entry is an entry with its life cycle record, Ledger/Stages
--   the reports of a worker, Ledger/Manager the changes of one entry, Ledger/Reconcile the
--   reconciliation of all entries with their tasks, Ledger/Calls the public calls.
-- * Records (src/persistence/jsonRecord.js, src/runtime/taskRecord.js): the versions of the records on
--   disk and their migration. Its loop has the current version as fuel: a turn stamps that version.
-- * Repository (src/runtime/jsonTaskRepository.js): the file of each task: safe names, the queue of
--   file calls, loading. Repository/Names and Repository/Refinement hold the proofs.
-- * Agent (src/runtime/runAgentLoop.js): messages and tool results; Agent/Loop is `runAgentLoop`, one
--   definition per tool call, message and turn.
-- * Schedules (src/runtime/scheduleManager.js, and the target schema of src/shared/contracts.js): the
--   inputs and their validation; Schedules/Manager holds the calls, the cron jobs and the executions.
-- * Servers, Pillar and Beacon (src/pillar/store.js, src/beacon/store.js): Servers is what the two
--   stores do alike with servers and their tokens; Pillar and Beacon add what differs, and Beacon the
--   devices and notifications.
-- * Relay (src/pillar/server.js): the relay of clients' requests to servers. Relay is a request and its
--   response, Relay/Queue the requests and polls of one server with their timers (`enqueue`, `poll`,
--   `complete`), Relay/Servers the map of servers, Relay/Stream the stream of a task through the relay;
--   the other modules below hold the proofs.
-- * Auth (src/beacon/auth.js): tokens, the cache of the provider's keys and the claims; Auth/Users is
--   `verifyOidcToken` and the handler that `createUserAuth` makes.
-- * Memories (src/runtime/memoryManager.js): Memories/Search is `search`, Memories/Pack the context
--   pack of a task and the summary of a thread, Memories/Manager the calls and the loading.
-- * Projects (src/runtime/projectManager.js, src/utils/safePath.js): names and validation;
--   Projects/Manager holds the calls, Projects/Workspace `ensureWorkspace`.
-- * Workflows (src/workflows/workflowManager.js): workflow sessions, over a workflow as a parameter;
--   Workflows/Saved their records on disk and the loading.
-- * Access (src/api/access.js): which addresses and origins may use the HTTP API.
-- Paths models no code: it is the names in a path, by which the theorems say where a directory lies.
-- The manager holds tasks, a task holds its approvals, and a run acts on its task only through the
-- callbacks that `_runThread` makes. A step is what happens between two awaits, so an interleaving
-- of calls and runs is a list of steps. The ledger starts tasks and reads their state through an
-- interface (`TaskService`), which the task manager fills; one reconciliation runs at a time.
-- `_persistTask` saves through the repository, whose queue is a list of requests, each file call with
-- its ending: done, refused, or a write torn off. The agent loop runs on a list of turns: what the
-- model and the tools answer, and where the run is aborted; without `maxSteps` it waits for the next
-- turn when the list is used up. A schedule's execution is two steps, before and after its target.
--
-- Conventions: a string is its list of UTF-16 code units; `undefined` and null fields are options;
-- a Map is its list of entries in insertion order; the clock, the ids that randomUUID gives, whether
-- a stream takes a write and whether a save succeeds are arguments of each step; an operation reads
-- the clock once. Errors returned as values are replies, exceptions are `none` or `threw`. The loops
-- that draw an unused id take the list of drawn ids as fuel: one more distinct id than there are keys
-- is enough. toLowerCase on keywords changes ASCII letters only; on other texts it is a parameter, as
-- are path.resolve and its kin, the host name of a URL, and Number() of a text.
--
-- Not modelled: what the ledger does between the awaits of one reconciliation, its loading of
-- records from disk and the prompt it writes for a worker; the loading and listing of schedules;
-- HTTP, SSE headers and heartbeats, timers beyond their effect, JSON printing, the operating
-- system's files, the language-model backends, the tools that call external services, the
-- preparation of a run (runTask), the workflows themselves and their listing, the listing and loading
-- of projects, the HTTP routes of beacon and pillar and their clients, the profiles of language models,
-- self-update, the code server, and the user interface.
mod Prelude
pub mod Json
pub mod Approval
pub mod Task
pub mod Ledger
pub mod Records
pub mod Paths
pub mod Relay
pub mod Auth
pub mod Workflows
pub mod Projects
pub mod Access
pub mod Memories
pub mod Repository
pub mod Agent
pub mod Schedules
pub mod Servers
pub mod Pillar
pub mod Beacon
mod Tests
