-- ===== src/Lib.antt =====
-- This library verifies the core of agents-ensemble: the session in which one conductor agent is
-- sent the events of its workers, of the operator and of GitHub.
--
-- The parts and how they interact. All events of a session go through one queue. The driver takes
-- batches out of it and sends them to the conductor: in each round it lets the dispatch hold take the
-- events that are held back, drops permission events that are no longer pending, selects one source
-- by the batch selection, and waits for an event when nothing may go out. The session policy
-- limits what may go out without the operator. The worker runtime attaches the workers, sends them
-- their prompts one after the other and tells the inbox how they end. A worker that asks for a permission gets a promise from the inbox;
-- the inbox processor passes the request to the permission pipeline, which answers by the policy or
-- keeps it in the registry of pending permissions until the conductor decides or the worker fails.
-- Questions to the operator stand in the open question registry, which messages of the operator
-- answer.
--
-- Files, with the code they model (packages/core/src of the repository):
-- Base: the conditional, lists with the names of JavaScript's array methods, integers, `Map`s with
--   text keys in insertion order (Base/StringMap), and the interleaving of two lists (Base/Merge).
-- Session/Event: conductor/session/events/session-event.ts, conductor/session/dispatch-mode.ts. An
--   event has an identity `ref`, which the code's `===`, `Set` and `indexOf` compare; `Coherent` says
--   that one identity is one event.
-- Session/Policy: conductor/session-policy.ts.
-- Session/Batch: conductor/session/select-dispatch-batch.ts; `select_dispatch_batch` is
--   `selectDispatchBatch`, `chosen_key` and `batch_of` are its two halves.
-- Session/Queue: conductor/session/session-event-queue.ts; promises are numbers.
-- Session/Hold: conductor/session/dispatch-hold.ts, dispatch/set-dispatch-hold-tool.ts and the hook
--   `onBeforeRelease` of conductor/conductor-session.ts.
-- Session/Driver: `waitForDispatchBatch` of conductor/conductor-session-driver.ts. What may change
--   during its `await` is given as a list of `Wake`s, one for each wait that ends.
-- Session/Loop: `runConductorSessionDriver` of the same file, as the pieces of code between its awaits
--   (Loop/Turn, Loop/Stop) and a relation of runs (Loop/Run) in which the rest of the session changes
--   what it shares with the loop whenever the loop awaits.
-- Session/Reminder: conductor/session/dispatch-hold-reminder-monitor.ts; times that are read are
--   arguments.
-- Permission/Policy, Broker, Handle, Registry, Pipeline: permission-policy.ts, permission-broker.ts
--   (the choice of an option, and the class), pending-permission.ts and permission-pipeline.ts of
--   permission/.
-- Permission/Inbox: runtime/conductor-inbox.ts. Permission/Service: runtime/inbox-processor.ts and
--   the processor that runtime/worker-session.ts starts.
-- Question/Assent, Registry, Answer, MaxTurns: yes-no-assent.ts, open-question.ts,
--   record-open-question-answer.ts with apply-operator-message.ts, and enqueue-max-turns-question.ts
--   of escalation/.
-- Permission/Stall: permission/permission-deadlock-monitor.ts.
-- Usage: session-usage-tracker.ts, types.ts and estimate-token-usage.ts of usage/.
-- Github/Debounce, Cursor: github/debounce-buffer.ts and github/github-monitor-cursor.ts.
-- Worker: runtime/worker-runtime.ts. Worker/State has one map from the name of a worker to a record
--   where the class has a map for each state; an `await` is a `Task` of its worker. Round, Attach, Send,
--   Close and Status are `executeRound`, `attachAndInit`, `sendWorkerMessage`, `shutdown` and
--   `summarizeWorkerStatus`. Worker/Run is the relation of runs: calls and ends of tasks in any order.
-- Tests: runs on concrete inputs.
--
-- Bounds and fuel. Counters, times and lengths are natural numbers and `maxTurns` is an integer; the
-- code's counters start at 0 and only grow by one, far from 2^53. No function needs fuel: the loops
-- recurse on lists, and the endless loop of a wait on the list of the wakes, so a wait is
-- followed to its last wake. Runs of the loop and of the worker runtime are relations without a bound.
--
-- Parameters. JavaScript's `trim`, `toLowerCase`, `normalize` and the replacement by Unicode classes,
-- the writing of a number in decimal (with the hypothesis that different numbers have different
-- texts, where ids must differ), `Date.now()` and `randomUUID()` (with the hypothesis that an id is
-- not among the open ones), the byte length of a text and the rounding of a percentage in floating
-- point are arguments.
--
-- Not modelled: the processes of workers and agents, HTTP, files, the terminal, and
-- the texts for language models. Waits are explicit steps; what runs without an `await` is one step,
-- and so is the processing of one inbox message, whose `await` is of a value that is already there.
pub mod Base
pub mod Github
pub mod Permission
pub mod Question
pub mod Session
pub mod Tests
pub mod Usage
pub mod Worker
