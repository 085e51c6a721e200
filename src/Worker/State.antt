-- ===== src/Worker/State.antt =====
-- The state of worker-runtime.ts. Its maps from the name of a worker (`configuredWorkers`,
-- `residents`, `attaching`, `sleeping`, `failedWorkers`) and `processing`, which goes by the id of
-- the worker, are here one map from the name to a record with a field for each. `resident` is the
-- object that a running `executeRound` holds on to, and `is_resident` says that the map `residents`
-- has it. A call of an `async` method that awaits is a `Task` of its worker.
use Prim.Native.String.{String}
use agents_ensemble.Base.{
  ℕ, ◌+◌, ◌==◌, ◌&&◌, Bool, true, false, Option, List, [], ◌∷◌, ◌++◌, if◌then◌else◌,
}
use agents_ensemble.Base.StringMap.{insert}

-- Of the parameters the fields stand here that the runtime reads itself.
pub record WorkerStartedInfo : Type 0 where
  pub worker_id : String
  pub name : String
  pub kind : String

pub data WorkerPromptSource : Type 0 where
  harness conductor : WorkerPromptSource

pub data ResidentState : Type 0 where
  is_idle is_busy : ResidentState

-- `attached` is left out: what is sent to its session stands among the effects.
pub record ResidentWorker : Type 0 where
  pub state : ResidentState
  pub queue : List String
  pub lazy_init_in_flight : Bool
  pub preempt_instruction : Option String
  pub cancel_in_flight : Bool

pub record AttachingWorker : Type 0 where
  pub queue : List String
  pub preempt_instruction : Option String

-- The texts of the errors, by what they are made of; a lazy init also counts the instructions that
-- it discards.
pub data WorkerError : Type 0 where
  attach_error : String → WorkerError
  init_cancelled : ℕ → WorkerError
  init_failed : String → ℕ → WorkerError

pub data WorkerHarnessState : Type 0 where
  attaching sleeping processing idle failed : WorkerHarnessState

pub data PromptPhase : Type 0 where
  phase_started phase_completed phase_failed : PromptPhase

-- What is awaited: `attachWorker`; the closing of a session that came after a forced shutdown; the
-- answer to a prompt, with `isLazyInit`; the closing after a failed lazy init. The last two say
-- whether `attachAndInit` awaits them in turn.
pub data Task : Type 0 where
  attaching_task : Option String → Task
  late_close_task : Task
  round_task : WorkerPromptSource → Bool → Bool → Task
  close_task : Bool → Task

pub record Worker : Type 0 where
  pub started : WorkerStartedInfo
  pub is_sleeping : Bool
  pub attaching_entry : Option AttachingWorker
  pub resident : Option ResidentWorker
  pub is_resident : Bool
  pub failed_entry : Option WorkerError
  pub is_processing : Bool
  pub tasks : List Task

-- The calls out of the runtime.
pub data Effect : Type 0 where
  worker_state : String → WorkerHarnessState → Effect
  telemetry : String → PromptPhase → WorkerPromptSource → Effect
  prompted : String → String → Effect
  cancelled_prompt : String → Effect
  closed_session : String → Effect
  published_completed : String → WorkerPromptSource → Effect
  published_failed : String → WorkerError → Effect
  published_prompt_failed : String → String → Effect

pub record WorkerRuntime : Type 0 where
  pub workers : List (String × Worker)
  pub attach_in_flight : ℕ
  pub force_shutdown_requested : Bool
  pub idle_resolvers : List ℕ
  pub idle_resolved : List ℕ
  pub effects : List Effect

unfoldable pub empty_runtime : WorkerRuntime
empty_runtime = record {
  workers = [];
  attach_in_flight = 0;
  force_shutdown_requested = false;
  idle_resolvers = [];
  idle_resolved = [];
  effects = [];
}

-- A change of the fields of one worker.
abbrev pub put : String → Worker → WorkerRuntime → WorkerRuntime
put name w s = record s { workers = insert name w s.workers }

-- The effects of a step, the last one first.
abbrev pub log : List Effect → WorkerRuntime → WorkerRuntime
log effects s = record s { effects = effects ++ s.effects }

abbrev pub bit : Bool → ℕ
bit true = 1
bit false = 0

-- `this.processing.size`
abbrev pub processing_size : List (String × Worker) → ℕ
processing_size [] = 0
processing_size ((name, w) ∷ m) = bit w.is_processing + processing_size m

-- Nothing is awaited but permissions.
abbrev pub is_ready : WorkerRuntime → Bool
is_ready s = (processing_size s.workers == 0) && (s.attach_in_flight == 0)

unfoldable pub resolve_idle_waiters : WorkerRuntime → WorkerRuntime
resolve_idle_waiters s = record s {
  idle_resolvers = [];
  idle_resolved = s.idle_resolvers ++ s.idle_resolved;
}

unfoldable pub resolve_idle_if_ready : WorkerRuntime → WorkerRuntime
unfolding resolve_idle_waiters
resolve_idle_if_ready s = if is_ready s then resolve_idle_waiters s else s

-- `get runningCount`; the inbox has its own count.
unfoldable pub running_count : ℕ → WorkerRuntime → ℕ
running_count pending_permission_count s =
    processing_size s.workers + s.attach_in_flight + pending_permission_count

-- `promptsIdle` and the promise of `waitForIdle`, whose other half is `waitForPermissionsIdle` of the
-- inbox; the result says that the caller has to wait.
unfoldable pub wait_for_idle : ℕ → WorkerRuntime → WorkerRuntime × Bool
wait_for_idle waiter s =
    if is_ready s
    then (s, false)
    else (record s { idle_resolvers = s.idle_resolvers ++ waiter ∷ [] }, true)
