-- ===== src/Worker/Run.antt =====
-- Every run of the worker runtime: calls from outside and ends of what is awaited, in any order.
pub mod Sound
pub mod Rounds
pub mod Steps
pub mod Kept
pub mod Sends
pub mod Calls
pub mod Whole
pub mod Waiters
pub mod Queue
use Prim.Native.String.{String}
use agents_ensemble.Base.{ℕ, ◌≡◌, Bool, Option, some, List, ◌∷◌, ◌++◌}
use agents_ensemble.Base.StringMap.{lookup}
use agents_ensemble.Worker.State.{
  WorkerStartedInfo, WorkerPromptSource, ResidentWorker, Task, attaching_task, late_close_task,
  round_task, close_task, Worker, WorkerRuntime, empty_runtime, wait_for_idle,
}
use agents_ensemble.Worker.Round.{PromptOutcome, settle_round, settle_close}
use agents_ensemble.Worker.Attach.{start, AttachOutcome, settle_attach, settle_late_close}
use agents_ensemble.Worker.Send.{send_worker_message}
use agents_ensemble.Worker.Close.{
  cancel_all_active_prompts, force_shutdown, end_force_shutdown, end_shutdown,
}

-- A worker that awaits a task, with the worker that is left when the task has ended.
pub record Awaits (s : WorkerRuntime) (name : String) (task : Task) (left : Worker) : Type 0 where
  pub worker : Worker
  pub before : List Task
  pub after : List Task
  pub found : lookup name s.workers ≡ some worker
  pub split : worker.tasks ≡ before ++ task ∷ after
  pub taken : left ≡ record worker { tasks = before ++ after }

module _ (trim : String → String) where
  pub data Run : WorkerRuntime → Type 0 where
    begins : Run empty_runtime
    starts :
        (started : WorkerStartedInfo) (lazy : Bool) {s t : WorkerRuntime}
        → start started lazy s ≡ some t
        → Run s
        → Run t
    sends :
        (name instruction : String) (preempt : Bool) {s : WorkerRuntime}
        → Run s
        → Run (send_worker_message trim name instruction preempt s).0
    waits : (waiter : ℕ) {s : WorkerRuntime} → Run s → Run (wait_for_idle waiter s).0
    cancels : {s : WorkerRuntime} → Run s → Run (cancel_all_active_prompts s)
    forces : {s : WorkerRuntime} → Run s → Run (force_shutdown s)
    ends_forced : {s : WorkerRuntime} → Run s → Run (end_force_shutdown s)
    ends : {s : WorkerRuntime} → Run s → Run (end_shutdown s)
    attaches :
        (name : String) (first : Option String) (outcome : AttachOutcome) (left : Worker)
        {s : WorkerRuntime}
        → Awaits s name (attaching_task first) left
        → Run s
        → Run (settle_attach name first outcome left s)
    closes_late :
        (name : String) (is_closed : Bool) (left : Worker) {s : WorkerRuntime}
        → Awaits s name late_close_task left
        → Run s
        → Run (settle_late_close name is_closed left s)
    answers :
        (name : String) (source : WorkerPromptSource) (is_lazy_init in_attach : Bool)
        (outcome : PromptOutcome) (left : Worker) (r : ResidentWorker) {s : WorkerRuntime}
        → Awaits s name (round_task source is_lazy_init in_attach) left
        → left.resident ≡ some r
        → Run s
        → Run (settle_round name source is_lazy_init in_attach outcome left r s)
    closes :
        (name : String) (in_attach is_closed : Bool) (left : Worker) {s : WorkerRuntime}
        → Awaits s name (close_task in_attach) left
        → Run s
        → Run (settle_close name in_attach is_closed left s)
