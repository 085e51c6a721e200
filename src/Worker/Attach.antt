-- ===== src/Worker/Attach.antt =====
-- `start` and `attachAndInit` of worker-runtime.ts.
use Prim.Native.String.{String}
use agents_ensemble.Base.{
  suc, Bool, true, false, Option, none, some, List, [], ◌∷◌, is_some, if◌then◌else◌,
}
use agents_ensemble.Base.StringMap.{lookup}
use agents_ensemble.Worker.State.{
  WorkerStartedInfo, harness, is_idle, AttachingWorker, attach_error, sleeping, attaching, failed,
  phase_started, phase_failed, attaching_task, late_close_task, Worker, worker_state, telemetry,
  closed_session, published_failed, WorkerRuntime, put, log,
}
use agents_ensemble.Worker.Round.{execute_round, end_attach}

abbrev pub to_list : Option String → List String
to_list none = []
to_list (some instruction) = instruction ∷ []

-- Up to the `await` of `attachWorker`.
unfoldable pub attach_and_init : String → Option String → Worker → WorkerRuntime → WorkerRuntime
attach_and_init name first_instruction w s =
    log (telemetry name phase_started harness ∷ worker_state name attaching ∷ []) (
      put name
        (record w {
          attaching_entry =
              some (record { queue = to_list first_instruction; preempt_instruction = none });
          tasks = attaching_task first_instruction ∷ w.tasks;
        })
        (record s { attach_in_flight = suc s.attach_in_flight }))

abbrev pub new_worker : WorkerStartedInfo → Bool → Worker
new_worker started lazy = record {
  started = started;
  is_sleeping = lazy;
  attaching_entry = none;
  resident = none;
  is_resident = false;
  failed_entry = none;
  is_processing = false;
  tasks = [];
}

-- `none` is the error on a name that is registered already.
unfoldable pub start : WorkerStartedInfo → Bool → WorkerRuntime → Option WorkerRuntime
unfolding attach_and_init
start started lazy s =
    if is_some (lookup started.name s.workers)
    then none
    else if lazy
    then some (
        log (worker_state started.name sleeping ∷ [])
          (put started.name (new_worker started true) s))
    else some (attach_and_init started.name none (new_worker started false) s)

-- How `attachWorker` ends: with a session, for which `buildWorkerAttachPrompt` makes the prompt, or
-- with an error of either of the two.
pub data AttachOutcome : Type 0 where
  attached : String → AttachOutcome
  attach_threw : String → AttachOutcome

-- `attaching.queue.length = 0` and `attaching.preemptInstruction = undefined`
abbrev pub emptied_entry : Option AttachingWorker → Option AttachingWorker
emptied_entry none = none
emptied_entry (some entry) = some (record { queue = []; preempt_instruction = none })

-- What `attaching` holds for the worker; only a forced shutdown clears it, and has its own branch.
abbrev pub waiting_of : Option AttachingWorker → AttachingWorker
waiting_of none = record { queue = []; preempt_instruction = none }
waiting_of (some entry) = entry

unfoldable pub settle_attach :
    String → Option String → AttachOutcome → Worker → WorkerRuntime → WorkerRuntime
unfolding execute_round end_attach
settle_attach name first_instruction (attached prompt) w s =
    if s.force_shutdown_requested
    then log (closed_session name ∷ []) (
        put name
          (record w {
            attaching_entry = emptied_entry w.attaching_entry;
            tasks = late_close_task ∷ w.tasks;
          })
          s)
    else let entry = waiting_of w.attaching_entry in
      execute_round name harness prompt true
        (record w { attaching_entry = none; is_resident = true })
        (record {
          state = is_idle;
          queue = entry.queue;
          lazy_init_in_flight = is_some first_instruction;
          preempt_instruction = entry.preempt_instruction;
          cancel_in_flight = false;
        })
        s
settle_attach name first_instruction (attach_threw error) w s =
    let left = record w { attaching_entry = none; is_resident = false } in
    if s.force_shutdown_requested
    then end_attach (put name left s)
    else end_attach (
        log
          (published_failed name (attach_error error)
            ∷ telemetry name phase_failed harness
            ∷ worker_state name failed
            ∷ [])
          (put name (record left { failed_entry = some (attach_error error) }) s))

-- The closing after a forced shutdown is over; without an error the entry of the worker stays.
unfoldable pub settle_late_close : String → Bool → Worker → WorkerRuntime → WorkerRuntime
unfolding end_attach
settle_late_close name true w s = end_attach (put name w s)
settle_late_close name false w s =
    end_attach (put name (record w { attaching_entry = none; is_resident = false }) s)
