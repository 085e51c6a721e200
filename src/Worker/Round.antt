-- ===== src/Worker/Round.antt =====
-- `executeRound` of worker-runtime.ts, up to its `await` and after it. Instructions are never the
-- empty text, which `sendWorkerMessage` refuses, so a queued one is always truthy.
use Prim.Native.String.{String}
use agents_ensemble.Base.{
  ℕ, ◌+◌, ◌-◌, ◌&&◌, not, Bool, true, false, Option, none, some, List, [], ◌∷◌, ◌++◌, length,
  is_some, if◌then◌else◌,
}
use agents_ensemble.Worker.State.{
  WorkerPromptSource, harness, conductor, is_idle, is_busy, ResidentWorker, WorkerError,
  init_cancelled, init_failed, processing, idle, failed, phase_started, phase_completed,
  phase_failed, round_task, close_task, Worker, worker_state, telemetry, prompted,
  published_completed, published_failed, published_prompt_failed, WorkerRuntime, put, log,
  resolve_idle_if_ready,
}

abbrev pub is_harness : WorkerPromptSource → Bool
is_harness harness = true
is_harness conductor = false

-- The start of a round: the prompt is sent and awaited.
unfoldable pub execute_round :
    String
    → WorkerPromptSource
    → String
    → Bool
    → Worker
    → ResidentWorker
    → WorkerRuntime
    → WorkerRuntime
execute_round name source prompt in_attach w r s =
    log
      (prompted name prompt
          ∷ (if is_harness source then [] else telemetry name phase_started source ∷ [])
        ++ worker_state name processing ∷ [])
      (put name
        (record w {
          resident = some (record r { state = is_busy; cancel_in_flight = false });
          is_processing = true;
          tasks =
              round_task source (is_harness source && r.lazy_init_in_flight) in_attach ∷ w.tasks;
        })
        s)

-- The `finally` of `attachAndInit`.
unfoldable pub end_attach : WorkerRuntime → WorkerRuntime
unfolding resolve_idle_if_ready
end_attach s = resolve_idle_if_ready (record s { attach_in_flight = s.attach_in_flight - 1 })

abbrev pub return_to : Bool → WorkerRuntime → WorkerRuntime
unfolding end_attach
return_to true s = end_attach s
return_to false s = s

-- `finishPromptRound`
unfoldable pub finish_prompt_round : String → Worker → WorkerRuntime → WorkerRuntime
unfolding resolve_idle_if_ready
finish_prompt_round name w s =
    resolve_idle_if_ready (put name (record w { is_processing = false }) s)

-- The next instruction, the preempting one first.
unfoldable pub next_round :
    String
    → Bool
    → Worker
    → ResidentWorker
    → Option String
    → List String
    → WorkerRuntime
    → WorkerRuntime
unfolding execute_round
next_round name in_attach w r (some preempt) queue s =
    execute_round name conductor preempt in_attach w (record r { preempt_instruction = none }) s
next_round name in_attach w r none (next ∷ queue) s =
    execute_round name conductor next in_attach w (record r { queue = queue }) s
next_round name in_attach w r none [] s = return_to in_attach (
    log (worker_state name idle ∷ [])
      (put name (record w { resident = some (record r { state = is_idle }) }) s))

abbrev pub emptied : ResidentWorker → ResidentWorker
emptied r = record r { queue = []; preempt_instruction = none }

-- The `finally` of the round. `w` is the worker with the state that the `try` has left.
unfoldable pub finish_round :
    String
    → WorkerPromptSource
    → Bool
    → Bool
    → Worker
    → ResidentWorker
    → WorkerRuntime
    → WorkerRuntime
unfolding finish_prompt_round next_round
finish_round name source in_attach lazy_init_failed w r s =
    let settled : ResidentWorker =
      if is_harness source then record r { lazy_init_in_flight = false } else r in
    let left : Worker = record w { is_processing = false; resident = some settled } in
    let finished = finish_prompt_round name left s in
    if s.force_shutdown_requested
    then return_to in_attach (put name (record left { resident = some (emptied settled) }) finished)
    else if lazy_init_failed
    then put name (record left { tasks = close_task in_attach ∷ left.tasks }) finished
    else next_round name in_attach left settled settled.preempt_instruction settled.queue finished

-- The instructions that a failed lazy init discards.
abbrev pub queued_count : ResidentWorker → ℕ
queued_count r = length r.queue + (if is_some r.preempt_instruction then 1 else 0)

unfoldable pub fail_lazy_init :
    String
    → WorkerPromptSource
    → Bool
    → WorkerError
    → Worker
    → ResidentWorker
    → WorkerRuntime
    → WorkerRuntime
unfolding finish_round
fail_lazy_init name source in_attach error w r s =
    let discarded : ResidentWorker = record (emptied r) { lazy_init_in_flight = false } in
    finish_round name source in_attach true
      (record w { failed_entry = some error; is_resident = false }) discarded
      (log
        (published_failed name error
          ∷ worker_state name failed
          ∷ telemetry name phase_failed source
          ∷ [])
        s)

-- How `runAttachedWorkerPrompt` ends: with a stop reason, `cancelled` or another, or an error.
pub data PromptOutcome : Type 0 where
  answered : Bool → PromptOutcome
  threw : String → PromptOutcome

-- After the `await` of a round whose task has been taken from `w`.
unfoldable pub settle_round :
    String
    → WorkerPromptSource
    → Bool
    → Bool
    → PromptOutcome
    → Worker
    → ResidentWorker
    → WorkerRuntime
    → WorkerRuntime
unfolding finish_round fail_lazy_init
settle_round name source is_lazy_init in_attach (answered is_cancelled) w r s =
    if s.force_shutdown_requested
    then finish_round name source in_attach false w r s
    else if is_lazy_init && is_cancelled
    then fail_lazy_init name source in_attach (init_cancelled (queued_count r)) w r s
    else finish_round name source in_attach false w r (
        if is_cancelled && is_some r.preempt_instruction
        then s
        else log (published_completed name source ∷ telemetry name phase_completed source ∷ []) s)
settle_round name source is_lazy_init in_attach (threw error) w r s =
    if is_lazy_init && not s.force_shutdown_requested
    then fail_lazy_init name source in_attach (init_failed error (queued_count r)) w r s
    else finish_round name source in_attach false w r (
        if not s.force_shutdown_requested && not (is_some r.preempt_instruction)
        then log (published_prompt_failed name error ∷ telemetry name phase_failed source ∷ []) s
        else s)

-- After the closing of the session of a failed lazy init; one that throws keeps the session.
unfoldable pub settle_close : String → Bool → Bool → Worker → WorkerRuntime → WorkerRuntime
settle_close name in_attach is_closed w s =
    return_to in_attach (put name (if is_closed then w else record w { is_resident = true }) s)
