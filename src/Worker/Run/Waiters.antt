-- ===== src/Worker/Run/Waiters.antt =====
-- Who waits for the end of the prompts, and the errors of `sendWorkerMessage`.
use Prim.Native.String.{String}
use text.Mathlib.Text.{◌==◌ as str_eq}
use mathlib.Core.Path.{subst}
use agents_ensemble.Base.{
  ◌≡◌, refl, sym, ap, ◌∙◌, Bool, true, false, Option, none, some, List, [], ◌∷◌, ◌++◌, if_intro,
  if◌then◌else◌, arith,
}
use agents_ensemble.Base.StringMap.{lookup, lookup-insert_same}
use agents_ensemble.Worker.State.{
  conductor, phase_completed, published_completed, telemetry, is_busy, is_idle, ResidentState,
  ResidentWorker, AttachingWorker, WorkerError, Worker, WorkerRuntime, put, log, is_ready,
  resolve_idle_waiters, resolve_idle_if_ready,
}
use agents_ensemble.Worker.Round.{
  answered, execute_round, finish_prompt_round, next_round, finish_round, settle_round,
}
use agents_ensemble.Worker.Send.{
  SendWorkerMessageResult, SendError, send_error, preempt_resident, send_to_resident,
  send_to_attaching, send_to_unattached, resident_entry, send_to_available, send_unless_failed,
  send_to, send_worker_message,
}

abbrev pub processes : Option Worker → Bool
processes none = false
processes (some w) = w.is_processing

execute_round-processes :
    (name prompt : String) (in_attach : Bool) (w : Worker) (r : ResidentWorker) (s : WorkerRuntime)
    → processes (lookup name (execute_round name conductor prompt in_attach w r s).workers) ≡ true
unfolding execute_round
execute_round-processes name prompt in_attach w r s =
    ap processes (lookup-insert_same name _ s.workers)

pub if_false : {A : Type 0} (b : Bool) (x y : A) → b ≡ false → (if b then x else y) ≡ y
if_false true x y e = ground arith
if_false false x y e = refl

resolve_idle-ready :
    (s : WorkerRuntime) → is_ready s ≡ true → resolve_idle_if_ready s ≡ resolve_idle_waiters s
unfolding resolve_idle_if_ready
resolve_idle-ready s e = rw e refl

-- A round of the conductor that is followed by a queued one.
finish_round-next :
    (name next : String) (queue : List String) (w : Worker) (r : ResidentWorker) (s : WorkerRuntime)
    → s.force_shutdown_requested ≡ false
    → r.preempt_instruction ≡ none
    → r.queue ≡ next ∷ queue
    → is_ready (put name (record w { is_processing = false; resident = some r }) s) ≡ true
    → finish_round name conductor false false w r s
      ≡ execute_round name conductor next false
          (record w { is_processing = false; resident = some r })
          (record r { queue = queue })
          (resolve_idle_waiters
            (put name (record w { is_processing = false; resident = some r }) s))
unfolding finish_round finish_prompt_round
finish_round-next name next queue w r s forced no_preempt queued ready =
    let left : Worker = record w { is_processing = false; resident = some r } in
    if_false s.force_shutdown_requested _ _ forced
    ∙ (ap (λ p. next_round name false left r p r.queue (resolve_idle_if_ready (put name left s)))
          no_preempt
        ∙ ap (λ q. next_round name false left r none q (resolve_idle_if_ready (put name left s)))
            queued
        ∙ unfold next_round in
          ap (execute_round name conductor next false left (record r { queue = queue }))
            (resolve_idle-ready (put name left s) ready))

-- When the last prompt that is unanswered is answered, outside an attachment and a forced shutdown, and
-- an instruction is queued for that worker, everybody who waits for the prompts to end is told so,
-- although the worker has the queued instruction to process from then on.
pub settle_round-tells_before_next :
    (name next : String) (queue : List String) (w : Worker) (r : ResidentWorker) (s : WorkerRuntime)
    → s.force_shutdown_requested ≡ false
    → r.preempt_instruction ≡ none
    → r.queue ≡ next ∷ queue
    → is_ready (put name (record w { is_processing = false; resident = some r }) s) ≡ true
    → ((settle_round name conductor false false (answered false) w r s).idle_resolvers ≡ [])
      × ((settle_round name conductor false false (answered false) w r s).idle_resolved
          ≡ s.idle_resolvers ++ s.idle_resolved)
      × (processes
            (lookup name (settle_round name conductor false false (answered false) w r s).workers)
          ≡ true)
unfolding settle_round
settle_round-tells_before_next name next queue w r s forced no_preempt queued ready =
    let left : Worker = record w { is_processing = false; resident = some r } in
    let told : WorkerRuntime =
      log (published_completed name conductor ∷ telemetry name phase_completed conductor ∷ []) s in
    (subst Told
      (sym (
        if_false s.force_shutdown_requested _ _ forced
        ∙ finish_round-next name next queue w r told forced no_preempt queued ready))
      (unfold execute_round in
        unfold resolve_idle_waiters in (refl, refl, ap processes (lookup-insert_same name _ _))))
  where
    Told : WorkerRuntime → Type 0
    Told t =
        (t.idle_resolvers ≡ [])
        × (t.idle_resolved ≡ s.idle_resolvers ++ s.idle_resolved)
        × (processes (lookup name t.workers) ≡ true)

abbrev Unchanged : WorkerRuntime → SendError → WorkerRuntime × SendWorkerMessageResult → Type 0
Unchanged s e t = t.1 ≡ send_error e → t.0 ≡ s

send_to_resident-Unchanged :
    (name text : String) (preempt : Bool) (w : Worker) (r : ResidentWorker) (state : ResidentState)
    (s : WorkerRuntime) (e : SendError)
    → Unchanged s e (send_to_resident name text preempt w r state s)
unfolding send_to_resident preempt_resident
send_to_resident-Unchanged name text preempt w r is_busy s e = ground arith
send_to_resident-Unchanged name text preempt w r is_idle s e = ground arith

send_to_unattached-Unchanged :
    (name text : String) (preempt : Bool) (w : Worker) (entry : Option AttachingWorker)
    (s : WorkerRuntime) (e : SendError)
    → Unchanged s e (send_to_unattached name text preempt w entry s)
unfolding send_to_unattached send_to_attaching
send_to_unattached-Unchanged name text preempt w none s e = λ f. refl
send_to_unattached-Unchanged name text preempt w (some entry) s e = ground arith

send_to_available-Unchanged :
    (name text : String) (preempt : Bool) (w : Worker) (entry : Option ResidentWorker)
    (s : WorkerRuntime) (e : SendError)
    → Unchanged s e (send_to_available name text preempt w entry s)
unfolding send_to_available
send_to_available-Unchanged name text preempt w (some r) s e =
    send_to_resident-Unchanged name text preempt w r r.state s e
send_to_available-Unchanged name text preempt w none s e =
    if_intro (Unchanged s e) w.is_sleeping (λ asleep. ground arith)
      (λ awake. send_to_unattached-Unchanged name text preempt w w.attaching_entry s e)

send_unless_failed-Unchanged :
    (name text : String) (preempt : Bool) (w : Worker) (failed : Option WorkerError)
    (s : WorkerRuntime) (e : SendError)
    → Unchanged s e (send_unless_failed name text preempt w failed s)
unfolding send_unless_failed
send_unless_failed-Unchanged name text preempt w (some error) s e = λ f. refl
send_unless_failed-Unchanged name text preempt w none s e =
    send_to_available-Unchanged name text preempt w (resident_entry w.is_resident w.resident) s e

send_to-Unchanged :
    (name text : String) (preempt : Bool) (found : Option Worker) (s : WorkerRuntime)
    (e : SendError)
    → Unchanged s e (send_to name text preempt found s)
unfolding send_to
send_to-Unchanged name text preempt none s e = λ f. refl
send_to-Unchanged name text preempt (some w) s e =
    send_unless_failed-Unchanged name text preempt w w.failed_entry s e

-- A message to a worker that is answered with an error, whichever of them, has changed nothing: no
-- instruction is queued, no prompt is sent or cancelled.
pub send_worker_message-error_unchanged :
    (trim : String → String) (name instruction : String) (preempt : Bool) (s : WorkerRuntime)
    (e : SendError)
    → (send_worker_message trim name instruction preempt s).1 ≡ send_error e
    → (send_worker_message trim name instruction preempt s).0 ≡ s
unfolding send_worker_message
send_worker_message-error_unchanged trim name instruction preempt s e =
    if_intro (Unchanged s e) s.force_shutdown_requested (λ forced f. refl)
      (λ unforced.
        if_intro (Unchanged s e) (str_eq (trim instruction) "") (λ empty f. refl)
          (λ full. send_to-Unchanged name (trim instruction) preempt (lookup name s.workers) s e))
