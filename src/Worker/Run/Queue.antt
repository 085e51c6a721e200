-- ===== src/Worker/Run/Queue.antt =====
-- What becomes of the instructions that a worker has in its queue.
use Prim.Native.String.{String}
use mathlib.Core.Path.{subst}
use agents_ensemble.Base.{
  ℕ, zero, suc, ◌-◌, ◌≡◌, refl, sym, ap, ◌∙◌, Bool, true, false, Option, none, some, List, [], ◌∷◌,
  length, arith,
}
use agents_ensemble.Base.StringMap.{lookup, lookup-insert_same}
use agents_ensemble.Worker.State.{
  worker_state, idle, conductor, is_busy, is_idle, phase_completed, published_completed, telemetry,
  prompted, ResidentWorker, Task, round_task, Worker, Effect, WorkerRuntime, put, log,
  resolve_idle_waiters, resolve_idle_if_ready,
}
use agents_ensemble.Worker.Round.{
  answered, execute_round, end_attach, return_to, finish_prompt_round, next_round, finish_round,
  settle_round,
}
use agents_ensemble.Worker.Run.Sound.{resolve_idle-workers}
use agents_ensemble.Worker.Run.Waiters.{if_false}

-- The prompt that a worker awaits is answered, with an end that is no cancellation.
answer_task : String → Worker → List Task → Option ResidentWorker → WorkerRuntime → WorkerRuntime
unfolding settle_round
answer_task name w (round_task source is_lazy_init in_attach ∷ rest) (some r) s =
    settle_round name source is_lazy_init in_attach (answered false) (record w { tasks = rest }) r s
answer_task name w _ _ s = s

answer_worker : String → Option Worker → WorkerRuntime → WorkerRuntime
unfolding answer_task
answer_worker name none s = s
answer_worker name (some w) s = answer_task name w w.tasks w.resident s

unfoldable pub answer_rounds : ℕ → String → WorkerRuntime → WorkerRuntime
unfolding answer_worker
answer_rounds zero name s = s
answer_rounds (suc n) name s = answer_rounds n name (answer_worker name (lookup name s.workers) s)

-- The prompts that were sent, the last one first.
abbrev pub prompts : List Effect → List String
prompts [] = []
prompts (prompted name text ∷ effects) = text ∷ prompts effects
prompts (_ ∷ effects) = prompts effects

-- The texts of a list, one after the other, in front of what was sent before.
abbrev pub sent_after : List String → List String → List String
sent_after [] before = before
sent_after (text ∷ texts) before = sent_after texts (text ∷ before)

-- A worker awaits the answer to a prompt of the conductor, and has a queue.
pub record IsAnswering (name : String) (in_attach : Bool) (queue : List String) (s : WorkerRuntime)
    : Type 0 where
  pub worker : Worker
  pub object : ResidentWorker
  pub found : lookup name s.workers ≡ some worker
  pub awaited : worker.tasks ≡ round_task conductor false in_attach ∷ []
  pub held : worker.resident ≡ some object
  pub queued : object.queue ≡ queue
  pub unpreempted : object.preempt_instruction ≡ none
  pub unforced : s.force_shutdown_requested ≡ false

-- The worker awaits nothing, is idle and has an empty queue.
pub record IsDone (name : String) (s : WorkerRuntime) : Type 0 where
  pub worker : Worker
  pub object : ResidentWorker
  pub found : lookup name s.workers ≡ some worker
  pub nothing_awaited : worker.tasks ≡ []
  pub held : worker.resident ≡ some object
  pub rests : object.state ≡ is_idle
  pub still : worker.is_processing ≡ false
  pub emptied : object.queue ≡ []

resolve_idle_keeps :
    (s : WorkerRuntime)
    → ((resolve_idle_if_ready s).force_shutdown_requested ≡ s.force_shutdown_requested)
      × ((resolve_idle_if_ready s).effects ≡ s.effects)
unfolding resolve_idle_if_ready resolve_idle_waiters
resolve_idle_keeps s = ground arith

-- What the answer leaves of a worker before its next round.
abbrev rested : Worker → ResidentWorker → Worker
rested w r = record w { is_processing = false; resident = some r; tasks = [] }

abbrev completed_log : String → WorkerRuntime → WorkerRuntime
completed_log name s =
    log (published_completed name conductor ∷ telemetry name phase_completed conductor ∷ []) s

abbrev before_next : String → Worker → ResidentWorker → WorkerRuntime → WorkerRuntime
unfolding finish_prompt_round
before_next name w r s = finish_prompt_round name (rested w r) (completed_log name s)

answer-IsAnswering :
    (name : String) (in_attach : Bool) (queue : List String) (s : WorkerRuntime)
    (a : IsAnswering name in_attach queue s)
    → answer_worker name (lookup name s.workers) s
      ≡ next_round name in_attach
          (rested a.worker a.object)
          a.object
          none
          queue
          (before_next name a.worker a.object s)
unfolding answer_worker answer_task settle_round finish_round before_next
answer-IsAnswering name in_attach queue s a =
    let w = a.worker in
    let r = a.object in
    ap (λ o. answer_worker name o s) a.found
    ∙ ap (λ ts. answer_task name w ts w.resident s) a.awaited
    ∙ ap (λ o. answer_task name w (round_task conductor false in_attach ∷ []) o s) a.held
    ∙ if_false s.force_shutdown_requested _ _ a.unforced
    ∙ if_false s.force_shutdown_requested _ _ a.unforced
    ∙ ap (λ p. next_round name in_attach (rested w r) r p r.queue (before_next name w r s))
        a.unpreempted
    ∙ ap (λ q. next_round name in_attach (rested w r) r none q (before_next name w r s)) a.queued

before_next-effects :
    (name : String) (w : Worker) (r : ResidentWorker) (s : WorkerRuntime)
    → prompts (before_next name w r s).effects ≡ prompts s.effects
unfolding before_next finish_prompt_round
before_next-effects name w r s =
    ap prompts (resolve_idle_keeps (put name (rested w r) (completed_log name s))).1

before_next-unforced :
    (name : String) (w : Worker) (r : ResidentWorker) (s : WorkerRuntime)
    → s.force_shutdown_requested ≡ false
    → (before_next name w r s).force_shutdown_requested ≡ false
unfolding before_next finish_prompt_round
before_next-unforced name w r s e =
    (resolve_idle_keeps (put name (rested w r) (completed_log name s))).0 ∙ e

-- The next instruction of the queue is sent.
next_round-IsAnswering :
    (name next : String) (in_attach : Bool) (queue : List String) (w : Worker) (r : ResidentWorker)
    (s : WorkerRuntime)
    → r.preempt_instruction ≡ none
    → s.force_shutdown_requested ≡ false
    → IsAnswering name in_attach queue
        (next_round name in_attach (rested w r) r none (next ∷ queue) s)
unfolding next_round execute_round
next_round-IsAnswering name next in_attach queue w r s unpreempted unforced = record {
  worker = record (rested w r) {
    resident =
        some (record (record r { queue = queue }) { state = is_busy; cancel_in_flight = false });
    is_processing = true;
    tasks = round_task conductor false in_attach ∷ [];
  };
  object = record (record r { queue = queue }) { state = is_busy; cancel_in_flight = false };
  found = lookup-insert_same name _ s.workers;
  awaited = refl;
  held = refl;
  queued = refl;
  unpreempted = unpreempted;
  unforced = unforced;
}

next_round-prompts :
    (name next : String) (in_attach : Bool) (queue : List String) (w : Worker) (r : ResidentWorker)
    (s : WorkerRuntime)
    → prompts (next_round name in_attach w r none (next ∷ queue) s).effects
      ≡ next ∷ prompts s.effects
unfolding next_round execute_round
next_round-prompts name next in_attach queue w r s = refl

return_to-keeps :
    (in_attach : Bool) (s : WorkerRuntime)
    → ((return_to in_attach s).workers ≡ s.workers) × ((return_to in_attach s).effects ≡ s.effects)
unfolding end_attach
return_to-keeps true s =
    let t : WorkerRuntime = record s { attach_in_flight = s.attach_in_flight - 1 } in
    (resolve_idle-workers t, (resolve_idle_keeps t).1)
return_to-keeps false s = (refl, refl)

next_round-IsDone :
    (name : String) (in_attach : Bool) (w : Worker) (r : ResidentWorker) (s : WorkerRuntime)
    → r.queue ≡ []
    → IsDone name (next_round name in_attach (rested w r) r none [] s)
      × (prompts (next_round name in_attach (rested w r) r none [] s).effects ≡ prompts s.effects)
unfolding next_round
next_round-IsDone name in_attach w r s empty =
    let new : Worker = record (rested w r) { resident = some (record r { state = is_idle }) } in
    let keeps = return_to-keeps in_attach (log (worker_state name idle ∷ []) (put name new s)) in
    (
      record {
        worker = new;
        object = record r { state = is_idle };
        found = ap (λ m. lookup name m) keeps.0 ∙ lookup-insert_same name new s.workers;
        nothing_awaited = refl;
        held = refl;
        rests = refl;
        still = refl;
        emptied = empty;
      },
      ap prompts keeps.1,
    )

-- A worker that awaits an answer of the conductor's prompt is done after as many answers as it has
-- queued instructions, and one more: if no answer is a cancellation and nothing else happens, it
-- awaits nothing and is idle with an empty queue, and the queued instructions have been sent in
-- their order, each once.
pub answer_rounds-IsDone :
    (name : String) (in_attach : Bool) (queue : List String) (s : WorkerRuntime)
    → IsAnswering name in_attach queue s
    → IsDone name (answer_rounds (suc (length queue)) name s)
      × (prompts (answer_rounds (suc (length queue)) name s).effects
          ≡ sent_after queue (prompts s.effects))
unfolding answer_rounds
answer_rounds-IsDone name in_attach [] s a =
    let w = a.worker in
    let r = a.object in
    let last = next_round-IsDone name in_attach w r (before_next name w r s) a.queued in
    subst (λ t. IsDone name t × (prompts t.effects ≡ prompts s.effects))
      (sym (answer-IsAnswering name in_attach [] s a))
      (last.0, last.1 ∙ before_next-effects name w r s)
answer_rounds-IsDone name in_attach (next ∷ queue) s a =
    let w = a.worker in
    let r = a.object in
    let t = next_round name in_attach (rested w r) r none (next ∷ queue) (before_next name w r s) in
    let rest = answer_rounds-IsDone name in_attach queue t (
      next_round-IsAnswering name next in_attach queue w r (before_next name w r s) a.unpreempted
        (before_next-unforced name w r s a.unforced)) in
    let sent : prompts t.effects ≡ next ∷ prompts s.effects =
      next_round-prompts name next in_attach queue (rested w r) r (before_next name w r s)
      ∙ ap (λ xs. next ∷ xs) (before_next-effects name w r s) in
    subst
      (λ u.
        IsDone name (answer_rounds (suc (length queue)) name u)
        × (prompts (answer_rounds (suc (length queue)) name u).effects
            ≡ sent_after (next ∷ queue) (prompts s.effects)))
      (sym (answer-IsAnswering name in_attach (next ∷ queue) s a))
      (rest.0, rest.1 ∙ ap (sent_after queue) sent)
