-- ===== src/Worker/Run/Whole.antt =====
-- What holds in every run of the worker runtime.
use Prim.Native.String.{String}
use mathlib.Core.Path.{subst}
use agents_ensemble.Base.{
  ℕ, ◌+◌, ◌≤◌, ◌≡◌, refl, sym, ap, ◌∙◌, Bool, true, false, some, List, [], ◌∷◌, All, length, arith,
}
use agents_ensemble.Base.StringMap.{lookup}
use agents_ensemble.Worker.State.{
  Task, attaching_task, late_close_task, round_task, close_task, Worker, WorkerRuntime,
  empty_runtime, bit, processing_size, running_count,
}
use agents_ensemble.Worker.Round.{settle_round, settle_close}
use agents_ensemble.Worker.Attach.{settle_attach, settle_late_close}
use agents_ensemble.Worker.Run.{
  Run, begins, starts, sends, waits, cancels, forces, ends_forced, ends, attaches, closes_late,
  answers, closes,
}
use agents_ensemble.Worker.Run.Sound.{
  IsTasked, IsFormed, attach_bits, attach_total, IsSound, All-at, awaited_alone,
}
use agents_ensemble.Worker.Run.Steps.{
  settle_round-IsSound, settle_close-IsSound, settle_attach-IsSound, settle_late_close-IsSound,
}
use agents_ensemble.Worker.Run.Sends.{send_worker_message-IsSound}
use agents_ensemble.Worker.Run.Calls.{
  start-IsSound, cancel_all-IsSound, force_shutdown-IsSound, end_force_shutdown-IsSound,
  end_shutdown-IsSound, wait_for_idle-IsSound,
}

one_bit : (n : ℕ) → n + 0 ≡ n
one_bit n = omega arith

pub Run-IsSound : (trim : String → String) {s : WorkerRuntime} → Run trim s → IsSound 0 s
unfolding empty_runtime
Run-IsSound trim begins = record { formed = tt; counted = refl }
Run-IsSound trim (starts started lazy {s = s} {t = t} e run) =
    start-IsSound started lazy s t e (Run-IsSound trim run)
Run-IsSound trim (sends name instruction preempt {s = s} run) =
    send_worker_message-IsSound trim name instruction preempt s (Run-IsSound trim run)
Run-IsSound trim (waits waiter {s = s} run) = wait_for_idle-IsSound waiter s (Run-IsSound trim run)
Run-IsSound trim (cancels {s = s} run) = cancel_all-IsSound s (Run-IsSound trim run)
Run-IsSound trim (forces {s = s} run) = force_shutdown-IsSound s (Run-IsSound trim run)
Run-IsSound trim (ends_forced {s = s} run) = end_force_shutdown-IsSound s (Run-IsSound trim run)
Run-IsSound trim (ends {s = s} run) = end_shutdown-IsSound s (Run-IsSound trim run)
Run-IsSound trim (attaches name first outcome left {s = s} a run) =
    let sound = Run-IsSound trim run in
    let (w, found, alone, (still, awake, gone), taken) =
      awaited_alone s name (attaching_task first) left 0 sound a in
    subst (λ v. IsSound 0 (settle_attach name first outcome v s)) (sym taken)
      (settle_attach-IsSound name first outcome w (record w { tasks = [] }) s found
        (ap attach_bits alone) refl awake gone still sound)
Run-IsSound trim (closes_late name is_closed left {s = s} a run) =
    let sound = Run-IsSound trim run in
    let (w, found, alone, (still, awake, gone), taken) =
      awaited_alone s name late_close_task left 0 sound a in
    subst (λ v. IsSound 0 (settle_late_close name is_closed v s)) (sym taken)
      (settle_late_close-IsSound name is_closed w (record w { tasks = [] }) s found
        (ap attach_bits alone) refl still gone sound)
Run-IsSound trim (answers name source is_lazy_init in_attach outcome left r {s = s} a there run) =
    let sound = Run-IsSound trim run in
    let (w, found, alone, (on, awake, busy, inside), taken) =
      awaited_alone s name (round_task source is_lazy_init in_attach) left 0 sound a in
    subst (λ v. IsSound 0 (settle_round name source is_lazy_init in_attach outcome v r s))
      (sym taken)
      (settle_round-IsSound name source is_lazy_init in_attach outcome w (record w { tasks = [] }) r
        s found (ap attach_bits alone ∙ one_bit (bit in_attach)) refl awake inside sound)
Run-IsSound trim (closes name in_attach is_closed left {s = s} a run) =
    let sound = Run-IsSound trim run in
    let (w, found, alone, (still, awake, failed, inside), taken) =
      awaited_alone s name (close_task in_attach) left 0 sound a in
    subst (λ v. IsSound 0 (settle_close name in_attach is_closed v s)) (sym taken)
      (settle_close-IsSound name in_attach is_closed w (record w { tasks = [] }) s found
        (ap attach_bits alone ∙ one_bit (bit in_attach)) refl awake still sound)

abbrev is_round : Task → Bool
is_round (round_task source is_lazy_init in_attach) = true
is_round (attaching_task first) = false
is_round late_close_task = false
is_round (close_task in_attach) = false

abbrev pub awaits_round : List Task → Bool
awaits_round [] = false
awaits_round (task ∷ tasks) = is_round task

formed-one_task :
    (tasks : List Task) (w : Worker)
    → IsTasked tasks w
    → (length tasks ≤ 1) × (w.is_processing ≡ awaits_round tasks)
formed-one_task [] w h = (omega arith, h.0)
formed-one_task (attaching_task x ∷ []) w h = (omega arith, h.0)
formed-one_task (late_close_task ∷ []) w h = (omega arith, h.0)
formed-one_task (round_task x y z ∷ []) w h = (omega arith, h.0)
formed-one_task (close_task x ∷ []) w h = (omega arith, h.0)
formed-one_task (attaching_task x ∷ _ ∷ _) w h = absurd h
formed-one_task (late_close_task ∷ _ ∷ _) w h = absurd h
formed-one_task (round_task x y z ∷ _ ∷ _) w h = absurd h
formed-one_task (close_task x ∷ _ ∷ _) w h = absurd h

-- In every run, under any order of calls, answers and ends of attachments, a worker awaits at most
-- one task, so never two answers to prompts at once, and it counts as processing exactly while it
-- awaits the answer to a prompt.
pub Run-one_round :
    (trim : String → String) (s : WorkerRuntime) (name : String) (w : Worker)
    → Run trim s
    → lookup name s.workers ≡ some w
    → (length w.tasks ≤ 1) × (w.is_processing ≡ awaits_round w.tasks)
Run-one_round trim s name w run found =
    formed-one_task w.tasks w (All-at IsFormed name w s.workers (Run-IsSound trim run).formed found)

formed-nothing_awaited :
    (tasks : List Task) (w : Worker)
    → IsTasked tasks w
    → bit w.is_processing ≡ 0
    → attach_bits tasks ≡ 0
    → tasks ≡ []
formed-nothing_awaited [] w h e a = refl
formed-nothing_awaited (attaching_task x ∷ []) w h e a = ground arith
formed-nothing_awaited (late_close_task ∷ []) w h e a = ground arith
formed-nothing_awaited (round_task x y z ∷ []) w (on, _, _, _) e a = ground arith
formed-nothing_awaited (close_task x ∷ []) w (still, awake, failed, inside) e a = ground arith
formed-nothing_awaited (attaching_task x ∷ _ ∷ _) w h e a = absurd h
formed-nothing_awaited (late_close_task ∷ _ ∷ _) w h e a = absurd h
formed-nothing_awaited (round_task x y z ∷ _ ∷ _) w h e a = absurd h
formed-nothing_awaited (close_task x ∷ _ ∷ _) w h e a = absurd h

nothing_awaited :
    (m : List (String × Worker))
    → All (λ e. IsFormed e.1) m
    → processing_size m ≡ 0
    → attach_total m ≡ 0
    → All (λ e. e.1.tasks ≡ []) m
nothing_awaited [] h p a = tt
nothing_awaited ((name, w) ∷ m) (h, hs) p a = (
  formed-nothing_awaited w.tasks w h (omega (arith, p)) (omega (arith, a)),
  nothing_awaited m hs (omega (arith, p)) (omega (arith, a)),
)

-- In every run in which the runtime counts nothing as running, not a single worker awaits anything: no
-- session is being attached or closed and no prompt is unanswered.
pub Run-running_count :
    (trim : String → String) (s : WorkerRuntime) (pending_permission_count : ℕ)
    → Run trim s
    → running_count pending_permission_count s ≡ 0
    → All (λ e. e.1.tasks ≡ []) s.workers
unfolding running_count
Run-running_count trim s pending run e =
    let sound = Run-IsSound trim run in
    let counted = sound.counted in
    nothing_awaited s.workers sound.formed (omega (arith, e)) (omega (arith, e, counted))
