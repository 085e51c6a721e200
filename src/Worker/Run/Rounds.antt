-- ===== src/Worker/Run/Rounds.antt =====
-- The start and the end of a round keep the invariant of the worker runtime.
use Prim.Native.String.{String}
use mathlib.Core.Path.{subst}
use agents_ensemble.Base.{
  ℕ, ◌+◌, ◌≡◌, refl, sym, ap, ◌∙◌, ◌&&◌, ◌||◌, not, Bool, true, false, Option, none, some, is_some,
  List, [], ◌∷◌, if_intro, if◌then◌else◌, arith,
}
use agents_ensemble.Base.StringMap.{lookup, lookup-insert_same}
use agents_ensemble.Worker.State.{
  WorkerPromptSource, conductor, is_busy, is_idle, ResidentWorker, round_task, close_task, Worker,
  WorkerRuntime, bit, put,
}
use agents_ensemble.Worker.Round.{
  is_harness, execute_round, finish_prompt_round, next_round, emptied, finish_round,
}
use agents_ensemble.Worker.Run.Sound.{
  IsTasked, IsFormed, attach_bits, IsSound, put-IsSound, log-IsSound, resolve_idle-IsSound,
  resolve_idle-workers, return_to-IsSound,
}

pub execute_round-IsSound :
    (name : String) (source : WorkerPromptSource) (prompt : String) (in_attach : Bool)
    (old w : Worker) (r : ResidentWorker) (extra rest : ℕ) (s : WorkerRuntime)
    → lookup name s.workers ≡ some old
    → w.tasks ≡ []
    → w.is_sleeping ≡ false
    → (not (is_harness source && r.lazy_init_in_flight) || in_attach) ≡ true
    → extra + attach_bits old.tasks ≡ rest + bit in_attach
    → IsSound extra s
    → IsSound rest (execute_round name source prompt in_attach w r s)
unfolding execute_round
execute_round-IsSound name source prompt in_attach old w r extra rest s found alone awake lazy bits
      h =
    let task = round_task source (is_harness source && r.lazy_init_in_flight) in_attach in
    let new : Worker = record w {
      resident = some (record r { state = is_busy; cancel_in_flight = false });
      is_processing = true;
      tasks = task ∷ w.tasks;
    } in
    log-IsSound _ rest (put name new s) (
      put-IsSound name old new extra rest s found
        (subst (λ ts. IsTasked (task ∷ ts) new) (sym alone) (refl, awake, refl, lazy))
        (rw alone (omega (arith, bits))) h)

-- What is left of a worker after a round, and what its state was before.
next_round-IsSound :
    (name : String) (in_attach : Bool) (old w : Worker) (r : ResidentWorker)
    (preempt : Option String) (queue : List String) (s : WorkerRuntime)
    → lookup name s.workers ≡ some old
    → old.tasks ≡ []
    → w.tasks ≡ []
    → w.is_sleeping ≡ false
    → w.is_processing ≡ false
    → IsSound (bit in_attach) s
    → IsSound 0 (next_round name in_attach w r preempt queue s)
unfolding next_round
next_round-IsSound name in_attach old w r (some preempt) queue s found none_old alone awake still
      h =
    execute_round-IsSound name conductor preempt in_attach old w
      (record r { preempt_instruction = none }) (bit in_attach) 0 s found alone awake refl
      (rw none_old (omega arith)) h
next_round-IsSound name in_attach old w r none (next ∷ queue) s found none_old alone awake still h =
    execute_round-IsSound name conductor next in_attach old w (record r { queue = queue })
      (bit in_attach) 0 s found alone awake refl (rw none_old (omega arith)) h
next_round-IsSound name in_attach old w r none [] s found none_old alone awake still h =
    let new : Worker = record w { resident = some (record r { state = is_idle }) } in
    return_to-IsSound in_attach _ (
      log-IsSound _ (bit in_attach) (put name new s) (
        put-IsSound name old new (bit in_attach) (bit in_attach) s found
          (subst (λ ts. IsTasked ts new) (sym alone) (still, ground arith))
          (rw none_old (rw alone refl)) h))

-- `old` is the worker in the runtime, `w` what its round leaves.
pub finish_round-IsSound :
    (name : String) (source : WorkerPromptSource) (in_attach lazy_init_failed : Bool)
    (old w : Worker) (r : ResidentWorker) (s : WorkerRuntime)
    → lookup name s.workers ≡ some old
    → attach_bits old.tasks ≡ bit in_attach
    → w.tasks ≡ []
    → w.is_sleeping ≡ false
    → (not lazy_init_failed || (is_some w.failed_entry && in_attach)) ≡ true
    → IsSound 0 s
    → IsSound 0 (finish_round name source in_attach lazy_init_failed w r s)
unfolding finish_round finish_prompt_round
finish_round-IsSound name source in_attach lazy_init_failed old w r s found bits alone awake lazy
      h =
    let settled : ResidentWorker =
      if is_harness source then record r { lazy_init_in_flight = false } else r in
    let left : Worker = record w { is_processing = false; resident = some settled } in
    let finished = finish_prompt_round name left s in
    let resting : IsFormed left = subst (λ ts. IsTasked ts left) (sym alone) (refl, ground arith) in
    let sound : IsSound (bit in_attach) finished =
      resolve_idle-IsSound (bit in_attach) (put name left s) (
        put-IsSound name old left 0 (bit in_attach) s found resting (rw alone (omega (arith, bits)))
          h) in
    let there : lookup name finished.workers ≡ some left =
      ap (λ m. lookup name m) (resolve_idle-workers (put name left s))
      ∙ lookup-insert_same name left s.workers in
    if_intro (IsSound 0) s.force_shutdown_requested
      (λ forced.
        let new : Worker = record left { resident = some (emptied settled) } in
        return_to-IsSound in_attach (put name new finished) (
          put-IsSound name left new (bit in_attach) (bit in_attach) finished there
            (subst (λ ts. IsTasked ts new) (sym alone) (refl, ground arith)) refl sound))
      (λ unforced.
        if_intro (IsSound 0) lazy_init_failed
          (λ e.
            let new : Worker = record left { tasks = close_task in_attach ∷ left.tasks } in
            put-IsSound name left new (bit in_attach) 0 finished there
              (subst (λ ts. IsTasked (close_task in_attach ∷ ts) new) (sym alone)
                (refl, awake, ground arith, ground arith))
              (rw alone (omega arith)) sound)
          (λ e.
            next_round-IsSound name in_attach left left settled settled.preempt_instruction
              settled.queue finished there alone alone awake refl sound))
