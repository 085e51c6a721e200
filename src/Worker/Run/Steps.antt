-- ===== src/Worker/Run/Steps.antt =====
-- What a worker awaited has ended: the steps that follow keep the invariant of the runtime.
use Prim.Native.String.{String}
use mathlib.Core.Path.{subst}
use agents_ensemble.Base.{
  ◌≡◌, refl, sym, ◌&&◌, ◌||◌, not, Bool, true, false, Option, none, some, is_some, [], ◌∷◌,
  if_intro, if◌then◌else◌, arith,
}
use agents_ensemble.Base.StringMap.{lookup}
use agents_ensemble.Worker.State.{
  WorkerPromptSource, harness, is_idle, ResidentWorker, WorkerError, attach_error, late_close_task,
  Worker, WorkerRuntime, bit, put,
}
use agents_ensemble.Worker.Round.{
  finish_round, fail_lazy_init, PromptOutcome, answered, threw, settle_round, settle_close,
}
use agents_ensemble.Worker.Attach.{
  AttachOutcome, attached, attach_threw, emptied_entry, waiting_of, settle_attach,
  settle_late_close,
}
use agents_ensemble.Worker.Run.Sound.{
  IsTasked, attach_bits, IsSound, put-IsSound, log-IsSound, return_to-IsSound,
}
use agents_ensemble.Worker.Run.Rounds.{execute_round-IsSound, finish_round-IsSound}

fail_lazy_init-IsSound :
    (name : String) (source : WorkerPromptSource) (in_attach : Bool) (error : WorkerError)
    (old w : Worker) (r : ResidentWorker) (s : WorkerRuntime)
    → lookup name s.workers ≡ some old
    → attach_bits old.tasks ≡ bit in_attach
    → w.tasks ≡ []
    → w.is_sleeping ≡ false
    → in_attach ≡ true
    → IsSound 0 s
    → IsSound 0 (fail_lazy_init name source in_attach error w r s)
unfolding fail_lazy_init
fail_lazy_init-IsSound name source in_attach error old w r s found bits alone awake inside h =
    finish_round-IsSound name source in_attach true old
      (record w { failed_entry = some error; is_resident = false }) _ _ found bits alone awake
      inside (log-IsSound _ 0 s h)

pub settle_round-IsSound :
    (name : String) (source : WorkerPromptSource) (is_lazy_init in_attach : Bool)
    (outcome : PromptOutcome) (old w : Worker) (r : ResidentWorker) (s : WorkerRuntime)
    → lookup name s.workers ≡ some old
    → attach_bits old.tasks ≡ bit in_attach
    → w.tasks ≡ []
    → w.is_sleeping ≡ false
    → (not is_lazy_init || in_attach) ≡ true
    → IsSound 0 s
    → IsSound 0 (settle_round name source is_lazy_init in_attach outcome w r s)
unfolding settle_round
settle_round-IsSound name source is_lazy_init in_attach (answered is_cancelled) old w r s found bits
      alone awake inside h =
    let finish : (t : WorkerRuntime)
        → lookup name t.workers ≡ some old
        → IsSound 0 t
        → IsSound 0 (finish_round name source in_attach false w r t) =
      λ t there sound.
        finish_round-IsSound name source in_attach false old w r t there bits alone awake refl
          sound in
    if_intro (IsSound 0) s.force_shutdown_requested (λ forced. finish s found h)
      (λ unforced.
        if_intro (IsSound 0) (is_lazy_init && is_cancelled)
          (λ e.
            fail_lazy_init-IsSound name source in_attach _ old w r s found bits alone awake
              (ground arith) h)
          (λ e.
            if_intro (λ t. IsSound 0 (finish_round name source in_attach false w r t))
              (is_cancelled && is_some r.preempt_instruction) (λ skipped. finish s found h)
              (λ told. finish _ found (log-IsSound _ 0 s h))))
settle_round-IsSound name source is_lazy_init in_attach (threw error) old w r s found bits alone
      awake inside h =
    let finish : (t : WorkerRuntime)
        → lookup name t.workers ≡ some old
        → IsSound 0 t
        → IsSound 0 (finish_round name source in_attach false w r t) =
      λ t there sound.
        finish_round-IsSound name source in_attach false old w r t there bits alone awake refl
          sound in
    if_intro (IsSound 0) (is_lazy_init && not s.force_shutdown_requested)
      (λ e.
        fail_lazy_init-IsSound name source in_attach _ old w r s found bits alone awake
          (ground arith) h)
      (λ e.
        if_intro (λ t. IsSound 0 (finish_round name source in_attach false w r t))
          (not s.force_shutdown_requested && not (is_some r.preempt_instruction))
          (λ told. finish _ found (log-IsSound _ 0 s h)) (λ skipped. finish s found h))

pub settle_close-IsSound :
    (name : String) (in_attach is_closed : Bool) (old w : Worker) (s : WorkerRuntime)
    → lookup name s.workers ≡ some old
    → attach_bits old.tasks ≡ bit in_attach
    → w.tasks ≡ []
    → w.is_sleeping ≡ false
    → w.is_processing ≡ false
    → IsSound 0 s
    → IsSound 0 (settle_close name in_attach is_closed w s)
unfolding settle_close
settle_close-IsSound name in_attach is_closed old w s found bits alone awake still h =
    let kept : Worker = record w { is_resident = true } in
    return_to-IsSound in_attach (put name (if is_closed then w else kept) s) (
      if_intro (λ new. IsSound (bit in_attach) (put name new s)) is_closed
        (λ e.
          put-IsSound name old w 0 (bit in_attach) s found
            (subst (λ ts. IsTasked ts w) (sym alone) (still, ground arith))
            (rw alone (omega (arith, bits))) h)
        (λ e.
          put-IsSound name old kept 0 (bit in_attach) s found
            (subst (λ ts. IsTasked ts kept) (sym alone) (still, awake))
            (rw alone (omega (arith, bits))) h))

pub settle_attach-IsSound :
    (name : String) (first : Option String) (outcome : AttachOutcome) (old w : Worker)
    (s : WorkerRuntime)
    → lookup name s.workers ≡ some old
    → attach_bits old.tasks ≡ 1
    → w.tasks ≡ []
    → w.is_sleeping ≡ false
    → w.is_resident ≡ false
    → w.is_processing ≡ false
    → IsSound 0 s
    → IsSound 0 (settle_attach name first outcome w s)
unfolding settle_attach
settle_attach-IsSound name first (attached prompt) old w s found bits alone awake gone still h =
    if_intro (IsSound 0) s.force_shutdown_requested
      (λ forced.
        let new : Worker = record w {
          attaching_entry = emptied_entry w.attaching_entry;
          tasks = late_close_task ∷ w.tasks;
        } in
        (log-IsSound _ 0 (put name new s) (
          put-IsSound name old new 0 0 s found
            (subst (λ ts. IsTasked (late_close_task ∷ ts) new) (sym alone) (still, awake, gone))
            (rw alone (omega (arith, bits))) h)))
      (λ unforced.
        let entry = waiting_of w.attaching_entry in
        let r : ResidentWorker = record {
          state = is_idle;
          queue = entry.queue;
          lazy_init_in_flight = is_some first;
          preempt_instruction = entry.preempt_instruction;
          cancel_in_flight = false;
        } in
        execute_round-IsSound name harness prompt true old
          (record w { attaching_entry = none; is_resident = true }) r 0 0 s found alone awake
          (ground arith) (omega (arith, bits)) h)
settle_attach-IsSound name first (attach_threw error) old w s found bits alone awake gone still h =
    let left : Worker = record w { attaching_entry = none; is_resident = false } in
    let new : Worker = record left { failed_entry = some (attach_error error) } in
    if_intro (IsSound 0) s.force_shutdown_requested
      (λ forced. return_to-IsSound true (put name left s) (
        put-IsSound name old left 0 1 s found
          (subst (λ ts. IsTasked ts left) (sym alone) (still, refl))
          (rw alone (omega (arith, bits))) h))
      (λ unforced. return_to-IsSound true _ (
        log-IsSound _ 1 (put name new s) (
          put-IsSound name old new 0 1 s found
            (subst (λ ts. IsTasked ts new) (sym alone) (still, refl))
            (rw alone (omega (arith, bits))) h)))

pub settle_late_close-IsSound :
    (name : String) (is_closed : Bool) (old w : Worker) (s : WorkerRuntime)
    → lookup name s.workers ≡ some old
    → attach_bits old.tasks ≡ 1
    → w.tasks ≡ []
    → w.is_processing ≡ false
    → w.is_resident ≡ false
    → IsSound 0 s
    → IsSound 0 (settle_late_close name is_closed w s)
unfolding settle_late_close
settle_late_close-IsSound name true old w s found bits alone still gone h =
    return_to-IsSound true (put name w s) (
      put-IsSound name old w 0 1 s found
        (subst (λ ts. IsTasked ts w) (sym alone) (still, ground arith))
        (rw alone (omega (arith, bits))) h)
settle_late_close-IsSound name false old w s found bits alone still gone h =
    let left : Worker = record w { attaching_entry = none; is_resident = false } in
    return_to-IsSound true (put name left s) (
      put-IsSound name old left 0 1 s found
        (subst (λ ts. IsTasked ts left) (sym alone) (still, refl)) (rw alone (omega (arith, bits)))
        h)
