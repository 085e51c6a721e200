-- ===== src/Worker/Run/Kept.antt =====
-- Changes of the workers that leave what they await.
use Prim.Native.String.{String}
use mathlib.Core.Path.{subst}
use agents_ensemble.Base.{
  suc, ◌+◌, ◌≡◌, refl, sym, ap, ◌∙◌, ◌&&◌, Bool, true, false, Option, none, some, is_some, List, [],
  ◌∷◌, arith,
}
use agents_ensemble.Base.StringMap.{lookup}
use agents_ensemble.Worker.State.{
  is_busy, is_idle, ResidentWorker, Task, attaching_task, late_close_task, round_task, close_task,
  Worker, WorkerRuntime, put,
}
use agents_ensemble.Worker.Attach.{attach_and_init, to_list}
use agents_ensemble.Worker.Run.Sound.{
  IsTasked, IsFormed, IsBusy, attach_bits, IsSound, put-IsSound, log-IsSound,
}

-- A worker that is not sleeping begins to attach.
pub attach_and_init-IsSound :
    (name : String) (first : Option String) (old w : Worker) (s : WorkerRuntime)
    → lookup name s.workers ≡ some old
    → old.tasks ≡ []
    → w.tasks ≡ []
    → w.is_sleeping ≡ false
    → w.is_resident ≡ false
    → w.is_processing ≡ false
    → IsSound 0 s
    → IsSound 0 (attach_and_init name first w s)
unfolding attach_and_init
attach_and_init-IsSound name first old w s found none_old alone awake gone still h =
    let new : Worker = record w {
      attaching_entry = some (record { queue = to_list first; preempt_instruction = none });
      tasks = attaching_task first ∷ w.tasks;
    } in
    let counted = h.counted in
    let more : IsSound 1 (record s { attach_in_flight = suc s.attach_in_flight }) = record {
      formed = h.formed;
      counted = omega (arith, counted);
    } in
    log-IsSound _ 0 _ (
      put-IsSound name old new 1 0 (record s { attach_in_flight = suc s.attach_in_flight }) found
        (subst (λ ts. IsTasked (attaching_task first ∷ ts) new) (sym alone) (still, awake, gone))
        (rw (none_old, alone) refl) more)

and_false :
    (a b c d : Bool)
    → (a ≡ false → c ≡ false)
    → (b ≡ false → d ≡ false)
    → (a && b) ≡ false
    → (c && d) ≡ false
and_false false b c d f g h = ap (λ x. x && d) (f refl)
and_false true b c d f g h = ap (λ x. c && x) (g h) ∙ ground arith

-- A change of a worker that makes it neither resident nor sleeping, and leaves a busy resident busy.
pub kept-IsTasked :
    (tasks : List Task) (w v : Worker)
    → v.is_processing ≡ w.is_processing
    → (w.is_sleeping ≡ false → v.is_sleeping ≡ false)
    → (w.is_resident ≡ false → v.is_resident ≡ false)
    → (IsBusy w.resident → IsBusy v.resident)
    → v.failed_entry ≡ w.failed_entry
    → IsTasked tasks w
    → IsTasked tasks v
kept-IsTasked [] w v p a g b f (h, k) =
    (p ∙ h, and_false w.is_resident w.is_sleeping v.is_resident v.is_sleeping g a k)
kept-IsTasked (attaching_task x ∷ []) w v p a g b f (h, k, l) = (p ∙ h, a k, g l)
kept-IsTasked (late_close_task ∷ []) w v p a g b f (h, k, l) = (p ∙ h, a k, g l)
kept-IsTasked (close_task x ∷ []) w v p a g b f (h, k, l, m) = (p ∙ h, a k, ap is_some f ∙ l, m)
kept-IsTasked (round_task x y z ∷ []) w v p a g b f (h, k, l, m) = (p ∙ h, a k, b l, m)
kept-IsTasked (attaching_task x ∷ _ ∷ _) w v p a g b f h = h
kept-IsTasked (late_close_task ∷ _ ∷ _) w v p a g b f h = h
kept-IsTasked (close_task x ∷ _ ∷ _) w v p a g b f h = h
kept-IsTasked (round_task x y z ∷ _ ∷ _) w v p a g b f h = h

-- A resident that is idle awaits nothing, unless it has failed.
pub idle_resident :
    (tasks : List Task) (w : Worker) (r : ResidentWorker)
    → w.resident ≡ some r
    → w.is_resident ≡ true
    → r.state ≡ is_idle
    → w.failed_entry ≡ none
    → IsTasked tasks w
    → (tasks ≡ []) × (w.is_sleeping ≡ false)
idle_resident [] w r e here idle no_fail (p, q) = (refl, ground arith)
idle_resident (attaching_task x ∷ []) w r e here idle no_fail (p, a, g) = ground arith
idle_resident (late_close_task ∷ []) w r e here idle no_fail (p, a, g) = ground arith
idle_resident (close_task x ∷ []) w r e here idle no_fail (p, a, b, l) = ground arith
idle_resident (round_task x y z ∷ []) w r e here idle no_fail (p, a, b, l) =
    absurd (busy_is_not_idle (sym (subst IsBusy e b) ∙ idle))
  where
    busy_is_not_idle : ¬ (is_busy ≡ is_idle)
    busy_is_not_idle = ground arith
idle_resident (attaching_task x ∷ _ ∷ _) w r e here idle no_fail h = absurd h
idle_resident (late_close_task ∷ _ ∷ _) w r e here idle no_fail h = absurd h
idle_resident (close_task x ∷ _ ∷ _) w r e here idle no_fail h = absurd h
idle_resident (round_task x y z ∷ _ ∷ _) w r e here idle no_fail h = absurd h

-- A sleeping worker awaits nothing.
pub sleeping_worker :
    (tasks : List Task) (w : Worker)
    → w.is_sleeping ≡ true
    → IsTasked tasks w
    → (tasks ≡ []) × (w.is_resident ≡ false) × (w.is_processing ≡ false)
sleeping_worker [] w e (p, q) = (refl, ground arith, p)
sleeping_worker (attaching_task x ∷ []) w e (p, a, g) = ground arith
sleeping_worker (late_close_task ∷ []) w e (p, a, g) = ground arith
sleeping_worker (close_task x ∷ []) w e (p, a, b, l) = ground arith
sleeping_worker (round_task x y z ∷ []) w e (p, a, b, l) = ground arith
sleeping_worker (attaching_task x ∷ _ ∷ _) w e h = absurd h
sleeping_worker (late_close_task ∷ _ ∷ _) w e h = absurd h
sleeping_worker (close_task x ∷ _ ∷ _) w e h = absurd h
sleeping_worker (round_task x y z ∷ _ ∷ _) w e h = absurd h

-- A change of one worker that awaits the same tasks.
pub change-IsSound :
    (name : String) (old new : Worker) (s : WorkerRuntime)
    → lookup name s.workers ≡ some old
    → new.tasks ≡ old.tasks
    → IsFormed new
    → IsSound 0 s
    → IsSound 0 (put name new s)
change-IsSound name old new s found same formed h =
    put-IsSound name old new 0 0 s found formed (ap (λ ts. 0 + attach_bits ts) (sym same)) h
