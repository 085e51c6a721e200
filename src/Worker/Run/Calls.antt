-- ===== src/Worker/Run/Calls.antt =====
-- The other calls from outside keep the invariant of the runtime.
use Prim.Native.String.{String}
use mathlib.Core.Path.{subst, ap₂}
use agents_ensemble.Base.{
  ℕ, suc, ◌+◌, ◌≡◌, refl, sym, ap, ◌∙◌, Bool, true, false, Option, none, some, is_some, List, [],
  ◌∷◌, All, if_intro, arith,
}
use agents_ensemble.Base.StringMap.{lookup}
use agents_ensemble.Worker.State.{
  WorkerStartedInfo, ResidentWorker, Worker, WorkerRuntime, put, is_ready, wait_for_idle,
  resolve_idle_waiters,
}
use agents_ensemble.Worker.Attach.{start, attach_and_init, new_worker}
use agents_ensemble.Worker.Close.{
  cancel_worker, map_workers, cancel_all_active_prompts, clear_worker, force_shutdown,
  clear_residents, end_force_shutdown, end_shutdown, is_to_cancel, cancelled_resident,
  emptied_entry, leave, close_all,
}
use agents_ensemble.Worker.Run.Sound.{
  IsFormed, IsBusy, attach_bits, attach_total, IsSound, log-IsSound, All-insert,
  attach_total-insert_new,
}
use agents_ensemble.Worker.Run.Kept.{kept-IsTasked}

-- A worker with a new name.
put_new-IsSound :
    (name : String) (new : Worker) (extra : ℕ) (s : WorkerRuntime)
    → lookup name s.workers ≡ none
    → IsFormed new
    → extra ≡ attach_bits new.tasks
    → IsSound extra s
    → IsSound 0 (put name new s)
put_new-IsSound name new extra s e f c sound =
    let total = attach_total-insert_new name new s.workers e in
    let counted = sound.counted in
    record {
      formed = All-insert IsFormed name new s.workers f sound.formed;
      counted = omega (arith, total, counted, c);
    }

is_none : {A : Type 0} (o : Option A) → is_some o ≡ false → o ≡ none
is_none none e = refl
is_none (some a) e = ground arith

pub start-IsSound :
    (started : WorkerStartedInfo) (lazy : Bool) (s t : WorkerRuntime)
    → start started lazy s ≡ some t
    → IsSound 0 s
    → IsSound 0 t
unfolding start attach_and_init
start-IsSound started lazy s t e h = some_case (
    if_intro Sound (is_some (lookup started.name s.workers)) (λ known. tt)
      (λ new.
        let unknown = is_none (lookup started.name s.workers) new in
        let counted = h.counted in
        if_intro Sound lazy
          (λ l. log-IsSound _ 0 (put started.name (new_worker started true) s) (
            put_new-IsSound started.name (new_worker started true) 0 s unknown (refl, refl) refl h))
          (λ l. log-IsSound _ 0 _ (
            put_new-IsSound started.name _ 1
              (record s { attach_in_flight = suc s.attach_in_flight }) unknown (refl, refl, refl)
              refl (record { formed = h.formed; counted = omega (arith, counted) })))))
  where
    Sound : Option WorkerRuntime → Type 0
    Sound none = Unit
    Sound (some u) = IsSound 0 u

    some_case : Sound (start started lazy s) → IsSound 0 t
    some_case k = subst Sound e k

attach_total-map :
    (f : Worker → Worker) (m : List (String × Worker))
    → ((w : Worker) → (f w).tasks ≡ w.tasks)
    → attach_total (map_workers f m) ≡ attach_total m
unfolding map_workers
attach_total-map f [] h = refl
attach_total-map f ((name, w) ∷ m) h =
    ap₂ (λ ts n. attach_bits ts + n) (h w) (attach_total-map f m h)

All-map_workers :
    (f : Worker → Worker) (m : List (String × Worker))
    → ((w : Worker) → IsFormed w → IsFormed (f w))
    → All (λ e. IsFormed e.1) m
    → All (λ e. IsFormed e.1) (map_workers f m)
unfolding map_workers
All-map_workers f [] h k = tt
All-map_workers f ((name, w) ∷ m) h (k, ks) = (h w k, All-map_workers f m h ks)

map_workers-IsSound :
    (f : Worker → Worker) (s : WorkerRuntime)
    → ((w : Worker) → (f w).tasks ≡ w.tasks)
    → ((w : Worker) → IsFormed w → IsFormed (f w))
    → IsSound 0 s
    → IsSound 0 (record s { workers = map_workers f s.workers })
map_workers-IsSound f s same kept h = record {
  formed = All-map_workers f s.workers kept h.formed;
  counted = h.counted ∙ ap (λ n. n + 0) (sym (attach_total-map f s.workers same));
}

cancelled-IsBusy : (r : Option ResidentWorker) → IsBusy r → IsBusy (cancelled_resident r)
cancelled-IsBusy none h = h
cancelled-IsBusy (some r) h = h

emptied-IsBusy : (b : Bool) (r : Option ResidentWorker) → IsBusy r → IsBusy (emptied_entry b r)
emptied-IsBusy true none h = h
emptied-IsBusy true (some r) h = h
emptied-IsBusy false r h = h

pub cancel_all-IsSound : (s : WorkerRuntime) → IsSound 0 s → IsSound 0 (cancel_all_active_prompts s)
unfolding cancel_all_active_prompts cancel_worker
cancel_all-IsSound s h = log-IsSound _ 0 _ (
    map_workers-IsSound cancel_worker s
      (λ w.
        if_intro (λ (v : Worker). v.tasks ≡ w.tasks) (is_to_cancel w.is_resident w.resident)
          (λ e. refl) (λ e. refl))
      (λ w formed.
        if_intro IsFormed (is_to_cancel w.is_resident w.resident)
          (λ e.
            kept-IsTasked w.tasks w (record w { resident = cancelled_resident w.resident }) refl
              (λ x. x) (λ x. x) (cancelled-IsBusy w.resident) refl formed)
          (λ e. formed))
      h)

pub force_shutdown-IsSound : (s : WorkerRuntime) → IsSound 0 s → IsSound 0 (force_shutdown s)
unfolding force_shutdown close_all clear_worker
force_shutdown-IsSound s h =
    let cleared =
      map_workers-IsSound clear_worker s (λ w. refl)
        (λ w formed.
          kept-IsTasked w.tasks w (clear_worker w) refl (λ x. refl) (λ x. x)
            (emptied-IsBusy w.is_resident w.resident) refl formed)
        h in
    log-IsSound _ 0 _ (
      cancel_all-IsSound
        (record s { force_shutdown_requested = true; workers = map_workers clear_worker s.workers })
        (record { formed = cleared.formed; counted = cleared.counted }))

clear_residents-IsSound : (s : WorkerRuntime) → IsSound 0 s → IsSound 0 (clear_residents s)
unfolding clear_residents
clear_residents-IsSound s h =
    map_workers-IsSound leave s (λ w. refl)
      (λ w formed. kept-IsTasked w.tasks w (leave w) refl (λ x. x) (λ x. refl) (λ x. x) refl formed)
      h

pub end_force_shutdown-IsSound :
    (s : WorkerRuntime) → IsSound 0 s → IsSound 0 (end_force_shutdown s)
unfolding end_force_shutdown resolve_idle_waiters
end_force_shutdown-IsSound s h =
    let left = clear_residents-IsSound s h in
    record { formed = left.formed; counted = left.counted }

pub end_shutdown-IsSound : (s : WorkerRuntime) → IsSound 0 s → IsSound 0 (end_shutdown s)
unfolding end_shutdown close_all
end_shutdown-IsSound s h = clear_residents-IsSound (close_all s) (log-IsSound _ 0 s h)

pub wait_for_idle-IsSound :
    (waiter : ℕ) (s : WorkerRuntime) → IsSound 0 s → IsSound 0 (wait_for_idle waiter s).0
unfolding wait_for_idle
wait_for_idle-IsSound waiter s h =
    if_intro (λ (t : WorkerRuntime × Bool). IsSound 0 t.0) (is_ready s) (λ e. h)
      (λ e. record { formed = h.formed; counted = h.counted })
