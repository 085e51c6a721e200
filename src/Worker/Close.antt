-- ===== src/Worker/Close.antt =====
-- `cancelAllActivePrompts` and `shutdown` of worker-runtime.ts. Effects of one call go by the order of
-- the workers.
use Prim.Native.String.{String}
use agents_ensemble.Base.{
  Bool, true, false, not, ◌&&◌, Option, none, some, List, [], ◌∷◌, ◌++◌, if◌then◌else◌,
}
use agents_ensemble.Worker.State.{
  ResidentState, is_idle, is_busy, ResidentWorker, Worker, Effect, cancelled_prompt, closed_session,
  WorkerRuntime, resolve_idle_waiters,
}
use agents_ensemble.Worker.Round.{emptied}

abbrev pub is_busy_state : ResidentState → Bool
is_busy_state is_busy = true
is_busy_state is_idle = false

-- The test of the loop of `cancelAllActivePrompts`.
abbrev pub is_to_cancel : Bool → Option ResidentWorker → Bool
is_to_cancel true (some r) = is_busy_state r.state && not r.cancel_in_flight
is_to_cancel _ _ = false

abbrev pub cancelled_resident : Option ResidentWorker → Option ResidentWorker
cancelled_resident none = none
cancelled_resident (some r) = some (record r { cancel_in_flight = true })

unfoldable pub cancel_worker : Worker → Worker
cancel_worker w =
    if is_to_cancel w.is_resident w.resident
    then record w { resident = cancelled_resident w.resident }
    else w

unfoldable pub map_workers : (Worker → Worker) → List (String × Worker) → List (String × Worker)
map_workers f [] = []
map_workers f ((name, w) ∷ m) = (name, f w) ∷ map_workers f m

-- The names of the workers with a property, the last one first.
unfoldable pub names_of : (Worker → Bool) → List (String × Worker) → List String
names_of p [] = []
names_of p ((name, w) ∷ m) = let rest = names_of p m in if p w then rest ++ name ∷ [] else rest

unfoldable pub each_effect : (String → Effect) → List String → List Effect
each_effect f [] = []
each_effect f (name ∷ names) = f name ∷ each_effect f names

unfoldable pub cancel_all_active_prompts : WorkerRuntime → WorkerRuntime
unfolding cancel_worker map_workers names_of each_effect
cancel_all_active_prompts s = record s {
  workers = map_workers cancel_worker s.workers;
  effects =
      each_effect cancelled_prompt (names_of (λ w. is_to_cancel w.is_resident w.resident) s.workers)
      ++ s.effects;
}

abbrev pub emptied_option : Option ResidentWorker → Option ResidentWorker
emptied_option none = none
emptied_option (some r) = some (emptied r)

abbrev pub emptied_entry : Bool → Option ResidentWorker → Option ResidentWorker
emptied_entry true r = emptied_option r
emptied_entry false r = r

-- `sleeping.clear()`, `attaching.clear()` and the loop over the residents.
unfoldable pub clear_worker : Worker → Worker
clear_worker w = record w {
  is_sleeping = false;
  attaching_entry = none;
  resident = emptied_entry w.is_resident w.resident;
}

unfoldable pub close_all : WorkerRuntime → WorkerRuntime
unfolding names_of each_effect
close_all s = record s {
  effects = each_effect closed_session (names_of (λ w. w.is_resident) s.workers) ++ s.effects;
}

-- A forced shutdown up to the `await` of the sessions' ends.
unfoldable pub force_shutdown : WorkerRuntime → WorkerRuntime
unfolding cancel_all_active_prompts clear_worker map_workers close_all
force_shutdown s = close_all (
    cancel_all_active_prompts
      (record s { force_shutdown_requested = true; workers = map_workers clear_worker s.workers }))

abbrev pub leave : Worker → Worker
leave w = record w { is_resident = false }

unfoldable pub clear_residents : WorkerRuntime → WorkerRuntime
unfolding map_workers
clear_residents s = record s { workers = map_workers leave s.workers }

-- The rest of a forced shutdown.
unfoldable pub end_force_shutdown : WorkerRuntime → WorkerRuntime
unfolding clear_residents resolve_idle_waiters
end_force_shutdown s = resolve_idle_waiters (clear_residents s)

-- The rest of another shutdown, after `waitForIdle`: the sessions are closed and the map is cleared.
unfoldable pub end_shutdown : WorkerRuntime → WorkerRuntime
unfolding clear_residents close_all
end_shutdown s = clear_residents (close_all s)
