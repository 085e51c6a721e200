-- ===== src/Worker/Run/Sends.antt =====
-- `sendWorkerMessage` keeps the invariant of the runtime.
use Prim.Native.String.{String}
use text.Mathlib.Text.{◌==◌ as str_eq}
use mathlib.Core.Path.{subst}
use agents_ensemble.Base.{◌≡◌, refl, ◌∙◌, Bool, true, false, Option, none, some, if_intro, arith}
use agents_ensemble.Base.StringMap.{lookup}
use agents_ensemble.Worker.State.{
  conductor, ResidentState, is_busy, is_idle, ResidentWorker, AttachingWorker, WorkerError, Worker,
  WorkerRuntime, put,
}
use agents_ensemble.Worker.Send.{
  SendWorkerMessageResult, preempt_resident, send_to_resident, send_to_attaching,
  send_to_unattached, resident_entry, send_to_available, send_unless_failed, send_to,
  send_worker_message,
}
use agents_ensemble.Worker.Run.Sound.{IsFormed, IsBusy, IsSound, log-IsSound, All-at}
use agents_ensemble.Worker.Run.Rounds.{execute_round-IsSound}
use agents_ensemble.Worker.Run.Kept.{
  attach_and_init-IsSound, kept-IsTasked, idle_resident, sleeping_worker, change-IsSound,
}

resident_entry-some :
    (is_resident : Bool) (resident : Option ResidentWorker) (r : ResidentWorker)
    → resident_entry is_resident resident ≡ some r
    → (is_resident ≡ true) × (resident ≡ some r)
resident_entry-some true resident r e = (refl, e)
resident_entry-some false resident r e = ground arith

abbrev SoundSent : WorkerRuntime × SendWorkerMessageResult → Type 0
SoundSent t = IsSound 0 t.0

send_to_resident-IsSound :
    (name text : String) (preempt : Bool) (w : Worker) (r : ResidentWorker) (state : ResidentState)
    (s : WorkerRuntime)
    → lookup name s.workers ≡ some w
    → w.resident ≡ some r
    → w.is_resident ≡ true
    → w.failed_entry ≡ none
    → r.state ≡ state
    → IsFormed w
    → IsSound 0 s
    → IsSound 0 (send_to_resident name text preempt w r state s).0
unfolding send_to_resident preempt_resident
send_to_resident-IsSound name text preempt w r is_busy s found e here no_fail f formed h =
    let change : (q : ResidentWorker)
        → q.state ≡ r.state
        → IsSound 0 (put name (record w { resident = some q }) s) =
      λ q g.
        change-IsSound name w (record w { resident = some q }) s found refl
          (kept-IsTasked w.tasks w (record w { resident = some q }) refl (λ x. x) (λ x. x)
            (λ b. g ∙ subst IsBusy e b) refl formed)
          h in
    if_intro SoundSent preempt
      (λ p.
        if_intro SoundSent r.lazy_init_in_flight (λ l. change _ refl)
          (λ l.
            if_intro SoundSent r.cancel_in_flight (λ c. change _ refl)
              (λ c. log-IsSound _ 0 _ (change _ refl))))
      (λ p. change _ refl)
send_to_resident-IsSound name text preempt w r is_idle s found e here no_fail f formed h =
    let none_else = idle_resident w.tasks w r e here f no_fail formed in
    execute_round-IsSound name conductor text false w w r 0 0 s found none_else.0 none_else.1 refl
      (rw (none_else.0) refl) h

send_to_unattached-IsSound :
    (name text : String) (preempt : Bool) (w : Worker) (entry : Option AttachingWorker)
    (s : WorkerRuntime)
    → lookup name s.workers ≡ some w
    → IsFormed w
    → IsSound 0 s
    → IsSound 0 (send_to_unattached name text preempt w entry s).0
unfolding send_to_unattached send_to_attaching
send_to_unattached-IsSound name text preempt w none s found formed h = h
send_to_unattached-IsSound name text preempt w (some entry) s found formed h =
    let change : (e : Option AttachingWorker)
        → IsSound 0 (put name (record w { attaching_entry = e }) s) =
      λ e.
        change-IsSound name w (record w { attaching_entry = e }) s found refl
          (kept-IsTasked w.tasks w (record w { attaching_entry = e }) refl (λ x. x) (λ x. x)
            (λ x. x) refl formed)
          h in
    if_intro SoundSent preempt (λ p. change _) (λ p. change _)

send_to_available-IsSound :
    (name text : String) (preempt : Bool) (w : Worker) (entry : Option ResidentWorker)
    (s : WorkerRuntime)
    → resident_entry w.is_resident w.resident ≡ entry
    → lookup name s.workers ≡ some w
    → w.failed_entry ≡ none
    → IsFormed w
    → IsSound 0 s
    → IsSound 0 (send_to_available name text preempt w entry s).0
unfolding send_to_available
send_to_available-IsSound name text preempt w (some r) s e found no_fail formed h =
    let here = resident_entry-some w.is_resident w.resident r e in
    send_to_resident-IsSound name text preempt w r r.state s found here.1 here.0 no_fail refl formed
      h
send_to_available-IsSound name text preempt w none s e found no_fail formed h =
    if_intro SoundSent w.is_sleeping
      (λ asleep.
        let none_else = sleeping_worker w.tasks w asleep formed in
        attach_and_init-IsSound name (some text) w (record w { is_sleeping = false }) s found
          none_else.0 none_else.0 refl none_else.1 none_else.2 h)
      (λ awake. send_to_unattached-IsSound name text preempt w w.attaching_entry s found formed h)

send_unless_failed-IsSound :
    (name text : String) (preempt : Bool) (w : Worker) (failed : Option WorkerError)
    (s : WorkerRuntime)
    → w.failed_entry ≡ failed
    → lookup name s.workers ≡ some w
    → IsSound 0 s
    → IsSound 0 (send_unless_failed name text preempt w failed s).0
unfolding send_unless_failed
send_unless_failed-IsSound name text preempt w (some error) s f e h = h
send_unless_failed-IsSound name text preempt w none s f e h =
    send_to_available-IsSound name text preempt w _ s refl e f
      (All-at IsFormed name w s.workers h.formed e) h

send_to-IsSound :
    (name text : String) (preempt : Bool) (found : Option Worker) (s : WorkerRuntime)
    → lookup name s.workers ≡ found
    → IsSound 0 s
    → IsSound 0 (send_to name text preempt found s).0
unfolding send_to
send_to-IsSound name text preempt none s e h = h
send_to-IsSound name text preempt (some w) s e h =
    send_unless_failed-IsSound name text preempt w w.failed_entry s refl e h

pub send_worker_message-IsSound :
    (trim : String → String) (name instruction : String) (preempt : Bool) (s : WorkerRuntime)
    → IsSound 0 s
    → IsSound 0 (send_worker_message trim name instruction preempt s).0
unfolding send_worker_message
send_worker_message-IsSound trim name instruction preempt s h =
    if_intro SoundSent s.force_shutdown_requested (λ forced. h)
      (λ unforced.
        if_intro SoundSent (str_eq (trim instruction) "") (λ e. h)
          (λ e. send_to-IsSound name (trim instruction) preempt (lookup name s.workers) s refl h))
