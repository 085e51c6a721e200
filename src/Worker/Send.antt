-- ===== src/Worker/Send.antt =====
-- `sendWorkerMessage` of worker-runtime.ts. `trim` is JavaScript's.
use Prim.Native.String.{String}
use text.Mathlib.Text.{◌==◌ as str_eq}
use agents_ensemble.Base.{
  ℕ, Bool, true, false, Option, none, some, [], ◌∷◌, ◌++◌, length, if◌then◌else◌,
}
use agents_ensemble.Base.StringMap.{lookup}
use agents_ensemble.Worker.State.{
  conductor, ResidentState, is_idle, is_busy, ResidentWorker, AttachingWorker, WorkerError, Worker,
  cancelled_prompt, WorkerRuntime, put, log,
}
use agents_ensemble.Worker.Round.{execute_round}
use agents_ensemble.Worker.Attach.{attach_and_init}

-- The messages of the errors.
pub data SendError : Type 0 where
  shut_down empty_instruction not_available not_registered : SendError
  worker_failed : WorkerError → SendError

pub data SendWorkerMessageResult : Type 0 where
  sent : SendWorkerMessageResult
  queued : ℕ → SendWorkerMessageResult
  preempted : SendWorkerMessageResult
  send_error : SendError → SendWorkerMessageResult

abbrev with_resident : ResidentWorker → Worker → Worker
with_resident r w = record w { resident = some r }

unfoldable pub preempt_resident :
    String → Worker → ResidentWorker → WorkerRuntime → WorkerRuntime × SendWorkerMessageResult
preempt_resident name w r s =
    if r.lazy_init_in_flight
    then (put name (with_resident r w) s, queued 1)
    else if r.cancel_in_flight
    then (put name (with_resident r w) s, preempted)
    else (
      log (cancelled_prompt name ∷ [])
          (put name (with_resident (record r { cancel_in_flight = true }) w) s),
      preempted,
    )

unfoldable pub send_to_resident :
    String
    → String
    → Bool
    → Worker
    → ResidentWorker
    → ResidentState
    → WorkerRuntime
    → WorkerRuntime × SendWorkerMessageResult
unfolding preempt_resident execute_round
send_to_resident name text preempt w r is_busy s =
    if preempt
    then preempt_resident name w (record r { queue = []; preempt_instruction = some text }) s
    else let r' = record r { queue = r.queue ++ text ∷ [] } in
      (put name (with_resident r' w) s, queued (length r'.queue))
send_to_resident name text preempt w r is_idle s =
    (execute_round name conductor text false w r s, sent)

unfoldable pub send_to_attaching :
    String
    → String
    → Bool
    → Worker
    → AttachingWorker
    → WorkerRuntime
    → WorkerRuntime × SendWorkerMessageResult
send_to_attaching name text preempt w entry s =
    if preempt
    then (
      put name
          (record w {
            attaching_entry = some (record { queue = []; preempt_instruction = some text });
          })
          s,
      queued 1,
    )
    else let entry' = record entry { queue = entry.queue ++ text ∷ [] } in
      (put name (record w { attaching_entry = some entry' }) s, queued (length entry'.queue))

unfoldable pub send_to_unattached :
    String
    → String
    → Bool
    → Worker
    → Option AttachingWorker
    → WorkerRuntime
    → WorkerRuntime × SendWorkerMessageResult
unfolding send_to_attaching
send_to_unattached name text preempt w none s = (s, send_error not_available)
send_to_unattached name text preempt w (some entry) s =
    send_to_attaching name text preempt w entry s

-- `this.residents.get(name)`
abbrev pub resident_entry : Bool → Option ResidentWorker → Option ResidentWorker
resident_entry true r = r
resident_entry false r = none

unfoldable pub send_to_available :
    String
    → String
    → Bool
    → Worker
    → Option ResidentWorker
    → WorkerRuntime
    → WorkerRuntime × SendWorkerMessageResult
unfolding send_to_resident send_to_unattached attach_and_init
send_to_available name text preempt w (some r) s = send_to_resident name text preempt w r r.state s
send_to_available name text preempt w none s =
    if w.is_sleeping
    then (attach_and_init name (some text) (record w { is_sleeping = false }) s, sent)
    else send_to_unattached name text preempt w w.attaching_entry s

unfoldable pub send_unless_failed :
    String
    → String
    → Bool
    → Worker
    → Option WorkerError
    → WorkerRuntime
    → WorkerRuntime × SendWorkerMessageResult
unfolding send_to_available
send_unless_failed name text preempt w (some error) s = (s, send_error (worker_failed error))
send_unless_failed name text preempt w none s =
    send_to_available name text preempt w (resident_entry w.is_resident w.resident) s

unfoldable pub send_to :
    String → String → Bool → Option Worker → WorkerRuntime → WorkerRuntime × SendWorkerMessageResult
unfolding send_unless_failed
send_to name text preempt none s = (s, send_error not_registered)
send_to name text preempt (some w) s = send_unless_failed name text preempt w w.failed_entry s

module _ (trim : String → String) where
  unfoldable pub send_worker_message :
      String → String → Bool → WorkerRuntime → WorkerRuntime × SendWorkerMessageResult
  unfolding send_to
  send_worker_message name instruction preempt s =
      let text = trim instruction in
      if s.force_shutdown_requested
      then (s, send_error shut_down)
      else if str_eq text ""
      then (s, send_error empty_instruction)
      else send_to name text preempt (lookup name s.workers) s
