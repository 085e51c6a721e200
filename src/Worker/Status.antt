-- ===== src/Worker/Status.antt =====
-- `summarizeWorkerStatus` of worker-runtime.ts, as far as it is no text; the error on an unknown worker
-- is `none`.
use Prim.Native.String.{String}
use agents_ensemble.Base.{ℕ, Option, none, some, length, if◌then◌else◌}
use agents_ensemble.Base.StringMap.{lookup}
use agents_ensemble.Worker.State.{
  ResidentState, is_idle, is_busy, ResidentWorker, AttachingWorker, WorkerError, WorkerHarnessState,
  attaching, sleeping, processing, idle, failed, Worker, WorkerRuntime,
}
use agents_ensemble.Worker.Send.{resident_entry}

pub record WorkerStatusSummary : Type 0 where
  pub name : String
  pub kind : String
  pub state : WorkerHarnessState
  pub queue_depth : ℕ
  pub error : Option WorkerError

abbrev pub state_of_resident : ResidentState → WorkerHarnessState
state_of_resident is_busy = processing
state_of_resident is_idle = idle

-- Neither failed nor attaching.
summary_of_resident : Worker → Option ResidentWorker → WorkerStatusSummary
summary_of_resident w (some r) = record {
  name = w.started.name;
  kind = w.started.kind;
  state = state_of_resident r.state;
  queue_depth = length r.queue;
  error = none;
}
summary_of_resident w none = record {
  name = w.started.name;
  kind = w.started.kind;
  state = if w.is_sleeping then sleeping else attaching;
  queue_depth = 0;
  error = none;
}

summary_of_attaching : Worker → Option AttachingWorker → WorkerStatusSummary
unfolding summary_of_resident
summary_of_attaching w (some entry) = record {
  name = w.started.name;
  kind = w.started.kind;
  state = attaching;
  queue_depth = length entry.queue;
  error = none;
}
summary_of_attaching w none = summary_of_resident w (resident_entry w.is_resident w.resident)

summary_of : Worker → Option WorkerError → WorkerStatusSummary
unfolding summary_of_attaching
summary_of w (some error) = record {
  name = w.started.name;
  kind = w.started.kind;
  state = failed;
  queue_depth = 0;
  error = some error;
}
summary_of w none = summary_of_attaching w w.attaching_entry

abbrev summary_option : Option Worker → Option WorkerStatusSummary
unfolding summary_of
summary_option none = none
summary_option (some w) = some (summary_of w w.failed_entry)

unfoldable pub summarize_worker_status : String → WorkerRuntime → Option WorkerStatusSummary
unfolding summary_option
summarize_worker_status name s = summary_option (lookup name s.workers)
