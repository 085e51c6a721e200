-- ===== src/Tests/Worker.antt =====
-- One worker that is started, attached, sent a message and answered.
use Prim.Native.String.{String}
use agents_ensemble.Base.{◌≤◌, ◌≡◌, refl, true, false, none, some, [], ◌∷◌, All, length}
use agents_ensemble.Base.StringMap.{lookup, insert}
use agents_ensemble.Worker.State.{
  WorkerStartedInfo, conductor, ResidentWorker, is_busy, attaching_task, round_task, harness,
  Worker, WorkerRuntime, empty_runtime, put, running_count, is_ready,
}
use agents_ensemble.Worker.Round.{answered, settle_round, end_attach}
use agents_ensemble.Worker.Attach.{
  start, attach_and_init, new_worker, attached, attach_threw, settle_attach,
}
use agents_ensemble.Worker.Send.{send_worker_message, send_error, not_registered, send_to}
use agents_ensemble.Worker.Run.{Awaits, Run, begins, starts, sends, attaches}
use agents_ensemble.Worker.Run.Whole.{awaits_round, Run-one_round, Run-running_count}
use agents_ensemble.Worker.Run.Queue.{
  answer_rounds, prompts, IsAnswering, IsDone, answer_rounds-IsDone,
}
use agents_ensemble.Worker.Run.Waiters.{
  processes, settle_round-tells_before_next, send_worker_message-error_unchanged,
}

abbrev same : String → String
same s = s

abbrev coder : WorkerStartedInfo
coder = record { worker_id = "w1"; name = "coder"; kind = "dev" }

abbrev registered : WorkerRuntime
unfolding attach_and_init
registered = attach_and_init "coder" none (new_worker coder false) empty_runtime

-- The worker after its attachment has ended, up to the step that handles the end.
abbrev arrived : Worker
arrived = record (new_worker coder false) {
  attaching_entry = some (record { queue = []; preempt_instruction = none });
}

registered_run : Run same registered
unfolding start empty_runtime lookup
registered_run = starts coder false refl begins

registered-Awaits : Awaits registered "coder" (attaching_task none) arrived
unfolding attach_and_init empty_runtime lookup insert
registered-Awaits = record {
  worker = record arrived { tasks = attaching_task none ∷ [] };
  before = [];
  after = [];
  found = refl;
  split = refl;
  taken = refl;
}

-- The first prompt of the worker is unanswered, and one message is queued.
abbrev in_round : WorkerRuntime
in_round =
    (send_worker_message same "coder" "test" false
      (settle_attach "coder" none (attached "hello") arrived registered)).0

in_round_run : Run same in_round
in_round_run =
    sends "coder" "test" false
      (attaches "coder" none (attached "hello") arrived registered-Awaits registered_run)

abbrev in_round_worker : Worker
in_round_worker = record (new_worker coder false) {
  resident = some (record {
    state = is_busy;
    queue = "test" ∷ [];
    lazy_init_in_flight = false;
    preempt_instruction = none;
    cancel_in_flight = false;
  });
  is_resident = true;
  is_processing = true;
  tasks = round_task harness false true ∷ [];
}

in_round_found : lookup "coder" in_round.workers ≡ some in_round_worker
unfolding attach_and_init empty_runtime lookup insert send_worker_message settle_attach
in_round_found = refl

Run-one_round_example :
    (length in_round_worker.tasks ≤ 1)
    × (in_round_worker.is_processing ≡ awaits_round in_round_worker.tasks)
Run-one_round_example =
    Run-one_round same in_round "coder" in_round_worker in_round_run in_round_found

abbrev not_attached : WorkerRuntime
not_attached = settle_attach "coder" none (attach_threw "no binary") arrived registered

not_attached_count : running_count 0 not_attached ≡ 0
unfolding running_count settle_attach end_attach attach_and_init empty_runtime insert
not_attached_count = refl

Run-running_count_example : All (λ e. e.1.tasks ≡ []) not_attached.workers
Run-running_count_example =
    Run-running_count same not_attached 0
      (attaches "coder" none (attach_threw "no binary") arrived registered-Awaits registered_run)
      not_attached_count

abbrev last_resident : ResidentWorker
last_resident = record {
  state = is_busy;
  queue = "test" ∷ [];
  lazy_init_in_flight = false;
  preempt_instruction = none;
  cancel_in_flight = false;
}

-- A worker whose prompt has just been answered, while somebody waits for the prompts to end.
abbrev last_worker : Worker
last_worker = record (new_worker coder false) {
  resident = some last_resident;
  is_resident = true;
  is_processing = true;
}

abbrev waited_for : WorkerRuntime
waited_for = record {
  workers = ("coder", last_worker) ∷ [];
  attach_in_flight = 0;
  force_shutdown_requested = false;
  idle_resolvers = 7 ∷ [];
  idle_resolved = [];
  effects = [];
}

last_ready :
    is_ready (
      put "coder"
        (record last_worker { is_processing = false; resident = some last_resident })
        waited_for)
    ≡ true
unfolding insert
last_ready = refl

settle_round-tells_before_next_example :
    ((settle_round "coder" conductor false false
        (answered false)
        last_worker
        last_resident
        waited_for).idle_resolvers
      ≡ [])
    × ((settle_round "coder" conductor false false
          (answered false)
          last_worker
          last_resident
          waited_for).idle_resolved
        ≡ 7 ∷ [])
    × (processes (
          lookup "coder"
            (settle_round "coder" conductor false false
              (answered false)
              last_worker
              last_resident
              waited_for).workers)
        ≡ true)
settle_round-tells_before_next_example =
    settle_round-tells_before_next "coder" "test" [] last_worker last_resident waited_for refl refl
      refl last_ready

unknown_worker :
    (send_worker_message same "coder" "test" true empty_runtime).1 ≡ send_error not_registered
unfolding send_worker_message send_to empty_runtime lookup
unknown_worker = refl

send_worker_message-error_unchanged_example :
    (send_worker_message same "coder" "test" true empty_runtime).0 ≡ empty_runtime
send_worker_message-error_unchanged_example =
    send_worker_message-error_unchanged same "coder" "test" true empty_runtime not_registered
      unknown_worker

-- A worker with a prompt that is unanswered and two instructions behind it.
abbrev busy_object : ResidentWorker
busy_object = record last_resident { queue = "test" ∷ "lint" ∷ [] }

abbrev busy_worker : Worker
busy_worker = record last_worker {
  resident = some busy_object;
  tasks = round_task conductor false false ∷ [];
}

abbrev with_queue : WorkerRuntime
with_queue = record waited_for { workers = ("coder", busy_worker) ∷ [] }

with_queue-IsAnswering : IsAnswering "coder" false ("test" ∷ "lint" ∷ []) with_queue
unfolding lookup
with_queue-IsAnswering = record {
  worker = busy_worker;
  object = busy_object;
  found = refl;
  awaited = refl;
  held = refl;
  queued = refl;
  unpreempted = refl;
  unforced = refl;
}

answer_rounds-IsDone_example :
    IsDone "coder" (answer_rounds 3 "coder" with_queue)
    × (prompts (answer_rounds 3 "coder" with_queue).effects ≡ "lint" ∷ "test" ∷ [])
answer_rounds-IsDone_example =
    answer_rounds-IsDone "coder" false ("test" ∷ "lint" ∷ []) with_queue with_queue-IsAnswering
