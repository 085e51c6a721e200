-- ===== src/Session/Batch.antt =====
-- packages/core/src/conductor/session/select-dispatch-batch.ts: which queued events go to the
-- conductor in the next send. A source key is a string in the source, which `spelling` writes.
pub mod Keys
pub mod Identity
pub mod Static
pub mod Sources
pub mod Minimal
pub mod Pick
pub mod Choice
pub mod Laws
pub mod Continuation
use Prim.Native.String.{String}
use Prim.Native.String as Text
use text.Mathlib.Text.{◌==◌ as str_eq}
use agents_ensemble.Base.{
  ℕ, suc, ◌+◌, Bool, true, false, not, ◌&&◌, ◌||◌, Option, none, some, List, [], ◌∷◌, map, any,
  filter, if◌then◌else◌, get_or_else,
}
use agents_ensemble.Base.Int.{ℤ, pos, negsuc, lt_int, eq_int, min_int}
use agents_ensemble.Session.Event.{
  DispatchMode, inform, OperatorMessageDelivery, EventBody, operator_message, operator_reconnect,
  worker_completed, worker_failed, permission_pending, permission_stall, connectivity_recovered,
  github_update, SessionEvent, session_event_dispatch_mode, is_trigger_session_event,
  is_worker_completed, is_worker_failed, is_idle_operator_message, same_event,
}
use agents_ensemble.Session.Policy.{can_dispatch_conductor_send}

-- `dispatch_hold` is the key of a released hold, which the driver makes.
pub data DispatchSourceKey : Type 0 where
  operator reconnect permission stall github dispatch_hold : DispatchSourceKey
  worker : String → DispatchSourceKey

unfoldable pub spelling : DispatchSourceKey → String
spelling operator = "operator"
spelling reconnect = "operator.reconnect"
spelling permission = "permission"
spelling stall = "permission.stall"
spelling github = "github"
spelling dispatch_hold = "dispatch-hold"
spelling (worker name) = Text.◌++◌ "worker:" name

-- `===` on two keys
unfoldable pub same_key : DispatchSourceKey → DispatchSourceKey → Bool
same_key operator operator = true
same_key reconnect reconnect = true
same_key permission permission = true
same_key stall stall = true
same_key github github = true
same_key dispatch_hold dispatch_hold = true
same_key (worker a) (worker b) = str_eq a b
same_key _ _ = false

unfoldable pub has_key : List DispatchSourceKey → DispatchSourceKey → Bool
unfolding same_key
has_key keys key = any (λ k. same_key k key) keys

pub record DispatchBatchState : Type 0 where
  pub last_dispatched_source_key : Option DispatchSourceKey
  pub continuation_consumed : Bool

pub record DispatchBatch : Type 0 where
  pub events : List SessionEvent
  pub source_key : DispatchSourceKey

pub record SelectDispatchBatchInput : Type 0 where
  pub queue : List SessionEvent
  pub state : DispatchBatchState
  pub autonomous_turns : ℕ
  pub max_turns : ℤ
  pub allow_idle_operator_messages : Option Bool

pub record SelectDispatchBatchResult : Type 0 where
  pub batch : DispatchBatch
  pub remaining_queue : List SessionEvent

unfoldable pub event_source_key : EventBody → DispatchSourceKey
event_source_key (operator_message _) = operator
event_source_key operator_reconnect = reconnect
event_source_key (permission_pending _) = permission
event_source_key (permission_stall _) = stall
event_source_key (worker_completed result) = worker result.name
event_source_key (worker_failed failure) = worker failure.name
event_source_key (github_update _) = github
event_source_key (connectivity_recovered _) = github

abbrev pub key_of : SessionEvent → DispatchSourceKey
key_of event = event_source_key event.body

-- The table `STATIC_SOURCE_PRIORITY`, read at the event's type.
unfoldable pub static_event_priority : EventBody → ℤ
static_event_priority (operator_message _) = negsuc 0
static_event_priority operator_reconnect = pos 0
static_event_priority (permission_pending _) = pos 0
static_event_priority (permission_stall _) = pos 4
static_event_priority (worker_failed _) = pos 1
static_event_priority (worker_completed _) = pos 2
static_event_priority (github_update _) = pos 3
static_event_priority (connectivity_recovered _) = pos 5

unfoldable pub is_dispatchable : SessionEvent → ℕ → ℤ → Bool → Bool
is_dispatchable event autonomous_turns limit allow_idle =
    (not (is_idle_operator_message event.body) || allow_idle)
    && is_trigger_session_event event
    && can_dispatch_conductor_send event autonomous_turns limit

-- `queue.indexOf(event)`, which is -1 for an event that is not there.
unfoldable pub index_of : ℕ → List SessionEvent → SessionEvent → ℤ
index_of n [] event = negsuc 0
index_of n (e ∷ queue) event = if same_event e event then pos n else index_of (n + 1) queue event

pub record SourceMeta : Type 0 where
  pub priority : ℤ
  pub first_index : ℤ

-- The entry of the `Map` for a key is made at its first event and lowered at the others.
unfoldable pub lower_entry :
    DispatchSourceKey
    → SourceMeta
    → List (DispatchSourceKey × SourceMeta)
    → List (DispatchSourceKey × SourceMeta)
lower_entry key seen [] = (key, seen) ∷ []
lower_entry key seen ((k, existing) ∷ keys) =
    if same_key k key
    then (
      k,
      record {
        priority = min_int existing.priority seen.priority;
        first_index = min_int existing.first_index seen.first_index;
      },
    )
      ∷ keys
    else (k, existing) ∷ lower_entry key seen keys

unfoldable pub source_entries :
    List SessionEvent
    → List SessionEvent
    → List (DispatchSourceKey × SourceMeta)
    → List (DispatchSourceKey × SourceMeta)
source_entries queue [] keys = keys
source_entries queue (event ∷ eligible) keys = source_entries queue eligible (
    lower_entry (key_of event)
      (record { priority = static_event_priority event.body; first_index = index_of 0 queue event })
      keys)

abbrev pub max_safe_integer : ℤ
max_safe_integer = pos 9007199254740991

abbrev pub is_better : SourceMeta → ℤ → ℤ → Bool
is_better seen best_priority best_index =
    lt_int seen.priority best_priority
    || eq_int seen.priority best_priority && lt_int seen.first_index best_index

-- The second loop of `pickStaticSourceKey`.
unfoldable pub best_key :
    List (DispatchSourceKey × SourceMeta)
    → Option DispatchSourceKey
    → ℤ
    → ℤ
    → Option DispatchSourceKey
best_key [] chosen best_priority best_index = chosen
best_key ((key, seen) ∷ keys) chosen best_priority best_index =
    best_key keys (if is_better seen best_priority best_index then some key else chosen)
      (if is_better seen best_priority best_index then seen.priority else best_priority)
      (if is_better seen best_priority best_index then seen.first_index else best_index)

-- `eligible` is `first ∷ rest`: the caller has returned if there is none.
unfoldable pub pick_static_source_key :
    List SessionEvent → SessionEvent → List SessionEvent → DispatchSourceKey
pick_static_source_key queue first rest =
    get_or_else
      (best_key (source_entries queue (first ∷ rest) []) none max_safe_integer max_safe_integer)
      (key_of first)

unfoldable pub is_worker_source_key : DispatchSourceKey → Bool
is_worker_source_key (worker _) = true
is_worker_source_key _ = false

abbrev continues : Option DispatchSourceKey → Bool → List DispatchSourceKey → Bool
continues none consumed eligible_keys = false
continues (some key) consumed eligible_keys =
    is_worker_source_key key && not consumed && has_key eligible_keys key

unfoldable pub can_use_worker_continuation : DispatchBatchState → List DispatchSourceKey → Bool
can_use_worker_continuation state eligible_keys =
    continues state.last_dispatched_source_key state.continuation_consumed eligible_keys

-- The ladder that fixes the key, over the eligible events `first ∷ rest`.
unfoldable pub chosen_key :
    SelectDispatchBatchInput → SessionEvent → List SessionEvent → DispatchSourceKey
chosen_key input first rest =
    let eligible_keys = map key_of (first ∷ rest) in
    if has_key eligible_keys operator
    then operator
    else if has_key eligible_keys permission
    then permission
    else if can_use_worker_continuation input.state eligible_keys
    then get_or_else input.state.last_dispatched_source_key operator
    else pick_static_source_key input.queue first rest

abbrev is_inform : DispatchMode → Bool
is_inform inform = true
is_inform _ = false

abbrev pub is_eligible : SelectDispatchBatchInput → SessionEvent → Bool
is_eligible input event =
    is_dispatchable event input.autonomous_turns input.max_turns
      (get_or_else input.allow_idle_operator_messages true)

-- The test by which the batch is filtered out of the queue.
unfoldable pub joins_batch : SelectDispatchBatchInput → DispatchSourceKey → SessionEvent → Bool
joins_batch input key event =
    same_key (key_of event) key
    && (is_eligible input event
        || is_inform (session_event_dispatch_mode event)
          && can_dispatch_conductor_send event input.autonomous_turns input.max_turns)

-- `batchSet.has(event)`
unfoldable pub has_event : List SessionEvent → SessionEvent → Bool
has_event events event = any (λ e. same_event e event) events

unfoldable pub batch_of : SelectDispatchBatchInput → DispatchSourceKey → SelectDispatchBatchResult
batch_of input key =
    let batch_events = filter (joins_batch input key) input.queue in
    record {
      batch = record { events = batch_events; source_key = key };
      remaining_queue = filter (λ event. not (has_event batch_events event)) input.queue;
    }

unfoldable pub select_of_eligible :
    SelectDispatchBatchInput → List SessionEvent → Option SelectDispatchBatchResult
select_of_eligible input [] = none
select_of_eligible input (first ∷ rest) = some (batch_of input (chosen_key input first rest))

unfoldable pub select_dispatch_batch : SelectDispatchBatchInput → Option SelectDispatchBatchResult
select_dispatch_batch input = select_of_eligible input (filter (is_eligible input) input.queue)

unfoldable pub dispatch_batch_state_after_send : DispatchSourceKey → DispatchBatchState
dispatch_batch_state_after_send key = record {
  last_dispatched_source_key = some key;
  continuation_consumed = false;
}

abbrev is_last : Option DispatchSourceKey → DispatchSourceKey → Bool
is_last none key = false
is_last (some last) key = same_key key last

unfoldable pub mark_continuation_consumed :
    DispatchBatchState → SelectDispatchBatchResult → DispatchBatchState
mark_continuation_consumed state selected =
    if can_use_worker_continuation state (selected.batch.source_key ∷ [])
      && is_last state.last_dispatched_source_key selected.batch.source_key
    then record state { continuation_consumed = true }
    else state

-- The worker results and the worker failures among the events.
unfoldable pub count_worker_outcomes_in_batch : List SessionEvent → ℕ × ℕ
count_worker_outcomes_in_batch [] = (0, 0)
count_worker_outcomes_in_batch (event ∷ events) =
    let counts = count_worker_outcomes_in_batch events in
    if is_worker_completed event.body
    then (counts.0 + 1, counts.1)
    else if is_worker_failed event.body
    then (counts.0, counts.1 + 1)
    else counts
