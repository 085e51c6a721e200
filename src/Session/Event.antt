-- ===== src/Session/Event.antt =====
-- packages/core/src/conductor/session/events/session-event.ts and dispatch-mode.ts: the events of
-- the conductor session and their dispatch mode. An event is a JavaScript object: `ref` is its
-- identity, which `===`, `Set` and `indexOf` compare, and `body` its contents, which no code
-- changes. Of the payloads the fields stand here that the session code reads.
use Prim.Native.String.{String}
use agents_ensemble.Base.{ℕ, Bool, true, false, Option, none, some, List, ◌==◌}

pub data DispatchMode : Type 0 where
  telemetry inform trigger : DispatchMode

pub data OperatorMessageDelivery : Type 0 where
  idle next interrupt : OperatorMessageDelivery

pub record OperatorMessage : Type 0 where
  pub text : String
  pub delivery : Option OperatorMessageDelivery
  pub open_question_answer : Bool
  pub answer_preview : Option String

-- dispatch/worker-dispatch.ts; `issue`, `worktree` and `promptResult` are left out.
pub record WorkerDispatchResult : Type 0 where
  pub name : String
  pub kind : String
  pub prompt : String
  pub acp_session_id : String

pub record WorkerFailureRecord : Type 0 where
  pub worker_id : String
  pub name : String
  pub error : String
  pub issue_url : String
  pub kind : String

-- The pending entry and the texts that go with it; `request` and `brief` are left out.
pub record PermissionPending : Type 0 where
  pub id : String
  pub worker_id : String
  pub created_at : ℕ
  pub operator_summary : Option String

pub record PermissionStall : Type 0 where
  pub message : String
  pub pending_permission_ids : List String
  pub pending_permission_count : ℕ
  pub oldest_permission_created_at : ℕ
  pub stall_age_ms : ℕ
  pub stall_threshold_ms : ℕ

pub data EventBody : Type 0 where
  operator_message : OperatorMessage → EventBody
  operator_reconnect : EventBody
  worker_completed : WorkerDispatchResult → EventBody
  worker_failed : WorkerFailureRecord → EventBody
  permission_pending : PermissionPending → EventBody
  permission_stall : PermissionStall → EventBody
  connectivity_recovered : ℕ → EventBody
  github_update : List String → EventBody

pub record SessionEvent : Type 0 where
  pub ref : ℕ
  pub dispatch_mode : Option DispatchMode
  pub body : EventBody

abbrev pub default_session_event_dispatch_mode : DispatchMode
default_session_event_dispatch_mode = trigger

-- The two tests read the optional field and put the default in its place.
abbrev mode_or_default : Option DispatchMode → DispatchMode
mode_or_default none = default_session_event_dispatch_mode
mode_or_default (some mode) = mode

unfoldable pub session_event_dispatch_mode : SessionEvent → DispatchMode
session_event_dispatch_mode event = mode_or_default event.dispatch_mode

unfoldable pub can_trigger_conductor_dispatch : DispatchMode → Bool
can_trigger_conductor_dispatch trigger = true
can_trigger_conductor_dispatch inform = false
can_trigger_conductor_dispatch telemetry = false

unfoldable pub is_trigger_session_event : SessionEvent → Bool
unfolding can_trigger_conductor_dispatch session_event_dispatch_mode
is_trigger_session_event event = can_trigger_conductor_dispatch (session_event_dispatch_mode event)

-- `event.type === '…'`
abbrev pub is_operator_message : EventBody → Bool
is_operator_message (operator_message _) = true
is_operator_message _ = false

abbrev pub is_operator_reconnect : EventBody → Bool
is_operator_reconnect operator_reconnect = true
is_operator_reconnect _ = false

abbrev pub is_permission_pending : EventBody → Bool
is_permission_pending (permission_pending _) = true
is_permission_pending _ = false

abbrev pub is_permission_stall : EventBody → Bool
is_permission_stall (permission_stall _) = true
is_permission_stall _ = false

abbrev pub is_worker_completed : EventBody → Bool
is_worker_completed (worker_completed _) = true
is_worker_completed _ = false

abbrev pub is_worker_failed : EventBody → Bool
is_worker_failed (worker_failed _) = true
is_worker_failed _ = false

abbrev pub is_connectivity_recovered : EventBody → Bool
is_connectivity_recovered (connectivity_recovered _) = true
is_connectivity_recovered _ = false

-- `event.delivery === 'idle'`
abbrev pub is_idle_delivery : Option OperatorMessageDelivery → Bool
is_idle_delivery (some idle) = true
is_idle_delivery _ = false

abbrev pub is_interrupt_delivery : Option OperatorMessageDelivery → Bool
is_interrupt_delivery (some interrupt) = true
is_interrupt_delivery _ = false

abbrev pub is_idle_operator_message : EventBody → Bool
is_idle_operator_message (operator_message message) = is_idle_delivery message.delivery
is_idle_operator_message _ = false

abbrev pub is_interrupt_operator_message : EventBody → Bool
is_interrupt_operator_message (operator_message message) = is_interrupt_delivery message.delivery
is_interrupt_operator_message _ = false

-- Two references to one object.
abbrev pub same_event : SessionEvent → SessionEvent → Bool
same_event a b = a.ref == b.ref
