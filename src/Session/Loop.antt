-- ===== src/Session/Loop.antt =====
-- packages/core/src/conductor/conductor-session-driver.ts, `runConductorSessionDriver`: the loop that
-- sends to the conductor. `Locals` are its variables, `Place` is the `await` that it stands at, and
-- `LoopSession` is what it shares with the rest of the session, which runs while the loop awaits.
pub mod Stop
pub mod Turn
pub mod Run
use agents_ensemble.Base.{ℕ, suc, Bool, Option, none, some, List, []}
use agents_ensemble.Base.Int.{ℤ}
use agents_ensemble.Session.Event.{SessionEvent}
use agents_ensemble.Session.Policy.{
  IssueLoopStopReason, completed, SendStatus, finished, IssueLoopStopInput,
}
use agents_ensemble.Session.Batch.{DispatchBatchState}
use agents_ensemble.Session.Hold.{DispatchHoldState}
use agents_ensemble.Session.Driver.{WaitInput, Surroundings}
use agents_ensemble.Question.Registry.{OpenQuestionRegistry, open_count}

pub record LoopOptions : Type 0 where
  pub max_turns : ℤ
  pub continue_on_conductor_error : Bool
  pub stop_on_unanswered_input : Bool
  pub continue_after_issue_loop_stop : Bool

-- `pending_permissions` is the size of the registry of the pipeline.
pub record LoopSession : Type 0 where
  pub queue : List SessionEvent
  pub hold : DispatchHoldState
  pub questions : OpenQuestionRegistry
  pub around : Surroundings
  pub pending_permissions : ℕ

-- A call of `runEventConductorSend`: its batch, and the counters that it sets when it is complete.
pub record Send : Type 0 where
  pub batch : List SessionEvent
  pub send_count : ℕ
  pub autonomous_turns : ℕ

-- Of the result of a send the status is kept. `loop_stops` counts the calls of `onIssueLoopStop`.
pub record Locals : Type 0 where
  pub send_count : ℕ
  pub last_dispatches_this_turn : ℕ
  pub autonomous_turns : ℕ
  pub dispatch_batch_state : DispatchBatchState
  pub stop_reason : IssueLoopStopReason
  pub last_status : SendStatus
  pub in_flight : Option Send
  pub post_loop_waiting : Bool
  pub loop_stops : ℕ

-- The first send, the top of the loop, a send in flight, the draining of the inbox (after a send it
-- is known whether an idle message of the operator is ready), the wait for a batch, a reconnect, and
-- the end, with a result or an error.
pub data Place : Type 0 where
  at_initial_send at_top at_send draining_idle at_wait at_reconnect ended threw : Place
  draining_after_send : Bool → Place

-- The values that a resumed session hands on; without it they are those of a new one.
pub record ResumeStore : Type 0 where
  pub send_count : ℕ
  pub autonomous_turns : ℕ
  pub last_dispatches_this_turn : ℕ
  pub last_status : SendStatus

unfoldable pub new_session : ResumeStore
new_session = record {
  send_count = 0;
  autonomous_turns = 0;
  last_dispatches_this_turn = 0;
  last_status = finished;
}

unfoldable pub first_locals : ResumeStore → Option Send → Locals
first_locals store in_flight = record {
  send_count = store.send_count;
  last_dispatches_this_turn = store.last_dispatches_this_turn;
  autonomous_turns = store.autonomous_turns;
  dispatch_batch_state = record {
    last_dispatched_source_key = none;
    continuation_consumed = Bool.false;
  };
  stop_reason = completed;
  last_status = store.last_status;
  in_flight = in_flight;
  post_loop_waiting = Bool.false;
  loop_stops = 0;
}

-- The first send has no batch.
abbrev pub initial_send : Send
initial_send = record { batch = []; send_count = 1; autonomous_turns = 1 }

abbrev pub wait_input : LoopOptions → Locals → WaitInput
wait_input options l = record {
  dispatch_batch_state = l.dispatch_batch_state;
  autonomous_turns = l.autonomous_turns;
  max_turns = options.max_turns;
}

unfoldable pub build_issue_loop_stop_input : LoopOptions → LoopSession → Locals → IssueLoopStopInput
build_issue_loop_stop_input options s l = record {
  autonomous_turns = l.autonomous_turns;
  max_turns = options.max_turns;
  last_status = l.last_status;
  dispatches_this_turn = l.last_dispatches_this_turn;
  running_workers = some s.around.running_count;
  pending_permissions = some s.pending_permissions;
  open_questions = some (open_count s.questions);
  continue_on_conductor_error = options.continue_on_conductor_error;
  stop_on_unanswered_input = options.stop_on_unanswered_input;
}
