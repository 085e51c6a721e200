-- ===== src/Tests/Data.antt =====
-- Events and states that the tests share.
use Prim.Native.String.{String}
use agents_ensemble.Base.{ℕ, false, none, List, [], ◌∷◌}
use agents_ensemble.Base.Int.{pos}
use agents_ensemble.Session.Event.{
  SessionEvent, EventBody, worker_completed, worker_failed, github_update, operator_message,
  permission_pending,
}
use agents_ensemble.Session.Batch.{
  worker, DispatchBatchState, SelectDispatchBatchInput, SelectDispatchBatchResult,
}

abbrev pub event : ℕ → EventBody → SessionEvent
event ref body = record { ref = ref; dispatch_mode = none; body = body }

abbrev pub done_by : ℕ → String → SessionEvent
done_by ref name =
    event ref
      (worker_completed (record { name = name; kind = "coder"; prompt = ""; acp_session_id = "" }))

abbrev pub failed_by : ℕ → String → SessionEvent
failed_by ref name = event ref (
    worker_failed
      (record { worker_id = name; name = name; error = "e"; issue_url = ""; kind = "coder" }))

abbrev pub issue_update : ℕ → SessionEvent
issue_update ref = event ref (github_update ("comment" ∷ []))

abbrev pub said : ℕ → SessionEvent
said ref = event ref (
    operator_message (record {
      text = "go on";
      delivery = none;
      open_question_answer = false;
      answer_preview = none;
    }))

abbrev pub asked_permission : ℕ → String → SessionEvent
asked_permission ref id = event ref (
    permission_pending
      (record { id = id; worker_id = "w"; created_at = 0; operator_summary = none }))

abbrev pub three_events : List SessionEvent
three_events = done_by 1 "a" ∷ issue_update 2 ∷ done_by 3 "a" ∷ []

abbrev pub fresh_state : DispatchBatchState
fresh_state = record { last_dispatched_source_key = none; continuation_consumed = false }

abbrev pub batch_input : DispatchBatchState → SelectDispatchBatchInput
batch_input state = record {
  queue = three_events;
  state = state;
  autonomous_turns = 0;
  max_turns = pos 3;
  allow_idle_operator_messages = none;
}

abbrev pub three_input : SelectDispatchBatchInput
three_input = batch_input fresh_state

abbrev pub batch_of_a : SelectDispatchBatchResult
batch_of_a = record {
  batch = record { events = done_by 1 "a" ∷ done_by 3 "a" ∷ []; source_key = worker "a" };
  remaining_queue = issue_update 2 ∷ [];
}
