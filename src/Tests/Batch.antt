-- ===== src/Tests/Batch.antt =====
-- The selection of a batch out of a queue of three events.
use agents_ensemble.Base.{◌≡◌, ◌↔◌, refl, true, false, none, some, List, [], ◌∷◌, filter, arith}
use agents_ensemble.Base.Int.{pos}
use agents_ensemble.Base.Merge.{Merge}
use agents_ensemble.Session.Event.{SessionEvent}
use agents_ensemble.Session.Policy.{
  can_dispatch_conductor_send, autonomous_turns_after_conductor_batch, finished, IssueLoopStopInput,
  should_stop_issue_loop,
}
use agents_ensemble.Session.Policy.Laws.{
  StopCause, should_stop_issue_loop_iff, Unattended, stop, send,
}
use agents_ensemble.Session.Batch.{
  DispatchSourceKey, worker, github, operator, permission, spelling, same_key, key_of, is_eligible,
  select_dispatch_batch, pick_static_source_key, can_use_worker_continuation,
  mark_continuation_consumed, dispatch_batch_state_after_send,
}
use agents_ensemble.Session.Batch.Identity.{Coherent}
use agents_ensemble.Session.Batch.Pick.{IsLeastSource, pick_static_source_key-IsLeastSource}
use agents_ensemble.Session.Batch.Choice.{Choice, has_source}
use agents_ensemble.Session.Batch.Laws.{select_dispatch_batch-Merge, select_dispatch_batch-Choice}
use agents_ensemble.Session.Batch.Continuation.{continues_after_send}
use agents_ensemble.Tests.Data.{
  done_by, failed_by, issue_update, three_events, batch_input, three_input, batch_of_a,
}

selects_a : select_dispatch_batch three_input ≡ some batch_of_a
unfolding select_dispatch_batch agents_ensemble.Session.Batch.select_of_eligible
    agents_ensemble.Session.Batch.is_dispatchable
    agents_ensemble.Session.Event.is_trigger_session_event can_dispatch_conductor_send
    agents_ensemble.Session.Batch.batch_of agents_ensemble.Session.Batch.joins_batch
    agents_ensemble.Session.Batch.chosen_key agents_ensemble.Session.Batch.has_event same_key
    agents_ensemble.Session.Batch.has_key agents_ensemble.Session.Batch.event_source_key
    can_use_worker_continuation pick_static_source_key agents_ensemble.Session.Batch.best_key
    agents_ensemble.Session.Batch.source_entries agents_ensemble.Session.Batch.lower_entry
    agents_ensemble.Session.Batch.static_event_priority
selects_a = refl

three_events-Coherent : Coherent three_events
three_events-Coherent = ground arith

-- The failure of `b` comes before that of `a`, but `a` waits since before it.
abbrev two_failures : List SessionEvent
two_failures = done_by 1 "a" ∷ failed_by 2 "b" ∷ failed_by 3 "a" ∷ []

picks_a :
    pick_static_source_key two_failures (done_by 1 "a") (failed_by 2 "b" ∷ failed_by 3 "a" ∷ [])
    ≡ worker "a"
unfolding same_key pick_static_source_key agents_ensemble.Session.Batch.best_key
    agents_ensemble.Session.Batch.event_source_key agents_ensemble.Session.Batch.source_entries
    agents_ensemble.Session.Batch.lower_entry agents_ensemble.Session.Batch.static_event_priority
    agents_ensemble.Session.Batch.index_of
picks_a = refl

pick_static_source_key-IsLeastSource_example :
    IsLeastSource two_failures two_failures
      (pick_static_source_key two_failures (done_by 1 "a") (failed_by 2 "b" ∷ failed_by 3 "a" ∷ []))
pick_static_source_key-IsLeastSource_example =
    pick_static_source_key-IsLeastSource two_failures (done_by 1 "a")
      (failed_by 2 "b" ∷ failed_by 3 "a" ∷ [])

select_dispatch_batch-Merge_example :
    Merge (done_by 1 "a" ∷ done_by 3 "a" ∷ []) (issue_update 2 ∷ []) three_events
select_dispatch_batch-Merge_example =
    select_dispatch_batch-Merge three_input batch_of_a three_events-Coherent selects_a

select_dispatch_batch-Choice_example :
    Choice three_input (filter (is_eligible three_input) three_events) (worker "a")
select_dispatch_batch-Choice_example = select_dispatch_batch-Choice three_input batch_of_a selects_a

selects_a_again :
    select_dispatch_batch (batch_input (dispatch_batch_state_after_send (worker "a")))
    ≡ some batch_of_a
unfolding select_dispatch_batch agents_ensemble.Session.Batch.select_of_eligible
    agents_ensemble.Session.Batch.is_dispatchable
    agents_ensemble.Session.Event.is_trigger_session_event can_dispatch_conductor_send
    agents_ensemble.Session.Batch.batch_of agents_ensemble.Session.Batch.joins_batch
    agents_ensemble.Session.Batch.chosen_key agents_ensemble.Session.Batch.has_event same_key
    agents_ensemble.Session.Batch.has_key agents_ensemble.Session.Batch.event_source_key
    can_use_worker_continuation dispatch_batch_state_after_send
    agents_ensemble.Session.Batch.is_worker_source_key
selects_a_again = refl

abbrev eligible_again : List SessionEvent
eligible_again =
    filter (is_eligible (batch_input (dispatch_batch_state_after_send (worker "a")))) three_events

only_workers_wait :
    (has_source eligible_again operator ≡ false)
    × (has_source eligible_again permission ≡ false)
    × (has_source eligible_again (worker "a") ≡ true)
unfolding has_source agents_ensemble.Session.Batch.is_dispatchable
    agents_ensemble.Session.Event.is_trigger_session_event can_dispatch_conductor_send same_key
    agents_ensemble.Session.Batch.event_source_key
only_workers_wait = (refl, refl, refl)

continues_after_send_example : batch_of_a.batch.source_key ≡ worker "a"
continues_after_send_example =
    continues_after_send (batch_input (dispatch_batch_state_after_send (worker "a"))) batch_of_a "a"
      refl only_workers_wait.0 only_workers_wait.1 only_workers_wait.2 selects_a_again

abbrev quiet_input : IssueLoopStopInput
quiet_input = record {
  autonomous_turns = 1;
  max_turns = pos 3;
  last_status = finished;
  dispatches_this_turn = 0;
  running_workers = some 0;
  pending_permissions = none;
  open_questions = none;
  continue_on_conductor_error = false;
  stop_on_unanswered_input = false;
}

should_stop_issue_loop_iff_example :
    (should_stop_issue_loop quiet_input ≡ true) ↔ StopCause quiet_input
should_stop_issue_loop_iff_example = should_stop_issue_loop_iff quiet_input

two_sends : Unattended (pos 3) 0 ((done_by 1 "a" ∷ []) ∷ (issue_update 2 ∷ []) ∷ [])
unfolding can_dispatch_conductor_send autonomous_turns_after_conductor_batch
two_sends = send _ (refl, tt) refl (send _ (refl, tt) refl stop)
