-- ===== src/Tests/Loop.antt =====
-- A session that starts, gets the outcome of a worker, sends it, and stops.
use Prim.Native.String.{String}
use agents_ensemble.Base.{ℕ, ◌+◌, ◌≤◌, ◌≡◌, ◌⊎◌, refl, false, none, some, List, [], ◌∷◌, arith}
use agents_ensemble.Base.Int.{pos}
use agents_ensemble.Session.Event.{SessionEvent}
use agents_ensemble.Session.Policy.{finished, completed, interrupted}
use agents_ensemble.Session.Batch.{worker}
use agents_ensemble.Session.Loop.{
  LoopOptions, LoopSession, Send, Locals, at_top, at_send, at_wait, draining_idle, ended,
  new_session, first_locals, initial_send,
}
use agents_ensemble.Session.Loop.Turn.{SendEnd, send_ended}
use agents_ensemble.Session.Loop.Run.{
  Run, begins, changes, ends_initial, enters, waits, ends_send, drains_sent,
}
use agents_ensemble.Session.Loop.Run.Counted.{flights, Run-send_count}
use agents_ensemble.Session.Loop.Run.Bounded.{work_since_operator, Run-bounded}
use agents_ensemble.Session.Loop.Run.Reading.{last_reading, StopRead}
use agents_ensemble.Session.Loop.Run.Ends.{Run-ended}
use agents_ensemble.Session.Loop.Run.Idle.{IsIdle, Run-completed}
use agents_ensemble.Tests.Data.{done_by}

abbrev nothing_written : ℕ → String
nothing_written n = ""

abbrev options : LoopOptions
options = record {
  max_turns = pos 3;
  continue_on_conductor_error = false;
  stop_on_unanswered_input = false;
  continue_after_issue_loop_stop = false;
}

abbrev quiet : List SessionEvent → LoopSession
quiet queue = record {
  queue = queue;
  hold = record { dispatch_hold = false; held_events = [] };
  questions = record { sequence = 0; entries = [] };
  around = record { running_count = 0; is_permission_pending = none };
  pending_permissions = 0;
}

abbrev first_done : SendEnd
first_done = send_ended finished 0 1 0

abbrev work_done : SendEnd
work_done = send_ended finished 0 0 0

abbrev after_first : Locals
after_first = record (first_locals new_session (some initial_send)) {
  send_count = 1;
  last_dispatches_this_turn = 1;
  autonomous_turns = 1;
  in_flight = none;
}

abbrev work_send : Send
work_send = record { batch = done_by 4 "a" ∷ []; send_count = 2; autonomous_turns = 2 }

first_run : Run nothing_written options 0 ([] ∷ []) (quiet []) after_first at_top
unfolding first_locals new_session agents_ensemble.Session.Loop.Turn.end_initial_send
first_run = ends_initial first_done initial_send refl (begins (quiet []) refl)

-- The outcome of a worker comes in.
waiting_run :
    Run nothing_written options 0 ([] ∷ []) (quiet (done_by 4 "a" ∷ [])) after_first at_wait
unfolding first_locals new_session agents_ensemble.Session.Loop.Turn.enter
    agents_ensemble.Session.Policy.is_max_turns_limited
waiting_run = enters 0 "" (changes (quiet (done_by 4 "a" ∷ [])) refl first_run)

abbrev sending : Locals
sending = record after_first {
  dispatch_batch_state = record {
    last_dispatched_source_key = some (worker "a");
    continuation_consumed = false;
  };
  in_flight = some work_send;
}

sending_run :
    Run nothing_written options 0 ((done_by 4 "a" ∷ []) ∷ [] ∷ []) (quiet []) sending at_top
unfolding agents_ensemble.Session.Driver.wait_for_dispatch_batch
    agents_ensemble.Session.Driver.dispatch_round
    agents_ensemble.Session.Batch.select_dispatch_batch
    agents_ensemble.Session.Batch.select_of_eligible
    agents_ensemble.Session.Hold.buffer_dispatch_hold_events
    agents_ensemble.Session.Batch.is_dispatchable
    agents_ensemble.Session.Event.is_trigger_session_event
    agents_ensemble.Session.Policy.can_dispatch_conductor_send
    agents_ensemble.Session.Driver.is_immediate_dispatch_source
    agents_ensemble.Session.Batch.batch_of agents_ensemble.Session.Batch.chosen_key
    agents_ensemble.Session.Batch.has_key agents_ensemble.Session.Batch.event_source_key
    agents_ensemble.Session.Batch.can_use_worker_continuation first_locals new_session
    agents_ensemble.Session.Batch.pick_static_source_key agents_ensemble.Session.Batch.best_key
    agents_ensemble.Session.Batch.has_event agents_ensemble.Session.Policy.is_max_turns_limited
    agents_ensemble.Session.Batch.mark_continuation_consumed
    agents_ensemble.Session.Batch.dispatch_batch_state_after_send
    agents_ensemble.Session.Policy.autonomous_turns_after_conductor_batch
    agents_ensemble.Session.Loop.Turn.end_wait agents_ensemble.Session.Batch.source_entries
    agents_ensemble.Session.Batch.lower_entry agents_ensemble.Session.Batch.static_event_priority
    agents_ensemble.Session.Batch.joins_batch
sending_run = waits [] waiting_run

Run-send_count_example : sending.send_count + flights sending.in_flight ≡ 0 + 2
Run-send_count_example =
    Run-send_count nothing_written options 0 _ (quiet []) sending at_top sending_run

Run-bounded_example : work_since_operator ((done_by 4 "a" ∷ []) ∷ [] ∷ []) ≤ 3
Run-bounded_example =
    Run-bounded nothing_written options 0 3 ((done_by 4 "a" ∷ []) ∷ [] ∷ []) (quiet []) sending
      at_top refl (omega arith) sending_run

abbrev last : Locals
last = record sending {
  send_count = 2;
  last_dispatches_this_turn = 0;
  autonomous_turns = 2;
  in_flight = none;
}

-- The last send ends, the inbox is drained and the loop is left.
last_run : Run nothing_written options 0 ((done_by 4 "a" ∷ []) ∷ [] ∷ []) (quiet []) last ended
unfolding agents_ensemble.Session.Loop.Turn.enter agents_ensemble.Session.Loop.Turn.end_send
    agents_ensemble.Session.Loop.Stop.should_break_after_loop_state
    agents_ensemble.Session.Loop.Stop.hold_blocks_stop
    agents_ensemble.Session.Policy.should_stop_issue_loop
    agents_ensemble.Session.Loop.build_issue_loop_stop_input
    agents_ensemble.Question.Registry.open_count
    agents_ensemble.Session.Loop.Stop.can_have_pending_worker_outcome
    agents_ensemble.Session.Batch.select_dispatch_batch
    agents_ensemble.Session.Batch.select_of_eligible agents_ensemble.Session.Loop.Turn.sent_drained
    agents_ensemble.Session.Loop.Stop.break_after_drain
    agents_ensemble.Session.Policy.resolve_issue_loop_stop_reason first_locals new_session
last_run = drains_sent false (ends_send work_done work_send refl (enters 0 "" sending_run))

Run-ended_example :
    (last.stop_reason ≡ interrupted)
    ⊎ ((options.continue_after_issue_loop_stop ≡ false)
        × StopRead options (last_reading nothing_written options 0 last_run) last)
Run-ended_example =
    Run-ended nothing_written options 0 ((done_by 4 "a" ∷ []) ∷ [] ∷ []) (quiet []) last last_run

Run-completed_example : IsIdle options (quiet []) last
unfolding first_locals
Run-completed_example =
    Run-completed nothing_written options 0 ((done_by 4 "a" ∷ []) ∷ [] ∷ []) (quiet []) last
      last_run refl refl
