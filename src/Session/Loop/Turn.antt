-- ===== src/Session/Loop/Turn.antt =====
-- The pieces of `runConductorSessionDriver` between two `await`s.
use Prim.Native.String.{String}
use agents_ensemble.Base.{
  ℕ, suc, ◌+◌, max, ◌==◌, Bool, true, false, not, ◌&&◌, ◌||◌, Option, some, none, any, is_empty,
  if◌then◌else◌,
}
use agents_ensemble.Base.Int.{pos, lt_int}
use agents_ensemble.Session.Event.{is_interrupt_operator_message, is_idle_operator_message}
use agents_ensemble.Session.Policy.{
  SendStatus, cancelled, interrupted, is_max_turns_limited, autonomous_turns_after_conductor_batch,
}
use agents_ensemble.Session.Batch.{
  DispatchSourceKey, reconnect, DispatchBatchState, SelectDispatchBatchResult,
  dispatch_batch_state_after_send, mark_continuation_consumed,
}
use agents_ensemble.Session.Hold.{prune_stale_permission_events}
use agents_ensemble.Session.Driver.{
  DispatchBatchResult, select_from, can_dispatch_idle_operator_message,
}
use agents_ensemble.Question.MaxTurns.{ensure_max_turns_open_question}
use agents_ensemble.Session.Loop.{
  LoopOptions, LoopSession, Send, Locals, Place, at_top, at_send, draining_idle, at_wait,
  at_reconnect, ended, threw, draining_after_send, wait_input, build_issue_loop_stop_input,
}
use agents_ensemble.Session.Loop.Stop.{
  Break, breaks, goes_on, drains, should_break_after_loop_state, break_after_drain,
}

-- `runEventConductorSend` ends: with an error, or a status, the worker results and the instructions
-- to workers counted during the send, and the failures of workers.
pub data SendEnd : Type 0 where
  send_threw : SendEnd
  send_ended : SendStatus → ℕ → ℕ → ℕ → SendEnd

-- `onSendComplete`
unfoldable pub complete_send : Send → SendStatus → ℕ → ℕ → ℕ → Locals → Locals
complete_send send status completed_during_send outbound failures l = record l {
  send_count = send.send_count;
  last_dispatches_this_turn = max completed_during_send outbound + failures;
  autonomous_turns = send.autonomous_turns;
  last_status = status;
  in_flight = none;
}

-- `await runEventConductorSend` before the loop.
unfoldable pub end_initial_send : Send → SendEnd → Locals → Locals × Place
unfolding complete_send
end_initial_send send send_threw l = (l, threw)
end_initial_send send (send_ended status completed outbound failures) l =
    (complete_send send status completed outbound failures l, at_top)

unfoldable pub prune_with : Option (String → Bool) → LoopSession → LoopSession
prune_with none s = s
prune_with (some is_permission_pending) s =
    let r = prune_stale_permission_events is_permission_pending s.hold s.queue in
    record s { hold = r.state; queue = r.queue }

-- Where the loop goes from the test of an idle session.
abbrev pub after_idle : Break → Place
after_idle breaks = ended
after_idle goes_on = at_wait
after_idle drains = draining_idle

-- Where it goes from the test after a send; an idle message of the operator keeps it from stopping.
abbrev pub after_send : Bool → Bool → Break → Place
after_send stop_on_unanswered_input idle_ready breaks =
    if not idle_ready || stop_on_unanswered_input then ended else at_top
after_send stop_on_unanswered_input idle_ready goes_on = at_top
after_send stop_on_unanswered_input idle_ready drains = draining_after_send idle_ready

-- Only a cancelled run can have been ended by an interrupt.
unfoldable pub is_interrupted : SendStatus → LoopSession → Bool
is_interrupted cancelled s = any (λ event. is_interrupt_operator_message event.body) s.queue
is_interrupted _ s = false

abbrev pub has_idle_message : Option SelectDispatchBatchResult → Bool
has_idle_message none = false
has_idle_message (some selected) =
    any (λ event. is_idle_operator_message event.body) selected.batch.events

abbrev pub is_reconnect : DispatchSourceKey → Bool
is_reconnect reconnect = true
is_reconnect _ = false

unfoldable pub mark_selected :
    Option SelectDispatchBatchResult → DispatchBatchState → DispatchBatchState
mark_selected none state = state
mark_selected (some selected) state = mark_continuation_consumed state selected

-- What follows `onSendComplete` when a send in flight has ended.
module _ (options : LoopOptions) where
  unfoldable pub idle_message_ready : LoopSession → Locals → Bool
  idle_message_ready s l = has_idle_message (
      select_from (wait_input options l)
        (some (can_dispatch_idle_operator_message (wait_input options l) s.around s.hold s.queue))
        s.queue)

  unfoldable pub evaluate_sent : LoopSession → Locals → Locals × Place
  unfolding idle_message_ready is_interrupted
  evaluate_sent s l =
      if is_interrupted l.last_status s
      then (l, at_top)
      else let r =
          should_break_after_loop_state options s (build_issue_loop_stop_input options s l) l in
        (r.0, after_send options.stop_on_unanswered_input (idle_message_ready s l) r.1)

  -- The end of `awaitWithAbort(inFlightSend)`, if it is not aborted.
  unfoldable pub end_send : SendEnd → Send → LoopSession → Locals → Locals × Place
  unfolding evaluate_sent complete_send
  end_send send_threw send s l = (l, threw)
  end_send (send_ended status completed outbound failures) send s l =
      evaluate_sent s (complete_send send status completed outbound failures l)

  unfoldable pub sent_drained : Bool → LoopSession → Locals → Locals × Place
  sent_drained idle_ready s l =
      let r = break_after_drain options s l in
      (r.0, after_send options.stop_on_unanswered_input idle_ready r.1)

  unfoldable pub idle_drained : LoopSession → Locals → Locals × Place
  idle_drained s l = let r = break_after_drain options s l in (r.0, after_idle r.1)

-- An abort, of a send in flight or of the wait.
unfoldable pub interrupt_loop : Locals → Locals × Place
interrupt_loop l = (record l { stop_reason = interrupted }, ended)

-- The mark that the continuation is consumed is set and overwritten, in both branches.
unfoldable pub dispatch : DispatchBatchResult → Locals → Locals × Place
unfolding mark_selected
dispatch r l =
    let state = mark_selected r.selected l.dispatch_batch_state in
    let l' : Locals = record l { post_loop_waiting = false } in
    if is_reconnect r.source_key
    then (
      record l' { dispatch_batch_state = dispatch_batch_state_after_send r.source_key },
      at_reconnect,
    )
    else (
      record l' {
        in_flight = some (record {
          batch = r.events;
          send_count = suc l.send_count;
          autonomous_turns = autonomous_turns_after_conductor_batch r.events l.autonomous_turns;
        });
        dispatch_batch_state = dispatch_batch_state_after_send r.source_key;
      },
      at_top,
    )

-- What the wait comes back with, which is nothing if it is aborted.
unfoldable pub end_wait : Option DispatchBatchResult → Locals → Locals × Place
unfolding dispatch interrupt_loop
end_wait none l = interrupt_loop l
end_wait (some r) l = dispatch r l

-- `context` is the text of the question of the turn limit.
module _ (decimal : ℕ → String) (options : LoopOptions) where
  unfoldable pub ensure_question : ℕ → String → LoopSession → Locals → LoopSession
  ensure_question now context s l =
      if is_max_turns_limited options.max_turns
        && not (lt_int (pos l.autonomous_turns) options.max_turns)
      then record s {
        questions = (ensure_max_turns_open_question decimal now context s.questions).0;
      }
      else s

  unfoldable pub can_evaluate_stop : LoopSession → Bool
  can_evaluate_stop s =
      is_empty s.queue
      && s.around.running_count == 0
      && (is_empty s.hold.held_events || options.stop_on_unanswered_input)

  unfoldable pub evaluate_idle : LoopSession → Locals → Locals × Place
  unfolding can_evaluate_stop
  evaluate_idle s l =
      if can_evaluate_stop s
      then (let r =
            should_break_after_loop_state options s (build_issue_loop_stop_input options s l) l in
          (r.0, after_idle r.1))
      else (l, at_wait)

  unfoldable pub enter_with :
      ℕ → String → Option Send → LoopSession → Locals → LoopSession × Locals × Place
  unfolding ensure_question evaluate_idle
  enter_with now context (some send) s l = (s, l, at_send)
  enter_with now context none s l =
      let asked = ensure_question now context s l in
      let r = evaluate_idle asked l in (asked, r.0, r.1)

  -- From the top of the loop to its next `await`.
  unfoldable pub enter : ℕ → String → LoopSession → Locals → LoopSession × Locals × Place
  unfolding prune_with enter_with
  enter now context s l =
      enter_with now context l.in_flight (prune_with s.around.is_permission_pending s) l
