-- ===== src/Session/Loop/Stop.antt =====
-- `shouldBreakAfterLoopState` of conductor-session-driver.ts, up to the draining of the inbox and after
-- it.
use agents_ensemble.Base.{
  suc, ◌==◌, Bool, true, false, not, ◌&&◌, ◌||◌, none, filter, is_empty, is_some, get_or_else,
  if◌then◌else◌,
}
use agents_ensemble.Session.Event.{SessionEvent, is_worker_completed, is_worker_failed}
use agents_ensemble.Session.Policy.{
  SendStatus, error, cancelled, finished, IssueLoopStopInput, should_stop_issue_loop,
  resolve_issue_loop_stop_reason,
}
use agents_ensemble.Session.Driver.{select_from}
use agents_ensemble.Session.Loop.{LoopOptions, LoopSession, Locals, wait_input}

-- Whether the loop is left, or goes on, or drains the inbox first.
pub data Break : Type 0 where
  breaks goes_on drains : Break

abbrev pub is_worker_outcome : SessionEvent → Bool
is_worker_outcome event = is_worker_completed event.body || is_worker_failed event.body

unfoldable pub has_dispatchable_worker_outcome : LoopOptions → LoopSession → Locals → Bool
has_dispatchable_worker_outcome options s l =
    is_some (select_from (wait_input options l) none (filter is_worker_outcome s.queue))

abbrev pub is_error_or_cancelled : SendStatus → Bool
is_error_or_cancelled error = true
is_error_or_cancelled cancelled = true
is_error_or_cancelled _ = false

unfoldable pub hold_blocks_stop : LoopOptions → LoopSession → IssueLoopStopInput → Bool
hold_blocks_stop options s input =
    not (is_empty s.hold.held_events)
    && not options.stop_on_unanswered_input
    && not (is_error_or_cancelled input.last_status)

abbrev pub is_finished_status : SendStatus → Bool
is_finished_status finished = true
is_finished_status _ = false

unfoldable pub can_have_pending_worker_outcome : IssueLoopStopInput → Bool
can_have_pending_worker_outcome input =
    is_finished_status input.last_status
    && input.dispatches_this_turn == 0
    && get_or_else input.pending_permissions 0 == 0
    && get_or_else input.open_questions 0 == 0

-- A stop, or the wait after the loop, of which the session is told once.
unfoldable pub stop_or_stay : LoopOptions → Locals → Locals × Break
stop_or_stay options l =
    if not options.continue_after_issue_loop_stop
    then (l, breaks)
    else if not l.post_loop_waiting
    then (record l { post_loop_waiting = true; loop_stops = suc l.loop_stops }, goes_on)
    else (l, goes_on)

unfoldable pub should_break_after_loop_state :
    LoopOptions → LoopSession → IssueLoopStopInput → Locals → Locals × Break
unfolding stop_or_stay
should_break_after_loop_state options s input l =
    let l' : Locals = record l { stop_reason = resolve_issue_loop_stop_reason input } in
    if hold_blocks_stop options s input
    then (record l' { post_loop_waiting = false }, goes_on)
    else if not (should_stop_issue_loop input)
    then (record l' { post_loop_waiting = false }, goes_on)
    else if can_have_pending_worker_outcome input
    then (l', drains)
    else stop_or_stay options l'

unfoldable pub break_after_drain : LoopOptions → LoopSession → Locals → Locals × Break
unfolding stop_or_stay has_dispatchable_worker_outcome
break_after_drain options s l =
    if has_dispatchable_worker_outcome options s l || not (s.around.running_count == 0)
    then (record l { post_loop_waiting = false }, goes_on)
    else stop_or_stay options l
