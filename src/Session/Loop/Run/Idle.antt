-- ===== src/Session/Loop/Run/Idle.antt =====
-- What is left to do when a run of the loop is complete.
use Prim.Native.String.{String}
use agents_ensemble.Base.{
  ℕ, ◌≡◌, refl, Bool, true, false, not, ◌||◌, ◌==◌, ==_iff, Option, none, some, List, if_intro,
  arith,
}
use agents_ensemble.Session.Event.{SessionEvent}
use agents_ensemble.Session.Policy.{
  completed, IssueLoopStopInput, should_stop_issue_loop, resolve_issue_loop_stop_reason,
}
use agents_ensemble.Session.Policy.Laws.{
  StopCause, was_cancelled, failed, unanswered, idle, should_stop_issue_loop_iff,
}
use agents_ensemble.Session.Driver.{DispatchBatchResult}
use agents_ensemble.Session.Loop.{
  LoopOptions, LoopSession, Send, Locals, Place, ended, build_issue_loop_stop_input,
}
use agents_ensemble.Session.Loop.Stop.{
  Break, breaks, goes_on, drains, stop_or_stay, should_break_after_loop_state, break_after_drain,
  hold_blocks_stop, can_have_pending_worker_outcome, has_dispatchable_worker_outcome,
}
use agents_ensemble.Session.Loop.Turn.{
  SendEnd, send_threw, send_ended, complete_send, end_initial_send, prune_with, evaluate_sent,
  end_send, sent_drained, idle_drained, is_interrupted, idle_message_ready, interrupt_loop,
  dispatch, end_wait, evaluate_idle, can_evaluate_stop, ensure_question, enter_with, enter,
  is_reconnect, after_idle, after_send,
}
use agents_ensemble.Session.Loop.Run.{
  waited, Run, begins, resumes, changes, ends_initial, enters, ends_send, aborts_send, drains_sent,
  drains_idle, waits, reconnects,
}

-- No worker runs, and no outcome of a worker is queued that may go out.
abbrev pub IsIdle : LoopOptions → LoopSession → Locals → Type 0
IsIdle options s l =
    (s.around.running_count ≡ 0) × (has_dispatchable_worker_outcome options s l ≡ false)

-- What a complete end of a session that waits for unanswered input comes with.
abbrev IsQuietEnd : LoopOptions → LoopSession → Locals → Type 0
IsQuietEnd options s l =
    l.stop_reason ≡ completed → options.stop_on_unanswered_input ≡ false → IsIdle options s l

abbrev QuietBreak : LoopOptions → LoopSession → Locals × Break → Type 0
QuietBreak options s r = r.1 ≡ breaks → IsQuietEnd options s r.0

abbrev QuietPlace : LoopOptions → LoopSession → Locals × Place → Type 0
QuietPlace options s r = r.1 ≡ ended → IsQuietEnd options s r.0

-- A complete run with nothing to answer may have an outcome under way.
pending_of_completed :
    (options : LoopOptions) (input : IssueLoopStopInput)
    → StopCause input
    → input.stop_on_unanswered_input ≡ false
    → resolve_issue_loop_stop_reason input ≡ completed
    → can_have_pending_worker_outcome input ≡ true
unfolding resolve_issue_loop_stop_reason can_have_pending_worker_outcome
pending_of_completed options input (was_cancelled e) u f = ground arith
pending_of_completed options input (failed e c) u f = ground arith
pending_of_completed options input (unanswered a b c d) u f = ground arith
pending_of_completed options input (idle e (a, b, c, d)) u f = ground arith

stop_or_stay-QuietBreak :
    (options : LoopOptions) (s : LoopSession) (l : Locals)
    → IsQuietEnd options s l
    → QuietBreak options s (stop_or_stay options l)
unfolding stop_or_stay
stop_or_stay-QuietBreak options s l h =
    if_intro (QuietBreak options s) (not options.continue_after_issue_loop_stop) (λ e f. h)
      (λ e.
        if_intro (QuietBreak options s) (not l.post_loop_waiting) (λ f. ground arith)
          (λ f. ground arith))

should_break-QuietBreak :
    (options : LoopOptions) (t s : LoopSession) (l : Locals)
    → QuietBreak options t
        (should_break_after_loop_state options s (build_issue_loop_stop_input options s l) l)
unfolding should_break_after_loop_state build_issue_loop_stop_input
should_break-QuietBreak options t s l =
    let input = build_issue_loop_stop_input options s l in
    let k : Locals = record l { stop_reason = resolve_issue_loop_stop_reason input } in
    if_intro (QuietBreak options t) (hold_blocks_stop options s input) (λ e. ground arith)
      (λ e.
        if_intro (QuietBreak options t) (not (should_stop_issue_loop input)) (λ f. ground arith)
          (λ f.
            if_intro (QuietBreak options t) (can_have_pending_worker_outcome input)
              (λ g. ground arith)
              (λ g. stop_or_stay-QuietBreak options t k (λ reason u. absurd (
                no_pending g (
                  pending_of_completed options input
                    ((should_stop_issue_loop_iff input).0 (ground arith)) u reason))))))
  where
    no_pending : {b : Bool} → b ≡ false → ¬ (b ≡ true)
    no_pending e f = ground arith

break_after_drain-QuietBreak :
    (options : LoopOptions) (s : LoopSession) (l : Locals)
    → QuietBreak options s (break_after_drain options s l)
unfolding break_after_drain
break_after_drain-QuietBreak options s l =
    if_intro (QuietBreak options s)
      (has_dispatchable_worker_outcome options s l || not (s.around.running_count == 0))
      (λ e. ground arith)
      (λ e.
        stop_or_stay-QuietBreak options s l
          (λ reason u. ((==_iff s.around.running_count 0).0 (ground arith), ground arith)))

after_idle-QuietPlace :
    (options : LoopOptions) (s : LoopSession) (l : Locals) (b : Break)
    → QuietBreak options s (l, b)
    → QuietPlace options s (l, after_idle b)
after_idle-QuietPlace options s l breaks h e = h refl
after_idle-QuietPlace options s l goes_on h e = ground arith
after_idle-QuietPlace options s l drains h e = ground arith

after_send-QuietPlace :
    (options : LoopOptions) (s : LoopSession) (idle_ready : Bool) (l : Locals) (b : Break)
    → QuietBreak options s (l, b)
    → QuietPlace options s (l, after_send options.stop_on_unanswered_input idle_ready b)
after_send-QuietPlace options s idle_ready l breaks h e = h refl
after_send-QuietPlace options s idle_ready l goes_on h e = ground arith
after_send-QuietPlace options s idle_ready l drains h e = ground arith

evaluate_sent-QuietPlace :
    (options : LoopOptions) (s : LoopSession) (l : Locals)
    → QuietPlace options s (evaluate_sent options s l)
unfolding evaluate_sent
evaluate_sent-QuietPlace options s l =
    if_intro (QuietPlace options s) (is_interrupted l.last_status s) (λ e. ground arith)
      (λ e.
        let r =
          should_break_after_loop_state options s (build_issue_loop_stop_input options s l) l in
        after_send-QuietPlace options s (idle_message_ready options s l) r.0 r.1
          (should_break-QuietBreak options s s l))

end_send-QuietPlace :
    (options : LoopOptions) (end : SendEnd) (send : Send) (s : LoopSession) (l : Locals)
    → QuietPlace options s (end_send options end send s l)
unfolding end_send
end_send-QuietPlace options send_threw send s l = ground arith
end_send-QuietPlace options (send_ended status a b c) send s l =
    evaluate_sent-QuietPlace options s (complete_send send status a b c l)

enter_with-QuietPlace :
    (decimal : ℕ → String) (options : LoopOptions) (now : ℕ) (context : String) (send : Option Send)
    (s t : LoopSession) (l : Locals)
    → QuietPlace options t (
      (enter_with decimal options now context send s l).1,
      (enter_with decimal options now context send s l).2,
    )
unfolding enter_with evaluate_idle
enter_with-QuietPlace decimal options now context none s t l =
    let asked = ensure_question decimal options now context s l in
    if_intro (QuietPlace options t) (can_evaluate_stop decimal options asked)
      (λ e.
        let r =
          should_break_after_loop_state options asked (build_issue_loop_stop_input options asked l)
            l in
        after_idle-QuietPlace options t r.0 r.1 (should_break-QuietBreak options t asked l))
      (λ e. ground arith)
enter_with-QuietPlace decimal options now context (some send) s t l = ground arith

end_initial-QuietPlace :
    (options : LoopOptions) (s : LoopSession) (end : SendEnd) (send : Send) (l : Locals)
    → QuietPlace options s (end_initial_send send end l)
unfolding end_initial_send
end_initial-QuietPlace options s send_threw send l = ground arith
end_initial-QuietPlace options s (send_ended status a b c) send l = ground arith

end_wait-QuietPlace :
    (options : LoopOptions) (s : LoopSession) (r : Option DispatchBatchResult) (l : Locals)
    → QuietPlace options s (end_wait r l)
unfolding end_wait interrupt_loop dispatch
end_wait-QuietPlace options s none l = ground arith
end_wait-QuietPlace options s (some r) l =
    if_intro (QuietPlace options s) (is_reconnect r.source_key) (λ e. ground arith)
      (λ e. ground arith)

Run-QuietPlace :
    (decimal : ℕ → String) (options : LoopOptions) (base : ℕ) {sent : List (List SessionEvent)}
    {s : LoopSession} {l : Locals} {p : Place}
    → Run decimal options base sent s l p
    → QuietPlace options s (l, p)
unfolding enter interrupt_loop sent_drained idle_drained
Run-QuietPlace decimal options base (begins s e) = ground arith
Run-QuietPlace decimal options base (resumes s store e) = ground arith
Run-QuietPlace decimal options base (changes t e run) = ground arith
Run-QuietPlace decimal options base (ends_initial end send {s = s} {l = l} e run) =
    end_initial-QuietPlace options s end send l
Run-QuietPlace decimal options base (enters now context {s = s} {l = l} run) =
    enter_with-QuietPlace decimal options now context l.in_flight
      (prune_with s.around.is_permission_pending s) _ l
Run-QuietPlace decimal options base (ends_send end send {s = s} {l = l} e run) =
    end_send-QuietPlace options end send s l
Run-QuietPlace decimal options base (aborts_send run) = ground arith
Run-QuietPlace decimal options base (drains_sent idle_ready {s = s} {l = l} run) =
    let r = break_after_drain options s l in
    after_send-QuietPlace options s idle_ready r.0 r.1 (break_after_drain-QuietBreak options s l)
Run-QuietPlace decimal options base (drains_idle {s = s} {l = l} run) =
    let r = break_after_drain options s l in
    after_idle-QuietPlace options s r.0 r.1 (break_after_drain-QuietBreak options s l)
Run-QuietPlace decimal options base (waits wakes {s = s} {l = l} run) =
    end_wait-QuietPlace options _ (waited options wakes s l).batch l
Run-QuietPlace decimal options base (reconnects run) = ground arith

-- A run that ends as complete, in a session that waits for unanswered input, leaves no worker running
-- and no outcome of a worker in the queue that could still be sent, also none that came up while the
-- inbox was drained.
pub Run-completed :
    (decimal : ℕ → String) (options : LoopOptions) (base : ℕ) (sent : List (List SessionEvent))
    (s : LoopSession) (l : Locals)
    → Run decimal options base sent s l ended
    → l.stop_reason ≡ completed
    → options.stop_on_unanswered_input ≡ false
    → IsIdle options s l
Run-completed decimal options base sent s l run = Run-QuietPlace decimal options base run refl
