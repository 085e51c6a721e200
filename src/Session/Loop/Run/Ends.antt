-- ===== src/Session/Loop/Run/Ends.antt =====
-- How a run of the loop ends.
use Prim.Native.String.{String}
use agents_ensemble.Base.{
  ℕ, ◌≡◌, ◌⊎◌, refl, Bool, true, false, inl, inr, not, ◌||◌, ◌==◌, Option, none, some, List,
  if_intro, arith,
}
use agents_ensemble.Session.Event.{SessionEvent}
use agents_ensemble.Session.Policy.{
  interrupted, should_stop_issue_loop, resolve_issue_loop_stop_reason,
}
use agents_ensemble.Session.Policy.Laws.{should_stop_issue_loop_iff}
use agents_ensemble.Session.Driver.{DispatchBatchResult}
use agents_ensemble.Session.Loop.{
  LoopOptions, LoopSession, Send, Locals, Place, at_initial_send, at_top, at_send, draining_idle,
  at_wait, at_reconnect, ended, draining_after_send, build_issue_loop_stop_input,
}
use agents_ensemble.Session.Loop.Stop.{
  Break, breaks, goes_on, drains, stop_or_stay, should_break_after_loop_state, break_after_drain,
  hold_blocks_stop, can_have_pending_worker_outcome, has_dispatchable_worker_outcome,
}
use agents_ensemble.Session.Loop.Turn.{
  SendEnd, send_threw, send_ended, complete_send, end_initial_send, prune_with, evaluate_sent,
  end_send, sent_drained, idle_drained, is_interrupted, idle_message_ready, interrupt_loop,
  dispatch, end_wait, evaluate_idle, can_evaluate_stop, ensure_question, enter_with, enter,
  is_reconnect, after_idle, after_send,
}
use agents_ensemble.Session.Loop.Run.{
  waited, is_over, Run, begins, resumes, changes, ends_initial, enters, ends_send, aborts_send,
  drains_sent, drains_idle, waits, reconnects,
}
use agents_ensemble.Session.Loop.Run.Reading.{
  Reading, read_at_end, read_at_entry, last_reading, StopRead,
}

abbrev IsLeft : LoopOptions → Reading → Locals → Type 0
IsLeft options reading l =
    (options.continue_after_issue_loop_stop ≡ false) × StopRead options reading l

abbrev LeavesRight : LoopOptions → Reading → Locals × Break → Type 0
LeavesRight options reading r =
    (r.1 ≡ drains → StopRead options reading r.0) × (r.1 ≡ breaks → IsLeft options reading r.0)

stop_or_stay-LeavesRight :
    (options : LoopOptions) (reading : Reading) (l : Locals)
    → StopRead options reading l
    → LeavesRight options reading (stop_or_stay options l)
unfolding stop_or_stay
stop_or_stay-LeavesRight options reading l read =
    if_intro (LeavesRight options reading) (not options.continue_after_issue_loop_stop)
      (λ e. (ground arith, λ f. (ground arith, read)))
      (λ e.
        if_intro (LeavesRight options reading) (not l.post_loop_waiting)
          (λ f. (ground arith, ground arith)) (λ f. (ground arith, ground arith)))

should_break-LeavesRight :
    (options : LoopOptions) (s : LoopSession) (l : Locals)
    → LeavesRight options
        (some (s, l))
        (should_break_after_loop_state options s (build_issue_loop_stop_input options s l) l)
unfolding should_break_after_loop_state
should_break-LeavesRight options s l =
    let input = build_issue_loop_stop_input options s l in
    let reading : Reading = some (s, l) in
    let goes : (k : Locals) → LeavesRight options reading (k, goes_on) =
      λ k. (ground arith, ground arith) in
    let read : should_stop_issue_loop input ≡ true
        → StopRead options reading
            (record l { stop_reason = resolve_issue_loop_stop_reason input }) =
      λ e. record {
        session = s;
        locals = l;
        is_read = refl;
        cause = (should_stop_issue_loop_iff input).0 e;
        left = refl;
      } in
    if_intro (LeavesRight options reading) (hold_blocks_stop options s input) (λ e. goes _)
      (λ e.
        if_intro (LeavesRight options reading) (not (should_stop_issue_loop input)) (λ f. goes _)
          (λ f.
            if_intro (LeavesRight options reading) (can_have_pending_worker_outcome input)
              (λ g. ((λ h. read (ground arith)), ground arith))
              (λ g. stop_or_stay-LeavesRight options reading _ (read (ground arith)))))

break_after_drain-LeavesRight :
    (options : LoopOptions) (reading : Reading) (s : LoopSession) (l : Locals)
    → StopRead options reading l
    → LeavesRight options reading (break_after_drain options s l)
unfolding break_after_drain
break_after_drain-LeavesRight options reading s l read =
    if_intro (LeavesRight options reading)
      (has_dispatchable_worker_outcome options s l || not (s.around.running_count == 0))
      (λ e. (ground arith, ground arith)) (λ e. stop_or_stay-LeavesRight options reading l read)

abbrev is_draining : Place → Bool
is_draining draining_idle = true
is_draining (draining_after_send _) = true
is_draining _ = false

abbrev EndsRight : LoopOptions → Reading → Locals × Place → Type 0
EndsRight options reading r =
    (is_draining r.1 ≡ true → StopRead options reading r.0)
    × (r.1 ≡ ended → (r.0.stop_reason ≡ interrupted) ⊎ IsLeft options reading r.0)

-- A place that is neither.
elsewhere :
    (options : LoopOptions) (reading : Reading) (l : Locals) (p : Place)
    → is_draining p ≡ false
    → is_over p ≡ false
    → EndsRight options reading (l, p)
elsewhere options reading l p e f = (ground arith, ground arith)

after_idle-EndsRight :
    (options : LoopOptions) (reading : Reading) (l : Locals) (b : Break)
    → LeavesRight options reading (l, b)
    → EndsRight options reading (l, after_idle b)
after_idle-EndsRight options reading l breaks (d, b) = (ground arith, λ e. inr (b refl))
after_idle-EndsRight options reading l goes_on h = elsewhere options _ l at_wait refl refl
after_idle-EndsRight options reading l drains (d, b) = ((λ e. d refl), ground arith)

after_send-EndsRight :
    (options : LoopOptions) (reading : Reading) (idle_ready : Bool) (l : Locals) (b : Break)
    → LeavesRight options reading (l, b)
    → EndsRight options reading (l, after_send options.stop_on_unanswered_input idle_ready b)
after_send-EndsRight options reading idle_ready l breaks (d, b) =
    if_intro (λ (p : Place). EndsRight options reading (l, p))
      (not idle_ready || options.stop_on_unanswered_input) (λ e. (ground arith, λ f. inr (b refl)))
      (λ e. elsewhere options _ l at_top refl refl)
after_send-EndsRight options reading idle_ready l goes_on h = elsewhere options _ l at_top refl refl
after_send-EndsRight options reading idle_ready l drains (d, b) = ((λ e. d refl), ground arith)

evaluate_sent-EndsRight :
    (options : LoopOptions) (s : LoopSession) (l : Locals)
    → EndsRight options (some (s, l)) (evaluate_sent options s l)
unfolding evaluate_sent
evaluate_sent-EndsRight options s l =
    if_intro (EndsRight options (some (s, l))) (is_interrupted l.last_status s)
      (λ e. elsewhere options _ l at_top refl refl)
      (λ e.
        let r =
          should_break_after_loop_state options s (build_issue_loop_stop_input options s l) l in
        after_send-EndsRight options _ (idle_message_ready options s l) r.0 r.1
          (should_break-LeavesRight options s l))

end_send-EndsRight :
    (options : LoopOptions) (end : SendEnd) (send : Send) (s : LoopSession) (l : Locals)
    → EndsRight options (read_at_end end send s l) (end_send options end send s l)
unfolding end_send
end_send-EndsRight options send_threw send s l = (ground arith, ground arith)
end_send-EndsRight options (send_ended status a b c) send s l =
    evaluate_sent-EndsRight options s (complete_send send status a b c l)

evaluate_idle-EndsRight :
    (decimal : ℕ → String) (options : LoopOptions) (s : LoopSession) (l : Locals)
    → EndsRight options (some (s, l)) (evaluate_idle decimal options s l)
unfolding evaluate_idle
evaluate_idle-EndsRight decimal options s l =
    if_intro (EndsRight options (some (s, l))) (can_evaluate_stop decimal options s)
      (λ e.
        let r =
          should_break_after_loop_state options s (build_issue_loop_stop_input options s l) l in
        after_idle-EndsRight options _ r.0 r.1 (should_break-LeavesRight options s l))
      (λ e. elsewhere options _ l at_wait refl refl)

enter_with-EndsRight :
    (decimal : ℕ → String) (options : LoopOptions) (now : ℕ) (context : String) (send : Option Send)
    (s : LoopSession) (l : Locals)
    → EndsRight options (read_at_entry decimal options now context send s l) (
      (enter_with decimal options now context send s l).1,
      (enter_with decimal options now context send s l).2,
    )
unfolding enter_with
enter_with-EndsRight decimal options now context none s l =
    evaluate_idle-EndsRight decimal options (ensure_question decimal options now context s l) l
enter_with-EndsRight decimal options now context (some send) s l =
    elsewhere options _ l at_send refl refl

end_initial-EndsRight :
    (options : LoopOptions) (end : SendEnd) (send : Send) (l : Locals)
    → EndsRight options none (end_initial_send send end l)
unfolding end_initial_send
end_initial-EndsRight options send_threw send l = (ground arith, ground arith)
end_initial-EndsRight options (send_ended status a b c) send l =
    elsewhere options _ _ at_top refl refl

end_wait-EndsRight :
    (options : LoopOptions) (r : Option DispatchBatchResult) (l : Locals)
    → EndsRight options none (end_wait r l)
unfolding end_wait interrupt_loop dispatch
end_wait-EndsRight options none l = (ground arith, λ e. inl refl)
end_wait-EndsRight options (some r) l =
    if_intro (EndsRight options none) (is_reconnect r.source_key)
      (λ e. elsewhere options _ _ at_reconnect refl refl)
      (λ e. elsewhere options _ _ at_top refl refl)

Run-EndsRight :
    (decimal : ℕ → String) (options : LoopOptions) (base : ℕ) {sent : List (List SessionEvent)}
    {s : LoopSession} {l : Locals} {p : Place} (run : Run decimal options base sent s l p)
    → EndsRight options (last_reading decimal options base run) (l, p)
unfolding enter interrupt_loop sent_drained idle_drained
Run-EndsRight decimal options base (begins s e) = elsewhere options _ _ at_initial_send refl refl
Run-EndsRight decimal options base (resumes s store e) = elsewhere options _ _ at_top refl refl
Run-EndsRight decimal options base (changes t e run) = Run-EndsRight decimal options base run
Run-EndsRight decimal options base (ends_initial end send {l = l} e run) =
    end_initial-EndsRight options end send l
Run-EndsRight decimal options base (enters now context {s = s} {l = l} run) =
    enter_with-EndsRight decimal options now context l.in_flight
      (prune_with s.around.is_permission_pending s) l
Run-EndsRight decimal options base (ends_send end send {s = s} {l = l} e run) =
    end_send-EndsRight options end send s l
Run-EndsRight decimal options base (aborts_send run) = (ground arith, λ e. inl refl)
Run-EndsRight decimal options base (drains_sent idle_ready {s = s} {l = l} run) =
    let r = break_after_drain options s l in
    after_send-EndsRight options _ idle_ready r.0 r.1 (
      break_after_drain-LeavesRight options _ s l ((Run-EndsRight decimal options base run).0 refl))
Run-EndsRight decimal options base (drains_idle {s = s} {l = l} run) =
    let r = break_after_drain options s l in
    after_idle-EndsRight options _ r.0 r.1 (
      break_after_drain-LeavesRight options _ s l ((Run-EndsRight decimal options base run).0 refl))
Run-EndsRight decimal options base (waits wakes {s = s} {l = l} run) =
    end_wait-EndsRight options (waited options wakes s l).batch l
Run-EndsRight decimal options base (reconnects run) = elsewhere options _ _ at_top refl refl

-- Every run that ends with a result was aborted, or it does not go on after the loop, the last state
-- that this run has evaluated, with nothing done since but the draining of the inbox, has one of the
-- four causes to stop, and the locals it ends with are those of that state with the reason it gives.
-- So a session that goes on after the loop only ends by an abort or an error.
pub Run-ended :
    (decimal : ℕ → String) (options : LoopOptions) (base : ℕ) (sent : List (List SessionEvent))
    (s : LoopSession) (l : Locals) (run : Run decimal options base sent s l ended)
    → (l.stop_reason ≡ interrupted)
      ⊎ ((options.continue_after_issue_loop_stop ≡ false)
          × StopRead options (last_reading decimal options base run) l)
Run-ended decimal options base sent s l run = (Run-EndsRight decimal options base run).1 refl
