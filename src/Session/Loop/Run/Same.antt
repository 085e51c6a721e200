-- ===== src/Session/Loop/Run/Same.antt =====
-- What the steps of a run of the loop leave as it is of the sends and their counters.
use Prim.Native.String.{String}
use agents_ensemble.Base.{
  ℕ, ◌≡◌, refl, ◌∙◌, Bool, true, false, not, ◌||◌, ◌==◌, Option, none, some, List, if_intro, arith,
}
use agents_ensemble.Session.Event.{SessionEvent}
use agents_ensemble.Session.Policy.{IssueLoopStopInput, should_stop_issue_loop}
use agents_ensemble.Session.Driver.{DispatchBatchResult}
use agents_ensemble.Session.Loop.{
  LoopOptions, LoopSession, Send, Locals, Place, draining_idle, at_wait, at_reconnect,
  draining_after_send, build_issue_loop_stop_input,
}
use agents_ensemble.Session.Loop.Stop.{
  Break, stop_or_stay, should_break_after_loop_state, break_after_drain, hold_blocks_stop,
  can_have_pending_worker_outcome, has_dispatchable_worker_outcome,
}
use agents_ensemble.Session.Loop.Turn.{
  SendEnd, send_threw, send_ended, complete_send, end_initial_send, prune_with, evaluate_sent,
  end_send, sent_drained, idle_drained, is_interrupted, interrupt_loop, dispatch, end_wait,
  evaluate_idle, can_evaluate_stop, ensure_question, enter_with, enter, is_reconnect,
}
use agents_ensemble.Session.Loop.Run.{
  waited, Run, begins, resumes, changes, ends_initial, enters, ends_send, aborts_send, drains_sent,
  drains_idle, waits, reconnects,
}

-- The send in flight and the counters are the same.
abbrev pub IsSame : Locals → Locals → Type 0
IsSame l k =
    (k.in_flight ≡ l.in_flight)
    × (k.send_count ≡ l.send_count)
    × (k.autonomous_turns ≡ l.autonomous_turns)

abbrev pub same_locals : (l : Locals) → IsSame l l
same_locals l = (refl, refl, refl)

abbrev SameBreak : Locals → Locals × Break → Type 0
SameBreak l r = IsSame l r.0

stop_or_stay-SameBreak :
    (options : LoopOptions) (l k : Locals) → IsSame l k → SameBreak l (stop_or_stay options k)
unfolding stop_or_stay
stop_or_stay-SameBreak options l k h =
    if_intro (SameBreak l) (not options.continue_after_issue_loop_stop) (λ e. h)
      (λ e. if_intro (SameBreak l) (not k.post_loop_waiting) (λ f. h) (λ f. h))

should_break-SameBreak :
    (options : LoopOptions) (s : LoopSession) (input : IssueLoopStopInput) (l : Locals)
    → SameBreak l (should_break_after_loop_state options s input l)
unfolding should_break_after_loop_state
should_break-SameBreak options s input l =
    if_intro (SameBreak l) (hold_blocks_stop options s input) (λ e. same_locals l)
      (λ e.
        if_intro (SameBreak l) (not (should_stop_issue_loop input)) (λ f. same_locals l)
          (λ f.
            if_intro (SameBreak l) (can_have_pending_worker_outcome input) (λ g. same_locals l)
              (λ g. stop_or_stay-SameBreak options l _ (same_locals l))))

pub break_after_drain-SameBreak :
    (options : LoopOptions) (s : LoopSession) (l : Locals)
    → SameBreak l (break_after_drain options s l)
unfolding break_after_drain
break_after_drain-SameBreak options s l =
    if_intro (SameBreak l)
      (has_dispatchable_worker_outcome options s l || not (s.around.running_count == 0))
      (λ e. same_locals l) (λ e. stop_or_stay-SameBreak options l l (same_locals l))

abbrev SamePlace : Locals → Locals × Place → Type 0
SamePlace l r = IsSame l r.0

pub evaluate_sent-SamePlace :
    (options : LoopOptions) (s : LoopSession) (l : Locals) → SamePlace l (evaluate_sent options s l)
unfolding evaluate_sent
evaluate_sent-SamePlace options s l =
    if_intro (SamePlace l) (is_interrupted l.last_status s) (λ e. same_locals l)
      (λ e. should_break-SameBreak options s (build_issue_loop_stop_input options s l) l)

evaluate_idle-SamePlace :
    (decimal : ℕ → String) (options : LoopOptions) (s : LoopSession) (l : Locals)
    → SamePlace l (evaluate_idle decimal options s l)
unfolding evaluate_idle
evaluate_idle-SamePlace decimal options s l =
    if_intro (SamePlace l) (can_evaluate_stop decimal options s)
      (λ e. should_break-SameBreak options s (build_issue_loop_stop_input options s l) l)
      (λ e. same_locals l)

enter_with-IsSame :
    (decimal : ℕ → String) (options : LoopOptions) (now : ℕ) (context : String) (send : Option Send)
    (s : LoopSession) (l : Locals)
    → IsSame l (enter_with decimal options now context send s l).1
unfolding enter_with
enter_with-IsSame decimal options now context none s l =
    evaluate_idle-SamePlace decimal options (ensure_question decimal options now context s l) l
enter_with-IsSame decimal options now context (some send) s l = same_locals l

pub enter-IsSame :
    (decimal : ℕ → String) (options : LoopOptions) (now : ℕ) (context : String) (s : LoopSession)
    (l : Locals)
    → IsSame l (enter decimal options now context s l).1
unfolding enter
enter-IsSame decimal options now context s l =
    enter_with-IsSame decimal options now context l.in_flight
      (prune_with s.around.is_permission_pending s) l

-- No send is in flight while the loop drains the inbox, waits for a batch or reconnects.
abbrev pub needs_none : Place → Bool
needs_none draining_idle = true
needs_none at_wait = true
needs_none at_reconnect = true
needs_none (draining_after_send _) = true
needs_none _ = false

abbrev IsPlaced : Locals → Place → Type 0
IsPlaced l p = needs_none p ≡ true → l.in_flight ≡ none

true_is_not_false : ¬ (false ≡ true)
true_is_not_false = ground arith

enter_with-IsPlaced :
    (decimal : ℕ → String) (options : LoopOptions) (now : ℕ) (context : String) (send : Option Send)
    (s : LoopSession) (l : Locals)
    → l.in_flight ≡ send
    → IsPlaced
        (enter_with decimal options now context send s l).1
        (enter_with decimal options now context send s l).2
unfolding enter_with
enter_with-IsPlaced decimal options now context none s l e h =
    (enter_with-IsSame decimal options now context none s l).0 ∙ e
enter_with-IsPlaced decimal options now context (some send) s l e h = absurd (true_is_not_false h)

end_send-IsPlaced :
    (options : LoopOptions) (end : SendEnd) (send : Send) (s : LoopSession) (l : Locals)
    → IsPlaced (end_send options end send s l).0 (end_send options end send s l).1
unfolding end_send complete_send
end_send-IsPlaced options send_threw send s l h = absurd (true_is_not_false h)
end_send-IsPlaced options (send_ended status a b c) send s l h =
    (evaluate_sent-SamePlace options s (complete_send send status a b c l)).0

end_initial-IsPlaced :
    (end : SendEnd) (send : Send) (l : Locals)
    → IsPlaced (end_initial_send send end l).0 (end_initial_send send end l).1
unfolding end_initial_send
end_initial-IsPlaced send_threw send l h = absurd (true_is_not_false h)
end_initial-IsPlaced (send_ended status a b c) send l h = absurd (true_is_not_false h)

end_wait-IsPlaced :
    (r : Option DispatchBatchResult) (l : Locals)
    → l.in_flight ≡ none
    → IsPlaced (end_wait r l).0 (end_wait r l).1
unfolding end_wait interrupt_loop dispatch
end_wait-IsPlaced none l e h = absurd (true_is_not_false h)
end_wait-IsPlaced (some r) l e h =
    if_intro (λ (q : Locals × Place). IsPlaced q.0 q.1) (is_reconnect r.source_key) (λ f k. e)
      (λ f k. absurd (true_is_not_false k)) h

-- No send is in flight where the loop takes a batch.
pub Run-in_flight :
    (decimal : ℕ → String) (options : LoopOptions) (base : ℕ) {sent : List (List SessionEvent)}
    {s : LoopSession} {l : Locals} {p : Place}
    → Run decimal options base sent s l p
    → needs_none p ≡ true
    → l.in_flight ≡ none
unfolding enter interrupt_loop sent_drained idle_drained
Run-in_flight decimal options base (begins s e) h = absurd (true_is_not_false h)
Run-in_flight decimal options base (resumes s store e) h = absurd (true_is_not_false h)
Run-in_flight decimal options base (changes t e run) h = Run-in_flight decimal options base run h
Run-in_flight decimal options base (ends_initial end send {l = l} e run) h =
    end_initial-IsPlaced end send l h
Run-in_flight decimal options base (enters now context {s = s} {l = l} run) h =
    enter_with-IsPlaced decimal options now context l.in_flight
      (prune_with s.around.is_permission_pending s) l refl h
Run-in_flight decimal options base (ends_send end send {s = s} {l = l} e run) h =
    end_send-IsPlaced options end send s l h
Run-in_flight decimal options base (aborts_send run) h = absurd (true_is_not_false h)
Run-in_flight decimal options base (drains_sent idle_ready {s = s} {l = l} run) h =
    (break_after_drain-SameBreak options s l).0 ∙ Run-in_flight decimal options base run refl
Run-in_flight decimal options base (drains_idle {s = s} {l = l} run) h =
    (break_after_drain-SameBreak options s l).0 ∙ Run-in_flight decimal options base run refl
Run-in_flight decimal options base (waits wakes {s = s} {l = l} run) h =
    end_wait-IsPlaced (waited options wakes s l).batch l
      (Run-in_flight decimal options base run refl) h
Run-in_flight decimal options base (reconnects run) h = absurd (true_is_not_false h)
