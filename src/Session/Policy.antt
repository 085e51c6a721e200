-- ===== src/Session/Policy.antt =====
-- packages/core/src/conductor/session-policy.ts: when the conductor loop stops, what may still be
-- sent past the limit of autonomous turns, and how the turns are counted. `maxTurns` is an integer
-- and `<= 0` is no limit; counters are natural numbers, as the code starts them at 0 and adds 1.
pub mod Laws
use agents_ensemble.Base.{
  ℕ, suc, ◌+◌, Bool, true, false, not, ◌&&◌, ◌||◌, Option, none, some, List, all, any, ltb, ◌==◌,
  if◌then◌else◌, get_or_else,
}
use agents_ensemble.Base.Int.{ℤ, pos, negsuc, lt_int}
use agents_ensemble.Session.Event.{
  EventBody, operator_message, operator_reconnect, permission_pending, permission_stall,
  SessionEvent, is_operator_message, is_operator_reconnect,
}

pub data IssueLoopStopReason : Type 0 where
  completed error cancelled max_turns interrupted : IssueLoopStopReason

-- `ConductorSendResult['status']`, a string: the three that the code tests for, and any other.
pub data SendStatus : Type 0 where
  finished error cancelled other : SendStatus

pub record IssueLoopStopInput : Type 0 where
  pub autonomous_turns : ℕ
  pub max_turns : ℤ
  pub last_status : SendStatus
  pub dispatches_this_turn : ℕ
  pub running_workers : Option ℕ
  pub pending_permissions : Option ℕ
  pub open_questions : Option ℕ
  pub continue_on_conductor_error : Bool
  pub stop_on_unanswered_input : Bool

abbrev pub default_max_issue_turns : ℤ
default_max_issue_turns = pos 5

unfoldable pub resolve_max_turns : Option ℤ → ℤ
resolve_max_turns none = default_max_issue_turns
resolve_max_turns (some limit) = limit

-- `maxTurns > 0`
unfoldable pub is_max_turns_limited : ℤ → Bool
is_max_turns_limited (pos n) = ltb 0 n
is_max_turns_limited (negsuc _) = false

unfoldable pub operator_input_max_turns : ℤ → Option ℤ
unfolding is_max_turns_limited
operator_input_max_turns limit = if is_max_turns_limited limit then some limit else none

-- `(x ?? 0) > 0`
abbrev pub some_left : Option ℕ → Bool
some_left x = ltb 0 (get_or_else x 0)

abbrev is_finished : SendStatus → Bool
is_finished finished = true
is_finished _ = false

-- The part of the decision behind the two early returns on the status.
should_stop_of_status : SendStatus → IssueLoopStopInput → Bool
should_stop_of_status cancelled input = true
should_stop_of_status error input = not input.continue_on_conductor_error
should_stop_of_status status input =
    if input.stop_on_unanswered_input
      && (some_left input.pending_permissions || some_left input.open_questions)
    then true
    else if some_left input.running_workers
    then false
    else if some_left input.pending_permissions
    then false
    else if some_left input.open_questions
    then false
    else input.dispatches_this_turn == 0 && is_finished status

unfoldable pub should_stop_issue_loop : IssueLoopStopInput → Bool
unfolding should_stop_of_status
should_stop_issue_loop input = should_stop_of_status input.last_status input

abbrev reason_of_status : SendStatus → IssueLoopStopReason
reason_of_status cancelled = cancelled
reason_of_status error = error
reason_of_status _ = completed

unfoldable pub resolve_issue_loop_stop_reason : IssueLoopStopInput → IssueLoopStopReason
resolve_issue_loop_stop_reason input = reason_of_status input.last_status

-- The types that go out whatever the number of turns.
abbrev pub passes_turn_limit : EventBody → Bool
passes_turn_limit (operator_message _) = true
passes_turn_limit operator_reconnect = true
passes_turn_limit (permission_pending _) = true
passes_turn_limit (permission_stall _) = true
passes_turn_limit _ = false

unfoldable pub can_dispatch_conductor_send : SessionEvent → ℕ → ℤ → Bool
unfolding is_max_turns_limited
can_dispatch_conductor_send event autonomous_turns limit =
    if passes_turn_limit event.body
    then true
    else if not (is_max_turns_limited limit)
    then true
    else lt_int (pos autonomous_turns) limit

unfoldable pub autonomous_turns_after_conductor_send : SessionEvent → ℕ → ℕ
autonomous_turns_after_conductor_send event autonomous_turns =
    if is_operator_message event.body then 0 else autonomous_turns + 1

unfoldable pub autonomous_turns_after_conductor_batch : List SessionEvent → ℕ → ℕ
autonomous_turns_after_conductor_batch events autonomous_turns =
    if all (λ event. is_operator_reconnect event.body) events
    then autonomous_turns
    else if any (λ event. is_operator_message event.body) events
    then 0
    else autonomous_turns + 1
