-- ===== src/Session/Policy/Laws.antt =====
-- What session-policy.ts decides.
use agents_ensemble.Base.{
  ℕ, ◌≡◌, ◌⊎◌, ◌↔◌, ◌≢◌, ◌<◌, ◌≤◌, refl, Bool, true, false, Bool-cases, inl, inr, suc, ◌+◌, max,
  not, ◌&&◌, ◌||◌, List, [], ◌∷◌, all, any, All, get_or_else, if◌then◌else◌, arith,
}
use agents_ensemble.Base.Int.{ℤ, pos}
use agents_ensemble.Session.Event.{SessionEvent, is_operator_message, is_operator_reconnect}
use agents_ensemble.Session.Policy.{
  SendStatus, finished, error, cancelled, other, IssueLoopStopInput, some_left,
  should_stop_of_status, should_stop_issue_loop, passes_turn_limit, can_dispatch_conductor_send,
  autonomous_turns_after_conductor_batch,
}

-- Something that the operator has to answer is left.
abbrev pub IsUnanswered : IssueLoopStopInput → Type 0
IsUnanswered input =
    (0 < get_or_else input.pending_permissions 0) ⊎ (0 < get_or_else input.open_questions 0)

abbrev pub IsQuiet : IssueLoopStopInput → Type 0
IsQuiet input =
    (get_or_else input.running_workers 0 ≡ 0)
    × (get_or_else input.pending_permissions 0 ≡ 0)
    × (get_or_else input.open_questions 0 ≡ 0)
    × (input.dispatches_this_turn ≡ 0)

-- The four causes for which the loop ends.
pub data StopCause (input : IssueLoopStopInput) : Type 0 where
  was_cancelled : input.last_status ≡ cancelled → StopCause input
  failed : input.last_status ≡ error → input.continue_on_conductor_error ≡ false → StopCause input
  unanswered :
      input.last_status ≢ cancelled
      → input.last_status ≢ error
      → input.stop_on_unanswered_input ≡ true
      → IsUnanswered input
      → StopCause input
  idle : input.last_status ≡ finished → IsQuiet input → StopCause input

cause_of_stop :
    (status : SendStatus) (input : IssueLoopStopInput)
    → input.last_status ≡ status
    → should_stop_of_status status input ≡ true
    → StopCause input
unfolding should_stop_of_status
cause_of_stop cancelled input e h = was_cancelled e
cause_of_stop error input e h = failed e (ground arith)
cause_of_stop finished input e h =
    elim (Bool-cases (
      input.stop_on_unanswered_input
      && (some_left input.pending_permissions || some_left input.open_questions))) [
        | inl u ↦ unanswered (ground arith) (ground arith) (ground arith) (ground arith)
        | inr answered ↦ idle e (ground arith)
      ]
cause_of_stop other input e h =
    unanswered (ground arith) (ground arith) (ground arith) (ground arith)

stop_of_cause : (input : IssueLoopStopInput) → StopCause input → should_stop_issue_loop input ≡ true
unfolding should_stop_issue_loop
stop_of_cause input (was_cancelled e) = ground arith
stop_of_cause input (failed e c) = ground arith
stop_of_cause input (unanswered a b c d) = ground arith
stop_of_cause input (idle e q) = ground arith

-- The predicate `shouldStopIssueLoop`, one of the tests by which the loop decides, holds exactly for
-- one of four causes: the run was cancelled; it failed and the session does not go on after an error;
-- the session ends at unanswered input and there is some; or the run finished with nothing dispatched,
-- no worker running and nothing to answer.
pub should_stop_issue_loop_iff :
    (input : IssueLoopStopInput) → (should_stop_issue_loop input ≡ true) ↔ StopCause input
unfolding should_stop_issue_loop
should_stop_issue_loop_iff input =
    ((λ h. cause_of_stop input.last_status input refl h), stop_of_cause input)

abbrev pub CanAllDispatch : ℕ → ℤ → List SessionEvent → Type 0
CanAllDispatch turns limit batch = All (λ e. can_dispatch_conductor_send e turns limit ≡ true) batch

-- A batch that the turn limit is meant for: it holds a worker's outcome or a GitHub event.
abbrev pub is_work : List SessionEvent → Bool
is_work batch = any (λ e. not (passes_turn_limit e.body)) batch

abbrev pub has_operator_message : List SessionEvent → Bool
has_operator_message batch = any (λ e. is_operator_message e.body) batch

-- Sends in a row with no operator message among them, from a count of autonomous turns on.
pub data Unattended (limit : ℤ) : ℕ → List (List SessionEvent) → Type 0 where
  stop : {turns : ℕ} → Unattended limit turns []
  send :
      {turns : ℕ} (batch : List SessionEvent) {batches : List (List SessionEvent)}
      → CanAllDispatch turns limit batch
      → has_operator_message batch ≡ false
      → Unattended limit (autonomous_turns_after_conductor_batch batch turns) batches
      → Unattended limit turns (batch ∷ batches)

abbrev pub count_work : List (List SessionEvent) → ℕ
count_work [] = 0
count_work (batch ∷ batches) =
    if is_work batch then suc (count_work batches) else count_work batches

-- A work event goes out only while turns are left.
pub lt-limit_of_work :
    (limit turns : ℕ) (batch : List SessionEvent)
    → 0 < limit
    → CanAllDispatch turns (pos limit) batch
    → is_work batch ≡ true
    → turns < limit
unfolding can_dispatch_conductor_send
lt-limit_of_work limit turns [] h c w = cc
lt-limit_of_work limit turns (e ∷ batch) h (c, cs) w =
    ground (arith, lt-limit_of_work limit turns batch h cs)

not-all_reconnect_of_work :
    (batch : List SessionEvent)
    → is_work batch ≡ true
    → all (λ e. is_operator_reconnect e.body) batch ≡ false
not-all_reconnect_of_work [] w = cc
not-all_reconnect_of_work (e ∷ batch) w = ground (arith, not-all_reconnect_of_work batch)

pub turns_after-ge :
    (batch : List SessionEvent) (turns : ℕ)
    → has_operator_message batch ≡ false
    → turns ≤ autonomous_turns_after_conductor_batch batch turns
unfolding autonomous_turns_after_conductor_batch
turns_after-ge batch turns h = ground arith

pub turns_after_work :
    (batch : List SessionEvent) (turns : ℕ)
    → has_operator_message batch ≡ false
    → is_work batch ≡ true
    → autonomous_turns_after_conductor_batch batch turns ≡ turns + 1
unfolding autonomous_turns_after_conductor_batch
turns_after_work batch turns h w = ground (arith, not-all_reconnect_of_work batch w)

-- With a positive limit, without an operator message and from a count of turns on, at most
-- `limit - turns` sends carry a worker's outcome or a GitHub event, however many permission events
-- and reconnects go out between them; from a count past the limit none does.
pub Unattended-bounded :
    (limit turns : ℕ) (batches : List (List SessionEvent))
    → 0 < limit
    → Unattended (pos limit) turns batches
    → turns + count_work batches ≤ max limit turns
Unattended-bounded limit turns [] h r = omega arith
Unattended-bounded limit turns (batch ∷ batches) h (send _ c n r) =
    let next = autonomous_turns_after_conductor_batch batch turns in
    let ih = Unattended-bounded limit next batches h r in
    elim (Bool-cases (is_work batch)) [
      | inl w ↦ rw w (
          omega
            (arith, lt-limit_of_work limit turns batch h c w, turns_after_work batch turns n w, ih))
      | inr idle_batch ↦ rw idle_batch (omega (arith, turns_after-ge batch turns n, ih))
    ]
