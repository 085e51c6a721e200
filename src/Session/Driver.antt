-- ===== src/Session/Driver.antt =====
-- packages/core/src/conductor/conductor-session-driver.ts, `waitForDispatchBatch`: what the driver
-- sends next. A round buffers, prunes and selects without a pause; between two rounds the driver
-- waits, and `Wake` is what it finds when it goes on.
pub mod Round
pub mod Limits
pub mod Arrivals
use Prim.Native.String.{String}
use agents_ensemble.Base.{
  ℕ, suc, ◌+◌, Bool, true, false, not, ◌&&◌, ◌||◌, Option, none, some, List, [], ◌∷◌, ◌++◌, all,
  filter, is_empty, is_some, length, ltb, if◌then◌else◌,
}
use agents_ensemble.Base.Int.{ℤ}
use agents_ensemble.Session.Event.{SessionEvent, is_operator_message, is_operator_reconnect}
use agents_ensemble.Session.Policy.{can_dispatch_conductor_send}
use agents_ensemble.Session.Batch.{
  DispatchSourceKey, operator, reconnect, permission, dispatch_hold, DispatchBatchState,
  SelectDispatchBatchInput, SelectDispatchBatchResult, select_dispatch_batch,
}
use agents_ensemble.Session.Hold.{
  DispatchHoldState, DispatchHoldChangeStatus, updated, DispatchHoldChange,
  buffer_dispatch_hold_events, prune_stale_permission_events,
}

-- What a call of `waitForDispatchBatch` is given and no round changes.
pub record WaitInput : Type 0 where
  pub dispatch_batch_state : DispatchBatchState
  pub autonomous_turns : ℕ
  pub max_turns : ℤ

-- What the rest of the session shows to a round: the workers that run and, if the option is given,
-- the permissions that are pending.
pub record Surroundings : Type 0 where
  pub running_count : ℕ
  pub is_permission_pending : Option (String → Bool)

abbrev pub select_input : WaitInput → Option Bool → List SessionEvent → SelectDispatchBatchInput
select_input input allow queue = record {
  queue = queue;
  state = input.dispatch_batch_state;
  autonomous_turns = input.autonomous_turns;
  max_turns = input.max_turns;
  allow_idle_operator_messages = allow;
}

abbrev pub select_from :
    WaitInput → Option Bool → List SessionEvent → Option SelectDispatchBatchResult
select_from input allow queue = select_dispatch_batch (select_input input allow queue)

abbrev pub can_dispatch_all : WaitInput → List SessionEvent → Bool
can_dispatch_all input events =
    all (λ event. can_dispatch_conductor_send event input.autonomous_turns input.max_turns) events

abbrev is_no_operator_event : SessionEvent → Bool
is_no_operator_event event =
    not (is_operator_message event.body) && not (is_operator_reconnect event.body)

unfoldable pub can_dispatch_idle_operator_message :
    WaitInput → Surroundings → DispatchHoldState → List SessionEvent → Bool
can_dispatch_idle_operator_message input around hold queue =
    if ltb 0 around.running_count
    then false
    else if not hold.dispatch_hold
        && not (is_empty hold.held_events)
        && (can_dispatch_all input hold.held_events
            || is_some (select_from input none hold.held_events))
    then false
    else not (is_some (select_from input none (filter is_no_operator_event queue)))

unfoldable pub is_immediate_dispatch_source : DispatchSourceKey → Bool
is_immediate_dispatch_source operator = true
is_immediate_dispatch_source reconnect = true
is_immediate_dispatch_source permission = true
is_immediate_dispatch_source _ = false

pub record DispatchBatchResult : Type 0 where
  pub events : List SessionEvent
  pub source_key : DispatchSourceKey
  pub selected : Option SelectDispatchBatchResult

-- The hold, the queue and the changes reported after a round, and its batch or `none` for a wait.
pub record RoundResult : Type 0 where
  pub hold : DispatchHoldState
  pub queue : List SessionEvent
  pub changes : List DispatchHoldChange
  pub batch : Option DispatchBatchResult

-- The start of a round: the hold takes its events and stale permissions are dropped.
pub record Prepared : Type 0 where
  pub hold : DispatchHoldState
  pub queue : List SessionEvent
  pub changes : List DispatchHoldChange

pub prune_prepared : Option (String → Bool) → Prepared → Prepared
prune_prepared none p = p
prune_prepared (some is_permission_pending) p =
    let r = prune_stale_permission_events is_permission_pending p.hold p.queue in
    record { hold = r.state; queue = r.queue; changes = p.changes ++ r.changes }

pub prepare : Surroundings → DispatchHoldState → List SessionEvent → Prepared
prepare around hold queue =
    let r = buffer_dispatch_hold_events hold queue in
    prune_prepared around.is_permission_pending
      (record { hold = r.state; queue = r.queue; changes = r.changes })

send_selected : Prepared → SelectDispatchBatchResult → RoundResult
send_selected p selected = record {
  hold = p.hold;
  queue = selected.remaining_queue;
  changes = p.changes;
  batch = some (record {
    events = selected.batch.events;
    source_key = selected.batch.source_key;
    selected = some selected;
  });
}

-- `notifyHeldDispatchProgress`
abbrev progress : DispatchHoldState → DispatchHoldChange
progress hold = record {
  status = updated;
  hold = hold.dispatch_hold;
  held_event_count = length hold.held_events;
  flushed_event_count = none;
}

send_held : Prepared → List SessionEvent → DispatchBatchResult → RoundResult
send_held p still_held batch =
    let hold : DispatchHoldState = record {
      dispatch_hold = p.hold.dispatch_hold;
      held_events = still_held;
    } in
    record {
      hold = hold;
      queue = p.queue;
      changes = p.changes ++ progress hold ∷ [];
      batch = some batch;
    }

-- The end of a round, when no held event goes out.
send_or_wait : Prepared → Option SelectDispatchBatchResult → RoundResult
send_or_wait p (some selected) = send_selected p selected
send_or_wait p none = record { hold = p.hold; queue = p.queue; changes = p.changes; batch = none }

send_selected_held :
    Prepared → Option SelectDispatchBatchResult → Option SelectDispatchBatchResult → RoundResult
send_selected_held p selected none = send_or_wait p selected
send_selected_held p selected (some selected_held) =
    send_held p selected_held.remaining_queue (record {
      events = selected_held.batch.events;
      source_key = selected_held.batch.source_key;
      selected = some selected_held;
    })

abbrev is_immediate : Option SelectDispatchBatchResult → Bool
is_immediate none = false
is_immediate (some selected) = is_immediate_dispatch_source selected.batch.source_key

finish_round : WaitInput → Prepared → Option SelectDispatchBatchResult → RoundResult
finish_round input p selected =
    if is_immediate selected
    then send_or_wait p selected
    else if not p.hold.dispatch_hold && not (is_empty p.hold.held_events)
    then if can_dispatch_all input p.hold.held_events
      then send_held p []
          (record { events = p.hold.held_events; source_key = dispatch_hold; selected = none })
      else send_selected_held p selected (select_from input none p.hold.held_events)
    else send_or_wait p selected

-- One round of the `for (;;)` up to its `await`.
unfoldable pub dispatch_round :
    WaitInput → Surroundings → DispatchHoldState → List SessionEvent → RoundResult
unfolding prepare prune_prepared finish_round send_or_wait send_selected send_held
    send_selected_held
dispatch_round input around hold queue =
    let p = prepare around hold queue in
    finish_round input p (
      select_from input (some (can_dispatch_idle_operator_message input around p.hold p.queue))
        p.queue)

-- What the driver finds after a wait: the event that the waiter got, the events queued since, and
-- the state of the session.
pub record Wake : Type 0 where
  pub incoming : SessionEvent
  pub queued : List SessionEvent
  pub around : Surroundings

-- A round with a batch ends the call; after another the rounds that follow decide.
unfoldable pub end_or_go_on : RoundResult → RoundResult → Option DispatchBatchResult → RoundResult
end_or_go_on r rest (some _) = r
end_or_go_on r rest none = record rest { changes = r.changes ++ rest.changes }

-- The rounds of a call; it ends with a batch, or with `none` if the wait is aborted after the last
-- wake.
unfoldable pub wait_for_dispatch_batch :
    WaitInput → Surroundings → List Wake → DispatchHoldState → List SessionEvent → RoundResult
wait_for_dispatch_batch input around [] hold queue = dispatch_round input around hold queue
wait_for_dispatch_batch input around (wake ∷ wakes) hold queue =
    let r = dispatch_round input around hold queue in
    let rest =
      wait_for_dispatch_batch input wake.around wakes r.hold
        (wake.incoming ∷ (r.queue ++ wake.queued)) in
    end_or_go_on r rest r.batch
