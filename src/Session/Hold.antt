-- ===== src/Session/Hold.antt =====
-- packages/core/src/conductor/session/dispatch-hold.ts and packages/core/src/dispatch/
-- set-dispatch-hold-tool.ts with the `onBeforeRelease` of conductor-session.ts: the buffer in which
-- work events are held back. The calls of `onChanged` are the list `changes`, in their order.
pub mod Laws
pub mod Release
use Prim.Native.String.{String}
use agents_ensemble.Base.{
  ℕ, ◌+◌, ◌-◌, Bool, true, false, not, ◌&&◌, ◌||◌, Option, none, some, List, [], ◌∷◌, ◌++◌, filter,
  is_empty, length, ltb, ◌==◌, if◌then◌else◌,
}
use agents_ensemble.Session.Event.{
  EventBody, permission_pending, SessionEvent, is_trigger_session_event, is_operator_message,
  is_operator_reconnect, is_permission_stall, is_connectivity_recovered,
}
use agents_ensemble.Session.Batch.{has_event}

pub record DispatchHoldState : Type 0 where
  pub dispatch_hold : Bool
  pub held_events : List SessionEvent

pub data DispatchHoldChangeStatus : Type 0 where
  enabled updated released : DispatchHoldChangeStatus

pub record DispatchHoldChange : Type 0 where
  pub status : DispatchHoldChangeStatus
  pub hold : Bool
  pub held_event_count : ℕ
  pub flushed_event_count : Option ℕ

unfoldable pub create_dispatch_hold_state : DispatchHoldState
create_dispatch_hold_state = record { dispatch_hold = false; held_events = [] }

-- The state, the queue's events, the changes that were reported and the number returned.
pub record HoldStep : Type 0 where
  pub state : DispatchHoldState
  pub queue : List SessionEvent
  pub changes : List DispatchHoldChange
  pub count : ℕ

unfoldable pub is_holdable_dispatch_event : SessionEvent → Bool
is_holdable_dispatch_event event =
    is_connectivity_recovered event.body
    || is_trigger_session_event event
      && not (is_operator_message event.body)
      && not (is_operator_reconnect event.body)
      && not (is_permission_stall event.body)

hold_back : List SessionEvent → DispatchHoldState → List SessionEvent → HoldStep
hold_back held state queue =
    let held_events = state.held_events ++ held in
    record {
      state = record state { held_events = held_events };
      queue = filter (λ event. not (has_event held event)) queue;
      changes =
          record {
            status = updated;
            hold = true;
            held_event_count = length held_events;
            flushed_event_count = none;
          }
          ∷ [];
      count = length held;
    }

abbrev unchanged : DispatchHoldState → List SessionEvent → HoldStep
unchanged state queue = record { state = state; queue = queue; changes = []; count = 0 }

unfoldable pub buffer_dispatch_hold_events : DispatchHoldState → List SessionEvent → HoldStep
unfolding hold_back
buffer_dispatch_hold_events state queue =
    if not state.dispatch_hold
    then unchanged state queue
    else let held = filter is_holdable_dispatch_event queue in
      if is_empty held then unchanged state queue else hold_back held state queue

abbrev is_live : (String → Bool) → EventBody → Bool
is_live is_permission_pending (permission_pending permission) = is_permission_pending permission.id
is_live is_permission_pending _ = true

-- The test of `filterActivePermissionEvents`.
unfoldable pub is_active : (String → Bool) → SessionEvent → Bool
is_active is_permission_pending event = is_live is_permission_pending event.body

unfoldable pub prune_stale_permission_events :
    (String → Bool) → DispatchHoldState → List SessionEvent → HoldStep
prune_stale_permission_events is_permission_pending state queue =
    let active_queue = filter (is_active is_permission_pending) queue in
    let active_held = filter (is_active is_permission_pending) state.held_events in
    let removed_from_queue = length queue - length active_queue in
    let removed_from_held = length state.held_events - length active_held in
    record {
      state = if ltb 0 removed_from_held then record state { held_events = active_held } else state;
      queue = if ltb 0 removed_from_queue then active_queue else queue;
      changes =
          if ltb 0 removed_from_held
          then record {
            status = updated;
            hold = state.dispatch_hold;
            held_event_count = length active_held;
            flushed_event_count = none;
          }
            ∷ []
          else [];
      count = removed_from_queue + removed_from_held;
    }

-- `onBeforeRelease` of conductor-session.ts.
unfoldable pub before_release : (String → Bool) → DispatchHoldState → List SessionEvent → HoldStep
before_release is_permission_pending state queue =
    let buffered = buffer_dispatch_hold_events state queue in
    let pruned =
      prune_stale_permission_events is_permission_pending buffered.state buffered.queue in
    record pruned { changes = buffered.changes ++ pruned.changes }

pub record SetDispatchHoldResult : Type 0 where
  pub dispatch_hold : Bool
  pub event_count : ℕ
  pub send_scheduled : Bool

pub data SetDispatchHoldError : Type 0 where
  requires_boolean_hold : SetDispatchHoldError

pub data SetDispatchHoldOutcome : Type 0 where
  failed : SetDispatchHoldError → SetDispatchHoldOutcome
  done : HoldStep → SetDispatchHoldResult → SetDispatchHoldOutcome

hold_on : DispatchHoldState → List SessionEvent → SetDispatchHoldOutcome
hold_on state queue =
    done
      (record {
        state = record state { dispatch_hold = true };
        queue = queue;
        changes =
            record {
              status = if state.dispatch_hold then updated else enabled;
              hold = true;
              held_event_count = length state.held_events;
              flushed_event_count = none;
            }
            ∷ [];
        count = 0;
      })
      (record {
        dispatch_hold = true;
        event_count = length state.held_events;
        send_scheduled = false;
      })

hold_off : (String → Bool) → DispatchHoldState → List SessionEvent → SetDispatchHoldOutcome
unfolding before_release
hold_off is_permission_pending state queue =
    let before = before_release is_permission_pending state queue in
    let flushed = length before.state.held_events in
    done
      (record before {
        state = record { dispatch_hold = false; held_events = before.state.held_events };
        changes =
            before.changes
            ++ record {
              status = released;
              hold = false;
              held_event_count = flushed;
              flushed_event_count = some flushed;
            }
              ∷ [];
      })
      (record { dispatch_hold = false; event_count = flushed; send_scheduled = ltb 0 flushed })

-- `args.hold`, or `none` for a value that is no Boolean.
unfoldable pub set_dispatch_hold :
    (String → Bool) → Option Bool → DispatchHoldState → List SessionEvent → SetDispatchHoldOutcome
unfolding hold_on hold_off
set_dispatch_hold is_permission_pending none state queue = failed requires_boolean_hold
set_dispatch_hold is_permission_pending (some true) state queue = hold_on state queue
set_dispatch_hold is_permission_pending (some false) state queue =
    hold_off is_permission_pending state queue
