-- ===== src/Tests/Driver.antt =====
-- The queue, the hold and the driver on a few events.
use Prim.Native.String.{String}
use text.Mathlib.Text.{◌==◌ as str_eq}
use mathlib.Core.List.{reverse}
use agents_ensemble.Base.{
  ◌≡◌, ◌+◌, refl, Bool, true, false, not, ◌&&◌, none, some, List, [], ◌∷◌, ◌++◌, filter, map,
  length, All, arith,
}
use agents_ensemble.Base.Int.{pos}
use agents_ensemble.Session.Event.{SessionEvent, is_trigger_session_event}
use agents_ensemble.Session.Batch.Identity.{Coherent}
use agents_ensemble.Session.Queue.{SessionEventQueue, enqueue, dequeue}
use agents_ensemble.Session.Queue.Fifo.{start, arrive, take, IsFifo, Run-IsFifo, empty_queue}
use agents_ensemble.Session.Hold.{
  DispatchHoldState, HoldStep, updated, released, is_holdable_dispatch_event, is_active,
  buffer_dispatch_hold_events, prune_stale_permission_events, SetDispatchHoldResult, done,
  set_dispatch_hold,
}
use agents_ensemble.Session.Hold.Release.{set_dispatch_hold_release}
use agents_ensemble.Session.Driver.{
  WaitInput, Surroundings, Wake, dispatch_round, wait_for_dispatch_batch,
}
use agents_ensemble.Session.Driver.Round.{
  batch_events, count_round, count_if, is_kept, dispatch_round_count,
}
use agents_ensemble.Session.Driver.Limits.{IsSendable, wait_for_dispatch_batch-IsSendable}
use agents_ensemble.Session.Driver.Arrivals.{
  IsBlocked, IsBlockedArrival, incoming_of, no_hold, wait_for_dispatch_batch_reverses,
}
use agents_ensemble.Tests.Data.{done_by, issue_update, said, asked_permission, fresh_state}

abbrev two_events : SessionEventQueue
two_events = record {
  queue = issue_update 1 ∷ done_by 2 "a" ∷ [];
  waiters = [];
  resolved = [];
  rejected = [];
}

Run-IsFifo_example :
    IsFifo
      (dequeue (enqueue (issue_update 2) (enqueue (done_by 1 "a") empty_queue))).0
      (done_by 1 "a" ∷ issue_update 2 ∷ [])
      (done_by 1 "a" ∷ [])
unfolding enqueue dequeue
Run-IsFifo_example =
    Run-IsFifo {arrived = done_by 1 "a" ∷ issue_update 2 ∷ []} {taken = done_by 1 "a" ∷ []}
      (take (arrive (issue_update 2) (arrive (done_by 1 "a") start)))

-- The permission "p" is pending.
abbrev live : String → Bool
live id = str_eq id "p"

abbrev mixed : List SessionEvent
mixed = asked_permission 1 "p" ∷ said 2 ∷ asked_permission 3 "q" ∷ done_by 4 "a" ∷ []

abbrev hold_on : DispatchHoldState
hold_on = record { dispatch_hold = true; held_events = [] }

mixed-Coherent : Coherent mixed
mixed-Coherent = ground arith

abbrev released_step : HoldStep
released_step = record {
  state = record {
    dispatch_hold = false;
    held_events = asked_permission 1 "p" ∷ done_by 4 "a" ∷ [];
  };
  queue = said 2 ∷ [];
  changes =
      record { status = updated; hold = true; held_event_count = 3; flushed_event_count = none }
      ∷ record { status = updated; hold = true; held_event_count = 2; flushed_event_count = none }
      ∷ record {
        status = released;
        hold = false;
        held_event_count = 2;
        flushed_event_count = some 2;
      }
      ∷ [];
  count = 1;
}

abbrev released_result : SetDispatchHoldResult
released_result = record { dispatch_hold = false; event_count = 2; send_scheduled = true }

release_runs :
    set_dispatch_hold live (some false) hold_on mixed ≡ done released_step released_result
unfolding set_dispatch_hold prune_stale_permission_events buffer_dispatch_hold_events
    is_holdable_dispatch_event is_trigger_session_event is_active
    agents_ensemble.Session.Batch.has_event
release_runs = refl

set_dispatch_hold_release_example :
    (released_step.state.dispatch_hold ≡ false)
    × (released_step.state.held_events
        ≡ filter (is_active live) ([] ++ filter is_holdable_dispatch_event mixed))
    × (released_step.queue
        ≡ filter (is_active live) (filter (λ e. not (is_holdable_dispatch_event e)) mixed))
    × (released_result.event_count ≡ length released_step.state.held_events)
set_dispatch_hold_release_example =
    set_dispatch_hold_release live hold_on mixed released_step released_result refl mixed-Coherent
      release_runs

abbrev wait_input : WaitInput
wait_input = record { dispatch_batch_state = fresh_state; autonomous_turns = 3; max_turns = pos 3 }

abbrev around : Surroundings
around = record { running_count = 1; is_permission_pending = some live }

dispatch_round_count_example :
    let kept_p : SessionEvent → Bool = λ e. is_kept (some live) e && is_trigger_session_event e in
    count_round is_trigger_session_event (dispatch_round wait_input around hold_on mixed)
    ≡ count_if kept_p [] + count_if kept_p mixed
dispatch_round_count_example =
    dispatch_round_count wait_input around hold_on mixed is_trigger_session_event mixed-Coherent

abbrev two_wakes : List Wake
two_wakes =
    record { incoming = issue_update 5; queued = []; around = around }
    ∷ record { incoming = done_by 6 "b"; queued = []; around = around }
    ∷ []

wait_for_dispatch_batch-IsSendable_example :
    IsSendable wait_input
      (batch_events (wait_for_dispatch_batch wait_input around two_wakes hold_on mixed).batch)
wait_for_dispatch_batch-IsSendable_example =
    wait_for_dispatch_batch-IsSendable wait_input around two_wakes hold_on mixed

queue-IsBlocked : IsBlocked wait_input (done_by 4 "a" ∷ [])
unfolding agents_ensemble.Session.Policy.can_dispatch_conductor_send
queue-IsBlocked = (refl, tt)

arrivals-IsBlockedArrival : All (IsBlockedArrival wait_input) two_wakes
unfolding agents_ensemble.Session.Policy.can_dispatch_conductor_send
arrivals-IsBlockedArrival = ((refl, refl), ((refl, refl), tt))

wait_for_dispatch_batch_reverses_example :
    let r = wait_for_dispatch_batch wait_input around two_wakes no_hold (done_by 4 "a" ∷ []) in
    (r.batch ≡ none) × (r.queue ≡ reverse (map incoming_of two_wakes) ++ done_by 4 "a" ∷ [])
wait_for_dispatch_batch_reverses_example =
    wait_for_dispatch_batch_reverses wait_input around two_wakes (done_by 4 "a" ∷ [])
      queue-IsBlocked arrivals-IsBlockedArrival
