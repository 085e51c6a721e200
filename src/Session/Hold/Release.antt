-- ===== src/Session/Hold/Release.antt =====
-- The `set_dispatch_hold` tool over dispatch-hold.ts: what a release leaves behind.
use Prim.Native.String.{String}
use agents_ensemble.Base.{
  ◌≡◌, ap, ◌∙◌, Bool, true, false, not, Option, none, some, List, ◌++◌, filter, length,
}
use agents_ensemble.Session.Event.{SessionEvent}
use agents_ensemble.Session.Batch.Identity.{Coherent}
use agents_ensemble.Session.Hold.{
  DispatchHoldState, HoldStep, is_holdable_dispatch_event, buffer_dispatch_hold_events, is_active,
  prune_stale_permission_events, before_release, SetDispatchHoldResult, done, set_dispatch_hold,
}
use agents_ensemble.Session.Hold.Laws.{
  buffer_dispatch_hold_events_moves, prune_stale_permission_events_keeps, IsHoldOnly,
  buffer_dispatch_hold_events-IsHoldOnly, prune_stale_permission_events-IsHoldOnly,
}

before_release_keeps :
    (live : String → Bool) (state : DispatchHoldState) (queue : List SessionEvent)
    → state.dispatch_hold ≡ true
    → Coherent queue
    → let r = before_release live state queue in
      (r.state.held_events
        ≡ filter (is_active live) (state.held_events ++ filter is_holdable_dispatch_event queue))
      × (r.queue ≡ filter (is_active live) (filter (λ e. not (is_holdable_dispatch_event e)) queue))
unfolding before_release
before_release_keeps live state queue on c =
    let b = buffer_dispatch_hold_events state queue in
    let moved = buffer_dispatch_hold_events_moves state queue on c in
    let kept = prune_stale_permission_events_keeps live b.state b.queue in
    (
      kept.1 ∙ ap (λ s. filter (is_active live) (DispatchHoldState.held_events s)) moved.0,
      kept.0 ∙ ap (filter (is_active live)) moved.1,
    )

-- Where one identity is one event in the queue, a release while the hold is on ends the hold and keeps every held event and every holdable event
-- of the queue, in that order, but the permissions that are no longer pending; the other events
-- stay in the queue; and the number that it reports is that of the events that it leaves to send.
pub set_dispatch_hold_release :
    (live : String → Bool) (state : DispatchHoldState) (queue : List SessionEvent) (r : HoldStep)
    (result : SetDispatchHoldResult)
    → state.dispatch_hold ≡ true
    → Coherent queue
    → set_dispatch_hold live (some false) state queue ≡ done r result
    → (r.state.dispatch_hold ≡ false)
      × (r.state.held_events
          ≡ filter (is_active live) (state.held_events ++ filter is_holdable_dispatch_event queue))
      × (r.queue ≡ filter (is_active live) (filter (λ e. not (is_holdable_dispatch_event e)) queue))
      × (result.event_count ≡ length r.state.held_events)
unfolding set_dispatch_hold
set_dispatch_hold_release live state queue r result on c h =
    let (held, rest) = before_release_keeps live state queue on c in
    let before = before_release live state queue in
    let same_held : r.state.held_events ≡ before.state.held_events = cc in
    let same_queue : r.queue ≡ before.queue = cc in (cc, same_held ∙ held, same_queue ∙ rest, cc)

-- Whatever the conductor asks of the tool, only events that may be held are held: never a message
-- or a reconnect of the operator, never a permission stall.
pub set_dispatch_hold-IsHoldOnly :
    (live : String → Bool) (hold : Option Bool) (state : DispatchHoldState)
    (queue : List SessionEvent) (r : HoldStep) (result : SetDispatchHoldResult)
    → IsHoldOnly state
    → set_dispatch_hold live hold state queue ≡ done r result
    → IsHoldOnly r.state
unfolding set_dispatch_hold
set_dispatch_hold-IsHoldOnly live none state queue r result h e = cc
set_dispatch_hold-IsHoldOnly live (some true) state queue r result h e =
    let same : r.state.held_events ≡ state.held_events = cc in rw same h
set_dispatch_hold-IsHoldOnly live (some false) state queue r result h e =
    let b = buffer_dispatch_hold_events state queue in
    let same : r.state.held_events
        ≡ (prune_stale_permission_events live b.state b.queue).state.held_events =
      cc in
    rw same (
      prune_stale_permission_events-IsHoldOnly live b.state b.queue
        (buffer_dispatch_hold_events-IsHoldOnly state queue h))
