-- ===== src/Session/Hold/Laws.antt =====
-- What dispatch-hold.ts moves and what it drops.
use Prim.Native.String.{String}
use mathlib.Core.List.{append-nil}
use agents_ensemble.Base.{
  ◌+◌, ◌≡◌, refl, sym, Bool, true, Bool-cases, not, inl, inr, List, [], ◌∷◌, ◌++◌, filter, length,
  is_empty, All, All-append, All-filter, All-filter_test, filter_of_length, filter_rest,
  length-filter-le, arith,
}
use agents_ensemble.Session.Event.{SessionEvent}
use agents_ensemble.Session.Batch.Identity.{Coherent, filter-not-has_event}
use agents_ensemble.Session.Hold.{
  DispatchHoldState, is_holdable_dispatch_event, buffer_dispatch_hold_events, is_active,
  prune_stale_permission_events,
}

eq-nil_of_is_empty : (events : List SessionEvent) → is_empty events ≡ true → events ≡ []
eq-nil_of_is_empty [] h = refl
eq-nil_of_is_empty (e ∷ events) h = cc

-- While the hold is on, and where one identity is one event in the queue, the holdable events of the queue go behind the held ones and the others
-- stay, each in their order; their number is returned.
pub buffer_dispatch_hold_events_moves :
    (state : DispatchHoldState) (queue : List SessionEvent)
    → state.dispatch_hold ≡ true
    → Coherent queue
    → let r = buffer_dispatch_hold_events state queue in
      let held = filter is_holdable_dispatch_event queue in
      (r.state ≡ record { dispatch_hold = true; held_events = state.held_events ++ held })
      × (r.queue ≡ filter (λ e. not (is_holdable_dispatch_event e)) queue)
      × (r.count ≡ length held)
unfolding buffer_dispatch_hold_events
buffer_dispatch_hold_events_moves state queue on c =
    elim (Bool-cases (is_empty (filter is_holdable_dispatch_event queue))) [
      | inl none_held ↦
          let e = eq-nil_of_is_empty _ none_held in
          rw (on, none_held)
            (rw (e, append-nil), sym (filter_rest is_holdable_dispatch_event queue e), rw e)
      | inr some_held ↦
          rw (on, some_held) (refl, filter-not-has_event is_holdable_dispatch_event queue c, refl)
    ]

-- Pruning leaves exactly the events that are no permission or a pending one, in their order, in the
-- queue and among the held, and returns how many it dropped.
pub prune_stale_permission_events_keeps :
    (live : String → Bool) (state : DispatchHoldState) (queue : List SessionEvent)
    → let r = prune_stale_permission_events live state queue in
      (r.queue ≡ filter (is_active live) queue)
      × (r.state.held_events ≡ filter (is_active live) state.held_events)
      × (r.state.dispatch_hold ≡ state.dispatch_hold)
      × (r.count + length r.queue + length r.state.held_events
          ≡ length queue + length state.held_events)
unfolding prune_stale_permission_events
prune_stale_permission_events_keeps live state queue = ground (
  arith,
  filter_of_length (is_active live) queue,
  filter_of_length (is_active live) state.held_events,
  length-filter-le (is_active live) queue,
  length-filter-le (is_active live) state.held_events,
)

-- Only events that may be held are held.
abbrev pub IsHoldOnly : DispatchHoldState → Type 0
IsHoldOnly state = All (λ e. is_holdable_dispatch_event e ≡ true) state.held_events

pub buffer_dispatch_hold_events-IsHoldOnly :
    (state : DispatchHoldState) (queue : List SessionEvent)
    → IsHoldOnly state
    → IsHoldOnly (buffer_dispatch_hold_events state queue).state
unfolding buffer_dispatch_hold_events
buffer_dispatch_hold_events-IsHoldOnly state queue h =
    let held = filter is_holdable_dispatch_event queue in
    elim (Bool-cases (not state.dispatch_hold)) [
      | inl off ↦ rw off h
      | inr on ↦ elim (Bool-cases (is_empty held)) [
        | inl none_held ↦ rw (on, none_held) h
        | inr some_held ↦
            rw (on, some_held)
              (All-append _ state.held_events held h
                (All-filter_test is_holdable_dispatch_event queue))
      ]
    ]

pub prune_stale_permission_events-IsHoldOnly :
    (live : String → Bool) (state : DispatchHoldState) (queue : List SessionEvent)
    → IsHoldOnly state
    → IsHoldOnly (prune_stale_permission_events live state queue).state
prune_stale_permission_events-IsHoldOnly live state queue h =
    rw ((prune_stale_permission_events_keeps live state queue).1)
      (All-filter _ (is_active live) state.held_events h)
