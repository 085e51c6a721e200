-- ===== src/Session/Driver/Round.antt =====
-- What one round of `waitForDispatchBatch` (conductor-session-driver.ts) does to the events.
use Prim.Native.String.{String}
use mathlib.Core.List.{append-nil}
use mathlib.Core.Path.{subst}
use agents_ensemble.Base.{
  All-left, All-right, filter_never, filter_always, filter_twice, ℕ, ◌+◌, ◌≡◌, refl, sym, ap, ◌∙◌,
  Bool, true, false, Bool-cases, not, ◌&&◌, inl, inr, Option, none, some, List, [], ◌++◌, filter,
  length, is_empty, All, All-append, All-filter, filter-append, length-append, arith,
}
use agents_ensemble.Base.Merge.{Merge, done, left, right, Merge-filter}
use agents_ensemble.Session.Event.{SessionEvent}
use agents_ensemble.Session.Batch.{SelectDispatchBatchResult}
use agents_ensemble.Session.Batch.Identity.{Coherent, Coherent-shrink}
use agents_ensemble.Session.Batch.Laws.{select_dispatch_batch-Merge}
use agents_ensemble.Session.Hold.{
  DispatchHoldState, is_holdable_dispatch_event, is_active, buffer_dispatch_hold_events,
}
use agents_ensemble.Session.Hold.Laws.{
  buffer_dispatch_hold_events_moves, prune_stale_permission_events_keeps,
}
use agents_ensemble.Session.Driver.{
  WaitInput, Surroundings, DispatchBatchResult, RoundResult, Prepared, select_from, prune_prepared,
  prepare, send_selected, send_held, send_or_wait, send_selected_held, is_immediate, finish_round,
  dispatch_round, can_dispatch_all,
}

abbrev pub batch_events : Option DispatchBatchResult → List SessionEvent
batch_events none = []
batch_events (some batch) = batch.events

-- How many of the events pass a test, in the batch, among the held and in the queue together.
abbrev pub count_if : (SessionEvent → Bool) → List SessionEvent → ℕ
count_if p events = length (filter p events)

count_if-Merge :
    (p : SessionEvent → Bool) {xs ys zs : List SessionEvent}
    → Merge xs ys zs
    → count_if p zs ≡ count_if p xs + count_if p ys
count_if-Merge p done = omega arith
count_if-Merge p (left x m) = ground (arith, count_if-Merge p m)
count_if-Merge p (right y m) = ground (arith, count_if-Merge p m)

abbrev pub count_round : (SessionEvent → Bool) → RoundResult → ℕ
count_round p r =
    count_if p (batch_events r.batch) + count_if p r.hold.held_events + count_if p r.queue

abbrev count_prepared : (SessionEvent → Bool) → Prepared → ℕ
count_prepared p s = count_if p s.hold.held_events + count_if p s.queue

select_from_count :
    (input : WaitInput) (allow : Option Bool) (queue : List SessionEvent)
    (r : SelectDispatchBatchResult) (p : SessionEvent → Bool)
    → Coherent queue
    → select_from input allow queue ≡ some r
    → count_if p queue ≡ count_if p r.batch.events + count_if p r.remaining_queue
select_from_count input allow queue r p c h = count_if-Merge p (select_dispatch_batch-Merge _ r c h)

send_or_wait_count :
    (input : WaitInput) (allow : Option Bool) (s : Prepared) (p : SessionEvent → Bool)
    (selected : Option SelectDispatchBatchResult)
    → Coherent s.queue
    → select_from input allow s.queue ≡ selected
    → count_round p (send_or_wait s selected) ≡ count_prepared p s
unfolding send_or_wait send_selected
send_or_wait_count input allow s p none c h = omega arith
send_or_wait_count input allow s p (some r) c h =
    omega (arith, select_from_count input allow s.queue r p c h)

send_selected_held_count :
    (input : WaitInput) (allow : Option Bool) (s : Prepared) (p : SessionEvent → Bool)
    (selected held : Option SelectDispatchBatchResult)
    → Coherent s.queue
    → Coherent s.hold.held_events
    → select_from input allow s.queue ≡ selected
    → select_from input none s.hold.held_events ≡ held
    → count_round p (send_selected_held s selected held) ≡ count_prepared p s
unfolding send_selected_held send_held
send_selected_held_count input allow s p selected none c c' h h' =
    send_or_wait_count input allow s p selected c h
send_selected_held_count input allow s p selected (some r) c c' h h' =
    omega (arith, select_from_count input none s.hold.held_events r p c' h')

finish_round_count :
    (input : WaitInput) (allow : Option Bool) (s : Prepared) (p : SessionEvent → Bool)
    → Coherent s.queue
    → Coherent s.hold.held_events
    → count_round p (finish_round input s (select_from input allow s.queue)) ≡ count_prepared p s
unfolding finish_round send_held
finish_round_count input allow s p c c' =
    let selected = select_from input allow s.queue in
    let simple = send_or_wait_count input allow s p selected c refl in
    elim (Bool-cases (is_immediate selected)) [
      | inl now ↦ rw (now, finish_round) simple
      | inr later ↦
          elim (Bool-cases (not s.hold.dispatch_hold && not (is_empty s.hold.held_events))) [
            | inl free ↦ elim (Bool-cases (can_dispatch_all input s.hold.held_events)) [
              | inl every ↦ rw (later, free, every, finish_round) (omega arith)
              | inr some_blocked ↦
                  rw (later, free, some_blocked, finish_round)
                    (send_selected_held_count input allow s p selected _ c c' refl refl)
            ]
            | inr held ↦ rw (later, held, finish_round) simple
          ]
    ]

-- Whether a round keeps an event: a permission only while it is pending, if the driver can ask.
abbrev pub is_kept : Option (String → Bool) → SessionEvent → Bool
is_kept none event = true
is_kept (some live) event = is_active live event

-- The holdable events of the queue go behind the held ones; with no hold nothing moves.
abbrev moved : Bool → SessionEvent → Bool
moved on event = on && is_holdable_dispatch_event event

buffered_at :
    (on : Bool) (held queue : List SessionEvent)
    → Coherent queue
    → let r =
        buffer_dispatch_hold_events (record { dispatch_hold = on; held_events = held }) queue in
      (r.state ≡ record { dispatch_hold = on; held_events = held ++ filter (moved on) queue })
      × (r.queue ≡ filter (λ e. not (moved on e)) queue)
buffered_at true held queue c =
    let (state, rest, _) = buffer_dispatch_hold_events_moves _ queue refl c in (state, rest)
buffered_at false held queue c =
    unfold buffer_dispatch_hold_events in
    (
      (λ i. record {
        dispatch_hold = false;
        held_events = (sym (append-nil held) ∙ ap (λ ys. held ++ ys) (sym (filter_never queue))) i;
      }),
      sym (filter_always queue),
    )

-- Buffering keeps the held events and the queue, whether the hold is on or off.
buffered :
    (hold : DispatchHoldState) (queue : List SessionEvent)
    → Coherent queue
    → let r = buffer_dispatch_hold_events hold queue in
      let test = moved hold.dispatch_hold in
      (r.state ≡ record hold { held_events = hold.held_events ++ filter test queue })
      × (r.queue ≡ filter (λ e. not (test e)) queue)
buffered hold queue c = buffered_at hold.dispatch_hold hold.held_events queue c

pub pruned :
    (ask : Option (String → Bool)) (s : Prepared)
    → let r = prune_prepared ask s in
      (r.hold ≡ record s.hold { held_events = filter (is_kept ask) s.hold.held_events })
      × (r.queue ≡ filter (is_kept ask) s.queue)
unfolding prune_prepared
pruned none s = (
  (λ i. record {
    dispatch_hold = s.hold.dispatch_hold;
    held_events = sym (filter_always s.hold.held_events) i;
  }),
  sym (filter_always s.queue),
)
pruned (some live) s =
    let (queue, held, on, _) = prune_stale_permission_events_keeps live s.hold s.queue in
    ((λ i. record { dispatch_hold = on i; held_events = held i }), queue)

-- What a round begins with.
prepared :
    (around : Surroundings) (hold : DispatchHoldState) (queue : List SessionEvent)
    → Coherent queue
    → let s = prepare around hold queue in
      let kept = is_kept around.is_permission_pending in
      let test = moved hold.dispatch_hold in
      (s.hold ≡ record hold { held_events = filter kept (hold.held_events ++ filter test queue) })
      × (s.queue ≡ filter kept (filter (λ e. not (test e)) queue))
unfolding prepare
prepared around hold queue c =
    let ask = around.is_permission_pending in
    let (state, rest) = buffered hold queue c in
    let (held, kept) = pruned ask _ in
    (
      held ∙ (λ i. record {
        dispatch_hold = (state i).dispatch_hold;
        held_events = filter (is_kept ask) ((state i).held_events);
      }),
      kept ∙ ap (filter (is_kept ask)) rest,
    )

All-filter_behind :
    (P : SessionEvent → Type 0) (p : SessionEvent → Bool) (xs ys : List SessionEvent)
    → All P (xs ++ ys)
    → All P (xs ++ filter p ys)
All-filter_behind P p xs ys h =
    All-append P xs (filter p ys) (All-left P xs ys h) (All-filter P p ys (All-right P xs ys h))

prepared-Coherent :
    (around : Surroundings) (hold : DispatchHoldState) (queue : List SessionEvent)
    → Coherent (hold.held_events ++ queue)
    → Coherent (prepare around hold queue).queue
      × Coherent (prepare around hold queue).hold.held_events
prepared-Coherent around hold queue c =
    let own = Coherent-shrink _ queue (λ P. All-right P hold.held_events queue) c in
    let (state, rest) = prepared around hold queue own in
    let kept = is_kept around.is_permission_pending in
    let test = moved hold.dispatch_hold in
    (
      subst Coherent (sym rest) (
          Coherent-shrink queue _
            (λ P h. All-filter P kept _ (All-filter P (λ e. not (test e)) queue h)) own),
      subst Coherent (sym (ap DispatchHoldState.held_events state)) (
          Coherent-shrink (hold.held_events ++ queue) _
            (λ P h. All-filter P kept _ (All-filter_behind P test hold.held_events queue h)) c),
    )

count_if_split :
    (p test : SessionEvent → Bool) (held queue : List SessionEvent)
    → count_if p (held ++ filter test queue) + count_if p (filter (λ e. not (test e)) queue)
      ≡ count_if p held + count_if p queue
count_if_split p test held queue = omega (
  arith,
  ap length (filter-append p held (filter test queue)),
  length-append (filter p held) (filter p (filter test queue)),
  count_if-Merge p (Merge-filter test queue),
)

-- Where one identity is one event among the held and the queued events, a round loses no event,
-- makes none and sends none twice: of the events that pass any test, as many are in the batch, held
-- and queued after it as were held and queued before, but for the permissions that are no longer
-- pending, which it drops.
pub dispatch_round_count :
    (input : WaitInput) (around : Surroundings) (hold : DispatchHoldState)
    (queue : List SessionEvent) (p : SessionEvent → Bool)
    → Coherent (hold.held_events ++ queue)
    → let kept_p : SessionEvent → Bool = λ e. is_kept around.is_permission_pending e && p e in
      count_round p (dispatch_round input around hold queue)
      ≡ count_if kept_p hold.held_events + count_if kept_p queue
unfolding dispatch_round
dispatch_round_count input around hold queue p c =
    let own = Coherent-shrink _ queue (λ P. All-right P hold.held_events queue) c in
    let s = prepare around hold queue in
    let (state, rest) = prepared around hold queue own in
    let (c_queue, c_held) = prepared-Coherent around hold queue c in
    let kept = is_kept around.is_permission_pending in
    let test = moved hold.dispatch_hold in
    omega (
      arith,
      finish_round_count input _ s p c_queue c_held,
      ap (λ h. count_if p (DispatchHoldState.held_events h)) state,
      ap (count_if p) rest,
      ap length (filter_twice p kept (hold.held_events ++ filter test queue)),
      ap length (filter_twice p kept (filter (λ e. not (test e)) queue)),
      count_if_split (λ e. kept e && p e) test hold.held_events queue,
    )
