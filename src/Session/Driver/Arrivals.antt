-- ===== src/Session/Driver/Arrivals.antt =====
-- The order of the events that arrive while `waitForDispatchBatch` (conductor-session-driver.ts)
-- waits and that may not be sent yet.
use Prim.Native.String.{String}
use mathlib.Core.Path.{ap₂}
use mathlib.Core.List.{append_assoc, append-nil, reverse, reverse-cons}
use agents_ensemble.Base.{
  ◌≡◌, refl, ap, ◌∙◌, Bool, true, false, Option, none, some, List, [], ◌∷◌, ◌++◌, any, all, filter,
  filter-all, filter_always, All, map, arith,
}
use agents_ensemble.Session.Event.{SessionEvent}
use agents_ensemble.Session.Policy.{can_dispatch_conductor_send}
use agents_ensemble.Session.Batch.{SelectDispatchBatchInput, is_eligible, is_dispatchable}
use agents_ensemble.Session.Batch.Laws.{select_dispatch_batch-eq-none_iff}
use agents_ensemble.Session.Hold.{DispatchHoldState, is_active, buffer_dispatch_hold_events}
use agents_ensemble.Session.Driver.{
  WaitInput, Surroundings, Wake, DispatchBatchResult, RoundResult, Prepared, select_from,
  select_input, prepare, send_or_wait, finish_round, dispatch_round, end_or_go_on,
  wait_for_dispatch_batch,
}
use agents_ensemble.Session.Driver.Round.{is_kept, pruned}

-- No event of the list may be sent at this count of turns.
abbrev pub IsBlocked : WaitInput → List SessionEvent → Type 0
IsBlocked input events =
    All (λ e. can_dispatch_conductor_send e input.autonomous_turns input.max_turns ≡ false) events

not-eligible_of_blocked :
    (input : SelectDispatchBatchInput) (events : List SessionEvent)
    → All (λ e. can_dispatch_conductor_send e input.autonomous_turns input.max_turns ≡ false) events
    → any (is_eligible input) events ≡ false
unfolding is_dispatchable
not-eligible_of_blocked input [] h = refl
not-eligible_of_blocked input (e ∷ events) h =
    ground (arith, not-eligible_of_blocked input events h.1)

select_blocked :
    (input : WaitInput) (allow : Option Bool) (queue : List SessionEvent)
    → IsBlocked input queue
    → select_from input allow queue ≡ none
select_blocked input allow queue h =
    (select_dispatch_batch-eq-none_iff (select_input input allow queue)).1
      (not-eligible_of_blocked (select_input input allow queue) queue h)

-- An event that is blocked is no permission, so it is never stale.
is_active_of_blocked :
    (live : String → Bool) (input : WaitInput) (e : SessionEvent)
    → can_dispatch_conductor_send e input.autonomous_turns input.max_turns ≡ false
    → is_active live e ≡ true
unfolding is_active can_dispatch_conductor_send
is_active_of_blocked live input e h = ground arith

all_active_of_blocked :
    (live : String → Bool) (input : WaitInput) (queue : List SessionEvent)
    → IsBlocked input queue
    → all (is_active live) queue ≡ true
all_active_of_blocked live input [] h = refl
all_active_of_blocked live input (e ∷ queue) (h, hs) =
    rw (is_active_of_blocked live input e h) (all_active_of_blocked live input queue hs)

filter_blocked :
    (ask : Option (String → Bool)) (input : WaitInput) (queue : List SessionEvent)
    → IsBlocked input queue
    → filter (is_kept ask) queue ≡ queue
filter_blocked none input queue h = filter_always queue
filter_blocked (some live) input queue h =
    filter-all (is_active live) queue (all_active_of_blocked live input queue h)

abbrev pub no_hold : DispatchHoldState
no_hold = record { dispatch_hold = false; held_events = [] }

prepare_blocked :
    (input : WaitInput) (around : Surroundings) (queue : List SessionEvent)
    → IsBlocked input queue
    → ((prepare around no_hold queue).hold ≡ no_hold)
      × ((prepare around no_hold queue).queue ≡ queue)
unfolding prepare buffer_dispatch_hold_events
prepare_blocked input around queue h =
    let ask = around.is_permission_pending in
    let (hold, kept) = pruned ask (record { hold = no_hold; queue = queue; changes = [] }) in
    (
      hold
          ∙ ap (λ held. record { dispatch_hold = false; held_events = held })
              (filter_blocked ask input [] tt),
      kept ∙ filter_blocked ask input queue h,
    )

-- A round over blocked events changes nothing and waits.
IsIdle : RoundResult → List SessionEvent → Type 0
IsIdle r queue = (r.batch ≡ none) × (r.hold ≡ no_hold) × (r.queue ≡ queue)

finish_round_blocked :
    (input : WaitInput) (allow : Option Bool) (s : Prepared) (queue : List SessionEvent)
    → s.hold ≡ no_hold
    → s.queue ≡ queue
    → IsBlocked input queue
    → IsIdle (finish_round input s (select_from input allow s.queue)) queue
unfolding finish_round send_or_wait IsIdle
finish_round_blocked input allow s queue hold same h =
    rw (hold, same, select_blocked input allow queue h) (refl, refl, refl)

dispatch_round_blocked :
    (input : WaitInput) (around : Surroundings) (queue : List SessionEvent)
    → IsBlocked input queue
    → IsIdle (dispatch_round input around no_hold queue) queue
unfolding dispatch_round
dispatch_round_blocked input around queue h =
    let (hold, same) = prepare_blocked input around queue h in
    finish_round_blocked input _ (prepare around no_hold queue) queue hold same h

go_on :
    (r rest : RoundResult) (batch : Option DispatchBatchResult)
    → batch ≡ none
    → ((end_or_go_on r rest batch).batch ≡ rest.batch)
      × ((end_or_go_on r rest batch).queue ≡ rest.queue)
unfolding end_or_go_on
go_on r rest none h = (refl, refl)
go_on r rest (some _) h = cc

-- A blocked event arrives at the waiter, and nothing else arrives before the driver goes on.
abbrev pub IsBlockedArrival : WaitInput → Wake → Type 0
IsBlockedArrival input wake =
    (wake.queued ≡ [])
    × (can_dispatch_conductor_send wake.incoming input.autonomous_turns input.max_turns ≡ false)

abbrev pub incoming_of : Wake → SessionEvent
incoming_of wake = wake.incoming

-- The events that may not be sent yet and that arrive one by one while the driver waits are queued
-- in the reverse of their order of arrival, the latest first, in front of the blocked events that
-- were queued before; none of them is sent. So it is with no event held and the hold off.
pub wait_for_dispatch_batch_reverses :
    (input : WaitInput) (around : Surroundings) (wakes : List Wake) (queue : List SessionEvent)
    → IsBlocked input queue
    → All (IsBlockedArrival input) wakes
    → let r = wait_for_dispatch_batch input around wakes no_hold queue in
      (r.batch ≡ none) × (r.queue ≡ reverse (map incoming_of wakes) ++ queue)
unfolding wait_for_dispatch_batch IsIdle
wait_for_dispatch_batch_reverses input around [] queue h arrivals =
    let (waits, _, same) = dispatch_round_blocked input around queue h in (waits, same)
wait_for_dispatch_batch_reverses input around (wake ∷ wakes) queue h ((alone, blocked), later) =
    let (waits, hold, same) = dispatch_round_blocked input around queue h in
    let (ends, order) =
      wait_for_dispatch_batch_reverses input wake.around wakes (wake.incoming ∷ queue) (blocked, h)
        later in
    let r = dispatch_round input around no_hold queue in
    let found : (wake.incoming ∷ (r.queue ++ wake.queued)) ≡ wake.incoming ∷ queue =
      ap (λ q. wake.incoming ∷ q) (ap₂ (λ a b. a ++ b) same alone ∙ append-nil queue) in
    let (batch, after) = go_on r _ r.batch waits in
    (
      batch
          ∙ ap₂ (λ held q. (wait_for_dispatch_batch input wake.around wakes held q).batch) hold
              found
          ∙ ends,
      after
          ∙ ap₂ (λ held q. (wait_for_dispatch_batch input wake.around wakes held q).queue) hold
              found
          ∙ order
          ∙ simp (reverse-cons, append_assoc),
    )
