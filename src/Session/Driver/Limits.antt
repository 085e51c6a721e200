-- ===== src/Session/Driver/Limits.antt =====
-- What `waitForDispatchBatch` (conductor-session-driver.ts) may send.
use agents_ensemble.Base.{
  ◌≡◌, refl, Bool, true, Bool-cases, not, ◌&&◌, inl, inr, Option, none, some, List, [], ◌∷◌, ◌++◌,
  is_empty, All, All-map, arith,
}
use agents_ensemble.Session.Event.{SessionEvent}
use agents_ensemble.Session.Policy.{can_dispatch_conductor_send}
use agents_ensemble.Session.Batch.{SelectDispatchBatchResult}
use agents_ensemble.Session.Batch.Laws.{select_dispatch_batch-All_sendable}
use agents_ensemble.Session.Hold.{DispatchHoldState}
use agents_ensemble.Session.Driver.{
  WaitInput, Surroundings, Wake, DispatchBatchResult, RoundResult, Prepared, select_from, prepare,
  send_selected, send_held, send_or_wait, send_selected_held, is_immediate, finish_round,
  dispatch_round, end_or_go_on, wait_for_dispatch_batch, can_dispatch_all,
}
use agents_ensemble.Session.Driver.Round.{batch_events}

-- Every event may go to the conductor at this count of turns.
abbrev pub IsSendable : WaitInput → List SessionEvent → Type 0
IsSendable input events =
    All (λ e. can_dispatch_conductor_send e input.autonomous_turns input.max_turns ≡ true) events

IsSendable-of_all :
    (input : WaitInput) (events : List SessionEvent)
    → can_dispatch_all input events ≡ true
    → IsSendable input events
IsSendable-of_all input [] h = tt
IsSendable-of_all input (e ∷ events) h = ground (arith, IsSendable-of_all input events)

select_from-IsSendable :
    (input : WaitInput) (allow : Option Bool) (queue : List SessionEvent)
    (r : SelectDispatchBatchResult)
    → select_from input allow queue ≡ some r
    → IsSendable input r.batch.events
select_from-IsSendable input allow queue r h =
    All-map _ _ (λ e both. both.1) r.batch.events (select_dispatch_batch-All_sendable _ r h)

send_or_wait-IsSendable :
    (input : WaitInput) (allow : Option Bool) (queue : List SessionEvent) (s : Prepared)
    (selected : Option SelectDispatchBatchResult)
    → select_from input allow queue ≡ selected
    → IsSendable input (batch_events (send_or_wait s selected).batch)
unfolding send_or_wait send_selected
send_or_wait-IsSendable input allow queue s none h = tt
send_or_wait-IsSendable input allow queue s (some r) h =
    select_from-IsSendable input allow queue r h

send_selected_held-IsSendable :
    (input : WaitInput) (allow : Option Bool) (queue : List SessionEvent) (s : Prepared)
    (selected held : Option SelectDispatchBatchResult)
    → select_from input allow queue ≡ selected
    → select_from input none s.hold.held_events ≡ held
    → IsSendable input (batch_events (send_selected_held s selected held).batch)
unfolding send_selected_held send_held
send_selected_held-IsSendable input allow queue s selected none h k =
    send_or_wait-IsSendable input allow queue s selected h
send_selected_held-IsSendable input allow queue s selected (some r) h k =
    select_from-IsSendable input none s.hold.held_events r k

finish_round-IsSendable :
    (input : WaitInput) (allow : Option Bool) (s : Prepared)
    → IsSendable input (batch_events (finish_round input s (select_from input allow s.queue)).batch)
unfolding finish_round send_held
finish_round-IsSendable input allow s =
    let selected = select_from input allow s.queue in
    let simple = send_or_wait-IsSendable input allow s.queue s selected refl in
    elim (Bool-cases (is_immediate selected)) [
      | inl now ↦ rw (now, finish_round) simple
      | inr later ↦
          elim (Bool-cases (not s.hold.dispatch_hold && not (is_empty s.hold.held_events))) [
            | inl free ↦ elim (Bool-cases (can_dispatch_all input s.hold.held_events)) [
              | inl every ↦
                  rw (later, free, every, finish_round)
                    (IsSendable-of_all input s.hold.held_events every)
              | inr some_blocked ↦
                  rw (later, free, some_blocked, finish_round)
                    (send_selected_held-IsSendable input allow s.queue s selected _ refl refl)
            ]
            | inr held ↦ rw (later, held, finish_round) simple
          ]
    ]

dispatch_round-IsSendable :
    (input : WaitInput) (around : Surroundings) (hold : DispatchHoldState)
    (queue : List SessionEvent)
    → IsSendable input (batch_events (dispatch_round input around hold queue).batch)
dispatch_round-IsSendable input around hold queue =
    unfold dispatch_round in finish_round-IsSendable input _ (prepare around hold queue)

end_or_go_on-IsSendable :
    (input : WaitInput) (r rest : RoundResult) (batch : Option DispatchBatchResult)
    → IsSendable input (batch_events r.batch)
    → IsSendable input (batch_events rest.batch)
    → IsSendable input (batch_events (end_or_go_on r rest batch).batch)
unfolding end_or_go_on
end_or_go_on-IsSendable input r rest none h k = k
end_or_go_on-IsSendable input r rest (some _) h k = h

-- Whatever arrives while the driver waits, what it sends in the end may be sent at its count of
-- autonomous turns: past the limit no worker's outcome and no GitHub event goes out, also not from
-- a released hold.
pub wait_for_dispatch_batch-IsSendable :
    (input : WaitInput) (around : Surroundings) (wakes : List Wake) (hold : DispatchHoldState)
    (queue : List SessionEvent)
    → IsSendable input (batch_events (wait_for_dispatch_batch input around wakes hold queue).batch)
unfolding wait_for_dispatch_batch
wait_for_dispatch_batch-IsSendable input around [] hold queue =
    dispatch_round-IsSendable input around hold queue
wait_for_dispatch_batch-IsSendable input around (wake ∷ wakes) hold queue =
    let r = dispatch_round input around hold queue in
    end_or_go_on-IsSendable input r _ r.batch (dispatch_round-IsSendable input around hold queue) (
      wait_for_dispatch_batch-IsSendable input wake.around wakes r.hold
        (wake.incoming ∷ (r.queue ++ wake.queued)))
