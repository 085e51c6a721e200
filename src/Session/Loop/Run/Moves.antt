-- ===== src/Session/Loop/Run/Moves.antt =====
-- What the steps of a run of the loop do to the sends and their counters.
use Prim.Native.String.{String}
use agents_ensemble.Base.{
  ℕ, suc, ◌≡◌, refl, Bool-cases, inl, inr, Option, none, some, List, [], ◌∷◌,
}
use agents_ensemble.Session.Event.{SessionEvent}
use agents_ensemble.Session.Policy.{autonomous_turns_after_conductor_batch}
use agents_ensemble.Session.Policy.Laws.{CanAllDispatch}
use agents_ensemble.Session.Driver.{DispatchBatchResult}
use agents_ensemble.Session.Driver.Round.{batch_events}
use agents_ensemble.Session.Driver.Limits.{wait_for_dispatch_batch-IsSendable}
use agents_ensemble.Session.Loop.{
  LoopOptions, LoopSession, Send, Locals, Place, ResumeStore, new_session, first_locals,
  initial_send, wait_input,
}
use agents_ensemble.Session.Loop.Turn.{
  SendEnd, send_threw, send_ended, complete_send, end_initial_send, end_send, sent_drained,
  idle_drained, interrupt_loop, dispatch, end_wait, is_reconnect,
}
use agents_ensemble.Session.Loop.Run.{
  sent_batches, waited, Run, begins, resumes, changes, ends_initial, enters, ends_send, aborts_send,
  drains_sent, drains_idle, waits, reconnects,
}
use agents_ensemble.Session.Loop.Run.Same.{
  IsSame, same_locals, evaluate_sent-SamePlace, enter-IsSame, break_after_drain-SameBreak,
  Run-in_flight,
}

-- The three things that a step does to the sends: nothing; a send ends and sets the counters; a batch
-- is sent that may go out at the count of turns.
pub data Move (options : LoopOptions) (sent : List (List SessionEvent)) (l : Locals)
    : List (List SessionEvent) → Locals → Type 0 where
  stays : (k : Locals) → IsSame l k → Move options sent l sent k
  completes :
      (k : Locals) (send : Send)
      → l.in_flight ≡ some send
      → k.in_flight ≡ none
      → k.send_count ≡ send.send_count
      → k.autonomous_turns ≡ send.autonomous_turns
      → Move options sent l sent k
  dispatches :
      (k : Locals) (batch : List SessionEvent)
      → l.in_flight ≡ none
      → CanAllDispatch l.autonomous_turns options.max_turns batch
      → k.in_flight
        ≡ some (record {
          batch = batch;
          send_count = suc l.send_count;
          autonomous_turns = autonomous_turns_after_conductor_batch batch l.autonomous_turns;
        })
      → k.send_count ≡ l.send_count
      → k.autonomous_turns ≡ l.autonomous_turns
      → Move options sent l (batch ∷ sent) k

end_send-Move :
    (options : LoopOptions) (sent : List (List SessionEvent)) (end : SendEnd) (send : Send)
    (s : LoopSession) (l : Locals)
    → l.in_flight ≡ some send
    → Move options sent l sent (end_send options end send s l).0
unfolding end_send complete_send
end_send-Move options sent send_threw send s l e = stays l (same_locals l)
end_send-Move options sent (send_ended status a b c) send s l e =
    let (f, g, h) = evaluate_sent-SamePlace options s (complete_send send status a b c l) in
    completes _ send e f g h

end_initial-Move :
    (options : LoopOptions) (sent : List (List SessionEvent)) (end : SendEnd) (send : Send)
    (l : Locals)
    → l.in_flight ≡ some send
    → Move options sent l sent (end_initial_send send end l).0
unfolding end_initial_send complete_send
end_initial-Move options sent send_threw send l e = stays l (same_locals l)
end_initial-Move options sent (send_ended status a b c) send l e = completes _ send e refl refl refl

end_wait-Move :
    (options : LoopOptions) (sent : List (List SessionEvent)) (r : Option DispatchBatchResult)
    (l : Locals)
    → l.in_flight ≡ none
    → CanAllDispatch l.autonomous_turns options.max_turns (batch_events r)
    → Move options sent l (sent_batches r sent) (end_wait r l).0
unfolding end_wait interrupt_loop dispatch
end_wait-Move options sent none l e c = stays _ (refl, refl, refl)
end_wait-Move options sent (some r) l e c = elim (Bool-cases (is_reconnect r.source_key)) [
  | inl f ↦ rw f (stays _ (refl, refl, refl))
  | inr f ↦ rw f (dispatches _ r.events e c refl refl refl)
]

-- What holds before the first batch of a run and is kept by the moves holds in every run.
module _ (decimal : ℕ → String) (options : LoopOptions) (base : ℕ)
    (P : List (List SessionEvent) → Locals → Type 0)
    (new : base ≡ 0 → P ([] ∷ []) (first_locals new_session (some initial_send)))
    (old : (store : ResumeStore) → base ≡ store.send_count → P [] (first_locals store none))
    (keeps : (sent next : List (List SessionEvent)) (l k : Locals)
      → Move options sent l next k
      → P sent l
      → P next k) where
  pub Run-induction :
      {sent : List (List SessionEvent)} {s : LoopSession} {l : Locals} {p : Place}
      → Run decimal options base sent s l p
      → P sent l
  unfolding interrupt_loop sent_drained idle_drained
  Run-induction (begins s e) = new e
  Run-induction (resumes s store e) = old store e
  Run-induction (changes t e run) = Run-induction run
  Run-induction (ends_initial {sent = sent} end send {l = l} e run) =
      keeps sent sent l _ (end_initial-Move options sent end send l e) (Run-induction run)
  Run-induction (enters {sent = sent} now context {s = s} {l = l} run) =
      keeps sent sent l _ (stays _ (enter-IsSame decimal options now context s l))
        (Run-induction run)
  Run-induction (ends_send {sent = sent} end send {s = s} {l = l} e run) =
      keeps sent sent l _ (end_send-Move options sent end send s l e) (Run-induction run)
  Run-induction (aborts_send {sent = sent} {l = l} run) =
      keeps sent sent l _ (stays _ (refl, refl, refl)) (Run-induction run)
  Run-induction (drains_sent {sent = sent} idle_ready {s = s} {l = l} run) =
      keeps sent sent l _ (stays _ (break_after_drain-SameBreak options s l)) (Run-induction run)
  Run-induction (drains_idle {sent = sent} {s = s} {l = l} run) =
      keeps sent sent l _ (stays _ (break_after_drain-SameBreak options s l)) (Run-induction run)
  Run-induction (waits {sent = sent} wakes {s = s} {l = l} run) =
      keeps sent _ l _
        (end_wait-Move options sent (waited options wakes s l).batch l
          (Run-in_flight decimal options base run refl)
          (wait_for_dispatch_batch-IsSendable (wait_input options l) s.around wakes s.hold s.queue))
        (Run-induction run)
  Run-induction (reconnects run) = Run-induction run
