-- ===== src/Session/Queue/Laws.antt =====
-- What `findSendEvent` of session-event-queue.ts takes and leaves.
use agents_ensemble.Base.{
  ◌≡◌, ◌⊎◌, inl, inr, refl, ap, Bool, true, false, Bool-cases, none, some, List, [], ◌∷◌, ◌++◌, any,
}
use agents_ensemble.Session.Event.{SessionEvent}
use agents_ensemble.Session.Queue.{splice_first, find_send_event, SessionEventQueue}

-- The queue is found in two parts around the first event that is accepted.
splice_first_lem :
    (accept : SessionEvent → Bool) (queue : List SessionEvent)
    → ((splice_first accept queue ≡ (queue, none)) × (any accept queue ≡ false))
      ⊎ ((before : List SessionEvent) × (event : SessionEvent) × (after : List SessionEvent)
          × (queue ≡ before ++ event ∷ after)
          × (any accept before ≡ false)
          × (accept event ≡ true)
          × (splice_first accept queue ≡ (before ++ after, some event)))
unfolding splice_first
splice_first_lem accept [] = inl (refl, refl)
splice_first_lem accept (e ∷ queue) = elim (Bool-cases (accept e)) [
  | inl here ↦ inr ([], e, queue, refl, refl, here, rw here)
  | inr later ↦ elim (splice_first_lem accept queue) [
    | inl (same, no_event) ↦ inl (rw (later, same), rw (later, no_event))
    | inr (before, event, after, split, skipped, found, same) ↦ inr (
      e ∷ before,
      event,
      after,
      ap (λ q. e ∷ q) split,
      rw (later, skipped),
      found,
      rw (later, same),
    )
  ]
]

-- Either no queued event is accepted and the queue is as it was, or the first accepted event is
-- given out and the others stay in their order.
pub find_send_event_lem :
    (accept : SessionEvent → Bool) (q : SessionEventQueue)
    → ((find_send_event accept q ≡ (q, none)) × (any accept q.queue ≡ false))
      ⊎ ((before : List SessionEvent) × (event : SessionEvent) × (after : List SessionEvent)
          × (q.queue ≡ before ++ event ∷ after)
          × (any accept before ≡ false)
          × (accept event ≡ true)
          × (find_send_event accept q ≡ (record q { queue = before ++ after }, some event)))
unfolding find_send_event
find_send_event_lem accept q = elim (splice_first_lem accept q.queue) [
  | inl (same, no_event) ↦ inl (rw same, no_event)
  | inr (before, event, after, split, skipped, found, same) ↦
      inr (before, event, after, split, skipped, found, rw same)
]
