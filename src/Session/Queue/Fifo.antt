-- ===== src/Session/Queue/Fifo.antt =====
-- session-event-queue.ts against a list of arrivals, for waits that take a queued event first
-- (`onlyNew` is not set).
use mathlib.Core.List.{append_assoc, append-nil}
use agents_ensemble.Base.{
  ℕ, zero, suc, ◌-◌, ◌≡◌, refl, Bool, true, false, Option, none, some, List, [], ◌∷◌, ◌++◌, length,
  arith,
}
use agents_ensemble.Session.Event.{SessionEvent}
use agents_ensemble.Session.Queue.{
  SessionEventQueue, give, take_first, enqueue, dequeue, WaitOutcome, ready, aborted, waiting,
  wait_for_event, remove_waiter, abort_waiter,
}

abbrev pub empty_queue : SessionEventQueue
empty_queue = record { queue = []; waiters = []; resolved = []; rejected = [] }

-- The events of the last `n` promises that were resolved, the latest first.
abbrev pub events_of_last : ℕ → List (ℕ × SessionEvent) → List SessionEvent
events_of_last zero resolved = []
events_of_last (suc n) [] = []
events_of_last (suc n) ((_, event) ∷ resolved) = event ∷ events_of_last n resolved

-- What the waiters have been resolved with from one queue to the next.
abbrev pub given_since : SessionEventQueue → SessionEventQueue → List SessionEvent
given_since before after =
    events_of_last (length after.resolved - length before.resolved) after.resolved

-- What a call hands to its caller.
abbrev pub given_by_wait : WaitOutcome → List SessionEvent
given_by_wait (ready event) = event ∷ []
given_by_wait aborted = []
given_by_wait (waiting _) = []

abbrev pub given_by_dequeue : Option SessionEvent → List SessionEvent
given_by_dequeue none = []
given_by_dequeue (some event) = event ∷ []

-- `Run q arrived taken`: the queue after arrivals, takes, waits and aborts in any order, with the
-- events that arrived and those that were handed out.
pub data Run : SessionEventQueue → List SessionEvent → List SessionEvent → Type 0 where
  start : Run empty_queue [] []
  arrive :
      (event : SessionEvent) {q : SessionEventQueue} {arrived taken : List SessionEvent}
      → Run q arrived taken
      → Run (enqueue event q) (arrived ++ event ∷ []) (taken ++ given_since q (enqueue event q))
  take :
      {q : SessionEventQueue} {arrived taken : List SessionEvent}
      → Run q arrived taken
      → Run (dequeue q).0 arrived (taken ++ given_by_dequeue (dequeue q).1)
  wait :
      (is_aborted : Bool) (waiter : ℕ) {q : SessionEventQueue} {arrived taken : List SessionEvent}
      → Run q arrived taken
      → Run
          (wait_for_event is_aborted false waiter q).0
          arrived
          (taken ++ given_by_wait (wait_for_event is_aborted false waiter q).1)
  abort :
      (waiter : ℕ) {q : SessionEventQueue} {arrived taken : List SessionEvent}
      → Run q arrived taken
      → Run (abort_waiter waiter q) arrived taken

-- Nobody waits while events are queued.
abbrev pub IsSettled : List ℕ → List SessionEvent → Type 0
IsSettled [] queue = Unit {0}
IsSettled (_ ∷ _) queue = queue ≡ []

IsSettled-nil : (waiters : List ℕ) → IsSettled waiters []
IsSettled-nil [] = tt
IsSettled-nil (_ ∷ _) = refl

IsSettled-tail :
    (waiters : List ℕ) (event : SessionEvent) (queue : List SessionEvent)
    → IsSettled waiters (event ∷ queue)
    → IsSettled waiters queue
IsSettled-tail [] event queue h = tt
IsSettled-tail (_ ∷ _) event queue h = cc

IsSettled-remove :
    (waiter : ℕ) (waiters : List ℕ) (queue : List SessionEvent)
    → IsSettled waiters queue
    → IsSettled (remove_waiter waiter waiters) queue
IsSettled-remove waiter [] queue h = unfold remove_waiter in h
IsSettled-remove waiter (w ∷ waiters) queue h = rw h (IsSettled-nil _)

abbrev pub IsFifo : SessionEventQueue → List SessionEvent → List SessionEvent → Type 0
IsFifo q arrived taken = (arrived ≡ taken ++ q.queue) × IsSettled q.waiters q.queue

sub_self : (n : ℕ) → n - n ≡ 0
sub_self n = omega arith

sub_suc_self : (n : ℕ) → suc n - n ≡ 1
sub_suc_self n = omega arith

enqueue-IsFifo :
    (event : SessionEvent) (q : SessionEventQueue) (waiters : List ℕ)
    (arrived taken : List SessionEvent)
    → q.waiters ≡ waiters
    → IsFifo q arrived taken
    → IsFifo (enqueue event q) (arrived ++ event ∷ []) (taken ++ given_since q (enqueue event q))
unfolding enqueue
enqueue-IsFifo event q [] arrived taken e (h, s) =
    rw (e, give, sub_self (length q.resolved)) (simp (h, append-nil, append_assoc), tt)
enqueue-IsFifo event q (w ∷ ws) arrived taken e (h, s) =
    let nothing : q.queue ≡ [] = rw e at s in
    rw (e, give, sub_suc_self (length q.resolved))
      (simp (h, nothing, append-nil), rw nothing (IsSettled-nil ws))

take-IsFifo :
    (q : SessionEventQueue) (queue arrived taken : List SessionEvent)
    → q.queue ≡ queue
    → IsFifo q arrived taken
    → IsFifo (dequeue q).0 arrived (taken ++ given_by_dequeue (dequeue q).1)
unfolding dequeue
take-IsFifo q [] arrived taken e (h, s) =
    rw (e, take_first) (simp (h, e, append-nil), IsSettled-nil q.waiters)
take-IsFifo q (event ∷ queue) arrived taken e (h, s) =
    rw (e, take_first) (simp (h, e, append_assoc), IsSettled-tail q.waiters event queue (rw e at s))

wait-IsFifo :
    (is_aborted : Bool) (waiter : ℕ) (q : SessionEventQueue)
    (queue arrived taken : List SessionEvent)
    → q.queue ≡ queue
    → IsFifo q arrived taken
    → IsFifo
        (wait_for_event is_aborted false waiter q).0
        arrived
        (taken ++ given_by_wait (wait_for_event is_aborted false waiter q).1)
unfolding wait_for_event
wait-IsFifo true waiter q [] arrived taken e (h, s) =
    rw (e, take_first) (simp (h, e, append-nil), IsSettled-nil q.waiters)
wait-IsFifo false waiter q [] arrived taken e (h, s) =
    rw (e, take_first) (simp (h, e, append-nil), IsSettled-nil _)
wait-IsFifo is_aborted waiter q (event ∷ queue) arrived taken e (h, s) =
    rw (e, take_first) (simp (h, e, append_assoc), IsSettled-tail q.waiters event queue (rw e at s))

abort-IsFifo :
    (waiter : ℕ) (q : SessionEventQueue) (arrived taken : List SessionEvent)
    → IsFifo q arrived taken
    → IsFifo (abort_waiter waiter q) arrived taken
unfolding abort_waiter
abort-IsFifo waiter q arrived taken (h, s) = (h, IsSettled-remove waiter q.waiters q.queue s)

-- In every run in which waits take a queued event first (`onlyNew` is not set), the events that the
-- callers got and the waiters were resolved with are the first of those that arrived, in their order,
-- the queue holds exactly the rest, and nobody waits while an event is queued.
pub Run-IsFifo :
    {q : SessionEventQueue} {arrived taken : List SessionEvent}
    → Run q arrived taken
    → IsFifo q arrived taken
Run-IsFifo start = (refl, tt)
Run-IsFifo (arrive event {q} r) = enqueue-IsFifo event q q.waiters _ _ refl (Run-IsFifo r)
Run-IsFifo (take {q} r) = take-IsFifo q q.queue _ _ refl (Run-IsFifo r)
Run-IsFifo (wait is_aborted waiter {q} r) =
    wait-IsFifo is_aborted waiter q q.queue _ _ refl (Run-IsFifo r)
Run-IsFifo (abort waiter {q} r) = abort-IsFifo waiter q _ _ (Run-IsFifo r)
