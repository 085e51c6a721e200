-- ===== src/Session/Queue.antt =====
-- packages/core/src/conductor/session/session-event-queue.ts: the one event queue of a session. A
-- waiter is a promise with its number; what it is resolved with stands in `resolved`, the latest
-- first, and the waiters that an abort has rejected in `rejected`.
pub mod Laws
pub mod Fifo
use agents_ensemble.Base.{
  ℕ, Bool, true, false, not, ◌&&◌, Option, none, some, List, [], ◌∷◌, ◌++◌, filter, is_empty,
  length, ◌==◌, if◌then◌else◌,
}
use agents_ensemble.Session.Event.{SessionEvent}

pub record SessionEventQueue : Type 0 where
  pub queue : List SessionEvent
  pub waiters : List ℕ
  pub resolved : List (ℕ × SessionEvent)
  pub rejected : List ℕ

unfoldable pub size : SessionEventQueue → ℕ
size q = length q.queue

unfoldable pub is_queue_empty : SessionEventQueue → Bool
is_queue_empty q = is_empty q.queue

give : List ℕ → SessionEvent → SessionEventQueue → SessionEventQueue
give [] event q = record q { queue = q.queue ++ event ∷ [] }
give (waiter ∷ waiters) event q = record q {
  waiters = waiters;
  resolved = (waiter, event) ∷ q.resolved;
}

unfoldable pub enqueue : SessionEvent → SessionEventQueue → SessionEventQueue
unfolding give
enqueue event q = give q.waiters event q

take_first : List SessionEvent → SessionEventQueue → SessionEventQueue × Option SessionEvent
take_first [] q = (q, none)
take_first (event ∷ queue) q = (record q { queue = queue }, some event)

unfoldable pub dequeue : SessionEventQueue → SessionEventQueue × Option SessionEvent
unfolding take_first
dequeue q = take_first q.queue q

unfoldable pub snapshot : SessionEventQueue → List SessionEvent
snapshot q = q.queue

unfoldable pub replace_queue : List SessionEvent → SessionEventQueue → SessionEventQueue
replace_queue next q = record q { queue = next }

unfoldable pub prepend_silent : SessionEvent → SessionEventQueue → SessionEventQueue
prepend_silent event q = record q { queue = event ∷ q.queue }

-- `findIndex` and `splice(index, 1)`: the first event that is accepted, and the others.
unfoldable pub splice_first :
    (SessionEvent → Bool) → List SessionEvent → List SessionEvent × Option SessionEvent
splice_first accept [] = ([], none)
splice_first accept (event ∷ queue) =
    let rest = splice_first accept queue in
    if accept event then (queue, some event) else (event ∷ rest.0, rest.1)

unfoldable pub find_send_event :
    (SessionEvent → Bool) → SessionEventQueue → SessionEventQueue × Option SessionEvent
find_send_event accept q =
    let (queue, found) = splice_first accept q.queue in (record q { queue = queue }, found)

-- A call of `waitForEvent` has an event at once, is refused by an aborted signal, or waits.
pub data WaitOutcome : Type 0 where
  ready : SessionEvent → WaitOutcome
  aborted : WaitOutcome
  waiting : ℕ → WaitOutcome

register : Bool → ℕ → SessionEventQueue → SessionEventQueue × WaitOutcome
register true waiter q = (q, aborted)
register false waiter q = (record q { waiters = q.waiters ++ waiter ∷ [] }, waiting waiter)

ready_or_register :
    Bool → ℕ → SessionEventQueue × Option SessionEvent → SessionEventQueue × WaitOutcome
ready_or_register is_aborted waiter (q, some event) = (q, ready event)
ready_or_register is_aborted waiter (q, none) = register is_aborted waiter q

-- `is_aborted` is `signal?.aborted`; `waiter` is the number of the promise that is made.
unfoldable pub wait_for_event :
    Bool → Bool → ℕ → SessionEventQueue → SessionEventQueue × WaitOutcome
unfolding register ready_or_register dequeue
wait_for_event is_aborted only_new waiter q =
    if only_new
    then register is_aborted waiter q
    else ready_or_register is_aborted waiter (dequeue q)

-- `indexOf` and `splice(index, 1)` of the clean-up.
unfoldable pub remove_waiter : ℕ → List ℕ → List ℕ
remove_waiter waiter [] = []
remove_waiter waiter (w ∷ waiters) =
    if w == waiter then waiters else w ∷ remove_waiter waiter waiters

-- `onAbort` of one waiter.
unfoldable pub abort_waiter : ℕ → SessionEventQueue → SessionEventQueue
abort_waiter waiter q = record q {
  waiters = remove_waiter waiter q.waiters;
  rejected = waiter ∷ q.rejected;
}
