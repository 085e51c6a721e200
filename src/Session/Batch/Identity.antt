-- ===== src/Session/Batch/Identity.antt =====
-- The batch is taken out of the queue by object identity (`batchSet.has`).
use agents_ensemble.Base.{
  ◌≡◌, Bool, true, not, ◌&&◌, List, [], ◌∷◌, filter, All, All-map, All-both, filter-eq_of_All,
  arith,
}
use agents_ensemble.Session.Event.{SessionEvent, same_event}
use agents_ensemble.Session.Batch.{has_event}

-- Every event of the list that is the same object as `e` is `e`.
abbrev pub Agrees : SessionEvent → List SessionEvent → Type 0
Agrees e events = All (λ y. same_event y e ≡ true → y ≡ e) events

-- One identity is one event.
abbrev pub Coherent : List SessionEvent → Type 0
Coherent events = All (λ e. Agrees e events) events

has_event-filter :
    (p : SessionEvent → Bool) (events : List SessionEvent) (e : SessionEvent)
    → Agrees e events
    → has_event (filter p events) e ≡ (p e && has_event events e)
unfolding has_event
has_event-filter p [] e h = ground arith
has_event-filter p (y ∷ events) e (h, hs) = ground (arith, h, has_event-filter p events e hs)

has_event_self : (events : List SessionEvent) → All (λ e. has_event events e ≡ true) events
unfolding has_event
has_event_self [] = tt
has_event_self (e ∷ events) =
    (ground arith, All-map _ _ (λ y h. ground (arith, h)) events (has_event_self events))

pub filter-not-has_event :
    (p : SessionEvent → Bool) (events : List SessionEvent)
    → Coherent events
    → filter (λ e. not (has_event (filter p events) e)) events ≡ filter (λ e. not (p e)) events
filter-not-has_event p events c = filter-eq_of_All _ _ events (
    All-map _ _
      (λ e h. let (agrees, here) = h in ground (arith, has_event-filter p events e agrees, here))
      events (All-both _ _ events c (has_event_self events)))

-- What holds of one list as soon as of another is coherent with it.
pub Coherent-shrink :
    (events less : List SessionEvent)
    → ((P : SessionEvent → Type 0) → All P events → All P less)
    → Coherent events
    → Coherent less
Coherent-shrink events less shrink c = shrink _ (All-map _ _ (λ e agrees. shrink _ agrees) events c)
