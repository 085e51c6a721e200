-- ===== src/Session/Batch/Laws.antt =====
-- What `selectDispatchBatch` of select-dispatch-batch.ts selects.
use agents_ensemble.Base.{
  ◌≡◌, ◌↔◌, refl, true, false, ◌&&◌, none, some, List, [], ◌∷◌, any, any_of_All, any-filter,
  any_of_filter_nil, All-intro, filter, filter_none, All, All-map, All-filter_test, arith,
}
use agents_ensemble.Base.Merge.{Merge, Merge-filter}
use agents_ensemble.Session.Event.{SessionEvent}
use agents_ensemble.Session.Policy.{can_dispatch_conductor_send}
use agents_ensemble.Session.Batch.{
  DispatchSourceKey, same_key, key_of, SelectDispatchBatchInput, SelectDispatchBatchResult,
  is_dispatchable, chosen_key, is_eligible, joins_batch, batch_of, select_of_eligible,
  select_dispatch_batch,
}
use agents_ensemble.Session.Batch.Keys.{eq_of_same_key}
use agents_ensemble.Session.Batch.Identity.{Coherent, filter-not-has_event}
use agents_ensemble.Session.Batch.Choice.{
  has_source, Choice, chosen_key-Choice, chosen_key-has_source,
}

-- A successful selection is `batch_of` the key that the ladder chooses for the eligible events.
pub select_dispatch_batch-eq-some :
    (input : SelectDispatchBatchInput) (r : SelectDispatchBatchResult)
    → select_dispatch_batch input ≡ some r
    → (first : SessionEvent) × (rest : List SessionEvent) × (filter (is_eligible input) input.queue
        ≡ first ∷ rest)
      × (r ≡ batch_of input (chosen_key input first rest))
unfolding select_dispatch_batch select_of_eligible
select_dispatch_batch-eq-some input r h = go (filter (is_eligible input) input.queue) refl h
  where
    go :
        (eligible : List SessionEvent)
        → filter (is_eligible input) input.queue ≡ eligible
        → select_of_eligible input eligible ≡ some r
        → (first : SessionEvent) × (rest : List SessionEvent) × (filter
              (is_eligible input)
              input.queue
            ≡ first ∷ rest)
          × (r ≡ batch_of input (chosen_key input first rest))
    go [] e h = cc
    go (first ∷ rest) e h = (first, rest, e, cc)

-- Where one identity is one event, the batch and what stays in the queue are the whole queue: no
-- event is lost, sent twice or moved before another of its list.
pub select_dispatch_batch-Merge :
    (input : SelectDispatchBatchInput) (r : SelectDispatchBatchResult)
    → Coherent input.queue
    → select_dispatch_batch input ≡ some r
    → Merge r.batch.events r.remaining_queue input.queue
select_dispatch_batch-Merge input r c h =
    let (first, rest, _, e) = select_dispatch_batch-eq-some input r h in
    let p = joins_batch input (chosen_key input first rest) in
    rw e (unfold batch_of in rw (filter-not-has_event p input.queue c) (Merge-filter p input.queue))

eq-nil_of_select :
    (input : SelectDispatchBatchInput) (eligible : List SessionEvent)
    → select_of_eligible input eligible ≡ none
    → eligible ≡ []
unfolding select_of_eligible
eq-nil_of_select input [] h = refl
eq-nil_of_select input (e ∷ eligible) h = cc

-- Nothing is selected exactly when no queued event is eligible.
pub select_dispatch_batch-eq-none_iff :
    (input : SelectDispatchBatchInput)
    → (select_dispatch_batch input ≡ none) ↔ (any (is_eligible input) input.queue ≡ false)
unfolding select_dispatch_batch select_of_eligible
select_dispatch_batch-eq-none_iff input = (
  (λ h. any_of_filter_nil (is_eligible input) input.queue (eq-nil_of_select input _ h)),
  (λ h. rw (filter_none (is_eligible input) input.queue h)),
)

joins_batch-sendable :
    (input : SelectDispatchBatchInput) (key : DispatchSourceKey) (e : SessionEvent)
    → joins_batch input key e ≡ true
    → (key_of e ≡ key)
      × (can_dispatch_conductor_send e input.autonomous_turns input.max_turns ≡ true)
unfolding joins_batch is_dispatchable
joins_batch-sendable input key e h = (eq_of_same_key (key_of e) key (ground arith), ground arith)

joins_batch_of_eligible :
    (input : SelectDispatchBatchInput) (key : DispatchSourceKey) (e : SessionEvent)
    → (is_eligible input e && same_key (key_of e) key) ≡ true
    → (joins_batch input key e && is_eligible input e) ≡ true
unfolding joins_batch
joins_batch_of_eligible input key e h = ground arith

-- A batch is never empty: one of its events is a trigger that may go out by itself.
pub select_dispatch_batch-has_trigger :
    (input : SelectDispatchBatchInput) (r : SelectDispatchBatchResult)
    → select_dispatch_batch input ≡ some r
    → any (is_eligible input) r.batch.events ≡ true
select_dispatch_batch-has_trigger input r h =
    let (first, rest, split, e) = select_dispatch_batch-eq-some input r h in
    let key = chosen_key input first rest in
    let p = is_eligible input in
    let found : has_source (filter p input.queue) key ≡ true =
      rw split (chosen_key-has_source input first rest) in
    rw e (
      unfold batch_of in
      rw (any-filter (joins_batch input key) p input.queue) (
        any_of_All _ _ input.queue (All-intro _ (joins_batch_of_eligible input key) input.queue)
          (rw (any-filter p (λ e. same_key (key_of e) key) input.queue) at found)))

-- What is sent comes from one source and is within the turn limit.
pub select_dispatch_batch-All_sendable :
    (input : SelectDispatchBatchInput) (r : SelectDispatchBatchResult)
    → select_dispatch_batch input ≡ some r
    → All
        (λ e.
          (key_of e ≡ r.batch.source_key)
          × (can_dispatch_conductor_send e input.autonomous_turns input.max_turns ≡ true))
        r.batch.events
select_dispatch_batch-All_sendable input r h =
    let (first, rest, _, e) = select_dispatch_batch-eq-some input r h in
    let key = chosen_key input first rest in
    rw e (
      unfold batch_of in
      All-map _ _ (joins_batch-sendable input key) (filter (joins_batch input key) input.queue)
        (All-filter_test (joins_batch input key) input.queue))

-- Which source is selected: the operator if it waits, else a permission, else the worker of the
-- last send if its one continuation is left and it waits, else the source that is least by static
-- priority and then by arrival.
pub select_dispatch_batch-Choice :
    (input : SelectDispatchBatchInput) (r : SelectDispatchBatchResult)
    → select_dispatch_batch input ≡ some r
    → Choice input (filter (is_eligible input) input.queue) r.batch.source_key
select_dispatch_batch-Choice input r h =
    let (first, rest, split, e) = select_dispatch_batch-eq-some input r h in
    rw (e, split) (unfold batch_of in chosen_key-Choice input first rest)
