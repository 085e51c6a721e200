-- ===== src/Session/Batch/Continuation.antt =====
-- The continuation of select-dispatch-batch.ts: the priority of the worker of the last send.
use Prim.Native.String.{String}
use agents_ensemble.Base.{◌≡◌, refl, true, false, some, List, filter, arith}
use agents_ensemble.Session.Batch.{
  DispatchSourceKey, operator, permission, worker, has_key, DispatchBatchState,
  SelectDispatchBatchInput, SelectDispatchBatchResult, is_worker_source_key,
  can_use_worker_continuation, is_eligible, select_dispatch_batch, dispatch_batch_state_after_send,
  mark_continuation_consumed,
}
use agents_ensemble.Session.Batch.Keys.{same_key_refl}
use agents_ensemble.Session.Batch.Choice.{
  has_source, Choice, operator_waits, permission_waits, worker_continues, least_source,
}
use agents_ensemble.Session.Batch.Laws.{select_dispatch_batch-Choice}

-- Once a selection of the last worker is marked, the state gives no continuation to any queue.
pub mark_continuation_consumed_once :
    (state : DispatchBatchState) (selected : SelectDispatchBatchResult) (name : String)
    (keys : List DispatchSourceKey)
    → state.last_dispatched_source_key ≡ some (worker name)
    → selected.batch.source_key ≡ worker name
    → can_use_worker_continuation (mark_continuation_consumed state selected) keys ≡ false
unfolding mark_continuation_consumed can_use_worker_continuation is_worker_source_key has_key
mark_continuation_consumed_once state selected name keys last chosen =
    ground (arith, same_key_refl (worker name))

-- After a send to a worker's source the same worker is selected again whenever it has an eligible
-- event and neither the operator nor a permission has one, whatever other workers and GitHub wait,
-- and whether or not the send before it was a continuation already.
pub continues_after_send :
    (input : SelectDispatchBatchInput) (r : SelectDispatchBatchResult) (name : String)
    → let eligible = filter (is_eligible input) input.queue in
      input.state ≡ dispatch_batch_state_after_send (worker name)
      → has_source eligible operator ≡ false
      → has_source eligible permission ≡ false
      → has_source eligible (worker name) ≡ true
      → select_dispatch_batch input ≡ some r
      → r.batch.source_key ≡ worker name
continues_after_send input r name armed no_op no_perm waits h =
    go (select_dispatch_batch-Choice input r h)
  where
    last : input.state.last_dispatched_source_key ≡ some (worker name)
    last = rw armed (unfold dispatch_batch_state_after_send in refl)

    fresh : input.state.continuation_consumed ≡ false
    fresh = rw armed (unfold dispatch_batch_state_after_send in refl)

    go :
        Choice input (filter (is_eligible input) input.queue) r.batch.source_key
        → r.batch.source_key ≡ worker name
    go (operator_waits o e) = cc
    go (permission_waits _ p e) = cc
    go (worker_continues n _ _ (l, _, _) e) = cc (last)
    go (least_source _ _ no_continuation _) = absurd (no_continuation name (last, fresh, waits))
