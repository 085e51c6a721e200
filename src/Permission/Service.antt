-- ===== src/Permission/Service.antt =====
-- packages/core/src/runtime/inbox-processor.ts and the processor that worker-session.ts starts: the
-- messages of the inbox, each answered by the pipeline before the next one is taken.
pub mod Laws
pub mod Run
pub mod Drain
use Prim.Native.String.{String}
use agents_ensemble.Base.{ℕ, Bool, Option, none, some, List, [], ◌∷◌}
use agents_ensemble.Session.Event.{WorkerDispatchResult, WorkerFailureRecord}
use agents_ensemble.Permission.Policy.{PermissionRequest, PermissionPolicyRules}
use agents_ensemble.Permission.Registry.{PendingPermission, PendingPermissionRegistry}
use agents_ensemble.Permission.Inbox.{
  InboxMessage, permission_request, worker_completed, worker_failed, ConductorInbox,
  fulfill_permission,
}
use agents_ensemble.Permission.Pipeline.{evaluate, deny_pending_for_worker}

-- The inbox, the registry and the calls of the session's callbacks, the latest first.
pub record PermissionService : Type 0 where
  pub inbox : ConductorInbox
  pub pending : PendingPermissionRegistry
  pub completed : List WorkerDispatchResult
  pub cleanups : List (String × List PendingPermission)
  pub failed : List WorkerFailureRecord

-- `if (decision !== null) inbox.fulfillPermission(…)`
pub settle_decision :
    String → PendingPermissionRegistry × Option String → PermissionService → PermissionService
settle_decision id (pending, none) service = record service { pending = pending }
settle_decision id (pending, some decision) service = record service {
  pending = pending;
  inbox = fulfill_permission id decision service.inbox;
}

-- `onWorkerFailed` of the processor, which denies what the worker still waits for.
unfoldable pub on_worker_failed : WorkerFailureRecord → PermissionService → PermissionService
on_worker_failed failure service =
    let (pending, inbox, entries) =
      deny_pending_for_worker failure.worker_id service.pending service.inbox in
    record service {
      pending = pending;
      inbox = inbox;
      cleanups = (failure.worker_id, entries) ∷ service.cleanups;
      failed = failure ∷ service.failed;
    }

module _ (trim lower : String → String) where
  -- `decidePermission` of a session with a pipeline; `null` is `none`.
  unfoldable pub decide_permission :
      PermissionPolicyRules
      → ℕ
      → PermissionRequest
      → String
      → String
      → PendingPermissionRegistry
      → PendingPermissionRegistry × Option String
  unfolding evaluate
  decide_permission policy now request worker_id request_id pending =
      evaluate trim lower policy now request_id worker_id request pending

  unfoldable pub on_message :
      PermissionPolicyRules → ℕ → InboxMessage → PermissionService → PermissionService
  unfolding settle_decision decide_permission on_worker_failed
  on_message policy now (permission_request id worker_id request) service =
      settle_decision id (decide_permission policy now request worker_id id service.pending) service
  on_message policy now (worker_completed worker_id result) service = record service {
    completed = result ∷ service.completed;
  }
  on_message policy now (worker_failed failure) service = on_worker_failed failure service

  -- The next message of the chain, if there is one.
  notify_chain_of :
      PermissionPolicyRules → ℕ → List InboxMessage → PermissionService → PermissionService
  unfolding on_message
  notify_chain_of policy now [] service = service
  notify_chain_of policy now (message ∷ rest) service =
      on_message policy now message
        (record service { inbox = record service.inbox { notify_chain = rest } })

  unfoldable pub notify : PermissionPolicyRules → ℕ → PermissionService → PermissionService
  unfolding notify_chain_of
  notify policy now service = notify_chain_of policy now service.inbox.notify_chain service
