-- ===== src/Permission/Inbox.antt =====
-- packages/core/src/runtime/conductor-inbox.ts: the requests whose promises are open, and the chain
-- of messages that the listeners get one after the other. A promise is its number, the count of the
-- requests before it; `settled` and `idle_settled` hold what was resolved or rejected, the latest
-- first.
pub mod Laws
pub mod Idle
use Prim.Native.String.{String}
use agents_ensemble.Base.{
  ℕ, zero, suc, Bool, true, false, Option, none, some, List, [], ◌∷◌, ◌++◌, length, is_empty,
  if◌then◌else◌,
}
use agents_ensemble.Base.StringMap.{lookup, insert, remove}
use agents_ensemble.Session.Event.{WorkerDispatchResult, WorkerFailureRecord}
use agents_ensemble.Permission.Policy.{PermissionRequest}

-- runtime/types.ts
pub data InboxMessage : Type 0 where
  permission_request : String → String → PermissionRequest → InboxMessage
  worker_completed : String → WorkerDispatchResult → InboxMessage
  worker_failed : WorkerFailureRecord → InboxMessage

-- How a promise of a request ends; a decision is its option id.
pub data Settlement : Type 0 where
  resolved : String → Settlement
  rejected : Settlement

pub record ConductorInbox : Type 0 where
  pub permission_waiters : List (String × ℕ)
  pub permission_idle_resolvers : List ℕ
  pub notify_chain : List InboxMessage
  pub next_promise : ℕ
  pub settled : List (ℕ × Settlement)
  pub idle_settled : List ℕ

unfoldable pub pending_permission_count : ConductorInbox → ℕ
pending_permission_count inbox = length inbox.permission_waiters

unfoldable pub enqueue_notify : InboxMessage → ConductorInbox → ConductorInbox
enqueue_notify message inbox = record inbox { notify_chain = inbox.notify_chain ++ message ∷ [] }

-- `id` is the new UUID.
unfoldable pub request_permission :
    String → String → PermissionRequest → ConductorInbox → ConductorInbox
unfolding enqueue_notify
request_permission id worker_id request inbox =
    enqueue_notify (permission_request id worker_id request) (record inbox {
      permission_waiters = insert id inbox.next_promise inbox.permission_waiters;
      next_promise = suc inbox.next_promise;
    })

unfoldable pub resolve_permission_idle_waiters : ConductorInbox → ConductorInbox
resolve_permission_idle_waiters inbox =
    if is_empty inbox.permission_waiters
    then record inbox {
      permission_idle_resolvers = [];
      idle_settled = inbox.permission_idle_resolvers ++ inbox.idle_settled;
    }
    else inbox

-- The common part of `fulfillPermission` and `rejectPermission`, behind the look-up.
settle_waiter : String → Settlement → Option ℕ → ConductorInbox → ConductorInbox
unfolding resolve_permission_idle_waiters
settle_waiter id settlement none inbox = inbox
settle_waiter id settlement (some waiter) inbox =
    let idle =
      resolve_permission_idle_waiters
        (record inbox { permission_waiters = remove id inbox.permission_waiters }) in
    record idle { settled = (waiter, settlement) ∷ idle.settled }

unfoldable pub fulfill_permission : String → String → ConductorInbox → ConductorInbox
unfolding settle_waiter
fulfill_permission id decision inbox =
    settle_waiter id (resolved decision) (lookup id inbox.permission_waiters) inbox

unfoldable pub reject_permission : String → ConductorInbox → ConductorInbox
unfolding settle_waiter
reject_permission id inbox = settle_waiter id rejected (lookup id inbox.permission_waiters) inbox

-- `waiter` is the promise that is made where permissions are open; at once done is `false`.
unfoldable pub wait_for_permissions_idle : ℕ → ConductorInbox → ConductorInbox × Bool
wait_for_permissions_idle waiter inbox =
    if is_empty inbox.permission_waiters then (inbox, false) else (
      record inbox { permission_idle_resolvers = inbox.permission_idle_resolvers ++ waiter ∷ [] },
      true,
    )

unfoldable pub publish_worker_completed :
    String → WorkerDispatchResult → ConductorInbox → ConductorInbox
unfolding enqueue_notify
publish_worker_completed worker_id result inbox =
    enqueue_notify (worker_completed worker_id result) inbox

unfoldable pub publish_worker_failed : WorkerFailureRecord → ConductorInbox → ConductorInbox
unfolding enqueue_notify
publish_worker_failed failure inbox = enqueue_notify (worker_failed failure) inbox
