-- ===== src/Permission/Pipeline.antt =====
-- packages/core/src/permission/permission-pipeline.ts: what the policy does not decide waits for the
-- conductor. `now` is `Date.now()`.
pub mod Laws
use Prim.Native.String.{String}
use agents_ensemble.Base.{ℕ, Bool, true, false, Option, none, some, List, [], ◌∷◌, if◌then◌else◌}
use agents_ensemble.Permission.Policy.{
  PermissionRequest, PermissionVerdict, allow, deny, ask, PermissionPolicyRules,
  evaluate_permission_policy,
}
use agents_ensemble.Permission.Broker.{allow_once, deny_request}
use agents_ensemble.Permission.Registry.{
  PendingPermission, PendingPermissionRegistry, add, take, take_for_worker,
}
use agents_ensemble.Permission.Inbox.{ConductorInbox, fulfill_permission}

-- `some` is `resolved` with its decision, `none` is `deferred`.
unfoldable pub outcome_of :
    PermissionVerdict
    → PendingPermission
    → PendingPermissionRegistry
    → PendingPermissionRegistry × Option String
outcome_of allow entry pending = (pending, some (allow_once entry.request.options))
outcome_of deny entry pending = (pending, some (deny_request entry.request.options))
outcome_of ask entry pending = (add entry pending, none)

module _ (trim lower : String → String) where
  unfoldable pub evaluate :
      PermissionPolicyRules
      → ℕ
      → String
      → String
      → PermissionRequest
      → PendingPermissionRegistry
      → PendingPermissionRegistry × Option String
  unfolding outcome_of
  evaluate policy now request_id worker_id request pending =
      outcome_of (evaluate_permission_policy trim lower request policy)
        (record { id = request_id; worker_id = worker_id; request = request; created_at = now })
        pending

-- `none` is the error on an id that does not wait.
unfoldable pub fulfill_taken :
    String
    → Bool
    → ConductorInbox
    → PendingPermissionRegistry × Option PendingPermission
    → (PendingPermissionRegistry × ConductorInbox × Option PendingPermission)
fulfill_taken request_id approved inbox (pending, none) = (pending, inbox, none)
fulfill_taken request_id approved inbox (pending, some entry) = (
  pending,
  fulfill_permission request_id
      (if approved then allow_once entry.request.options else deny_request entry.request.options)
      inbox,
  some entry,
)

unfoldable pub resolve_and_fulfill :
    String
    → Bool
    → PendingPermissionRegistry
    → ConductorInbox
    → (PendingPermissionRegistry × ConductorInbox × Option PendingPermission)
unfolding fulfill_taken
resolve_and_fulfill request_id approved pending inbox =
    fulfill_taken request_id approved inbox (take request_id pending)

-- `inbox.fulfillPermission(entry.id, deny(entry.request))` for each entry.
pub deny_each : List PendingPermission → ConductorInbox → ConductorInbox
deny_each [] inbox = inbox
deny_each (entry ∷ entries) inbox =
    deny_each entries (fulfill_permission entry.id (deny_request entry.request.options) inbox)

unfoldable pub deny_pending_for_worker :
    String
    → PendingPermissionRegistry
    → ConductorInbox
    → (PendingPermissionRegistry × ConductorInbox × List PendingPermission)
unfolding deny_each
deny_pending_for_worker worker_id pending inbox =
    let (rest, entries) = take_for_worker worker_id pending in
    (rest, deny_each entries inbox, entries)
