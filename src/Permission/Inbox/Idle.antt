-- ===== src/Permission/Inbox/Idle.antt =====
-- `waitForPermissionsIdle` of conductor-inbox.ts: who waits until no request is open.
use Prim.Native.String.{String}
use agents_ensemble.Base.{
  ℕ, ◌+◌, ◌==◌, ◌++◌, if◌then◌else◌, Bool, ◌≡◌, refl, inl, inr, true, false, false≢true, sym, ◌∙◌,
  Bool-cases, Option, none, some, List, [], ◌∷◌, is_empty, arith,
}
use agents_ensemble.Base.StringMap.{lookup, insert, remove}
use agents_ensemble.Permission.Policy.{PermissionRequest}
use agents_ensemble.Permission.Inbox.{
  ConductorInbox, InboxMessage, Settlement, resolved, rejected, settle_waiter,
  resolve_permission_idle_waiters, fulfill_permission, reject_permission, request_permission,
  enqueue_notify, wait_for_permissions_idle,
}

abbrev pub empty_inbox : ConductorInbox
empty_inbox = record {
  permission_waiters = [];
  permission_idle_resolvers = [];
  notify_chain = [];
  next_promise = 0;
  settled = [];
  idle_settled = [];
}

-- `made` are the promises of the waits that had to wait.
abbrev pub made_by : ℕ → Bool → List ℕ → List ℕ
made_by waiter false made = made
made_by waiter true made = waiter ∷ made

-- The inbox after calls of its operations in any order.
pub data InboxRun : List ℕ → ConductorInbox → Type 0 where
  start : InboxRun [] empty_inbox
  asks :
      (id worker_id : String) (request : PermissionRequest) {made : List ℕ} {inbox : ConductorInbox}
      → InboxRun made inbox
      → InboxRun made (request_permission id worker_id request inbox)
  fulfills :
      (id decision : String) {made : List ℕ} {inbox : ConductorInbox}
      → InboxRun made inbox
      → InboxRun made (fulfill_permission id decision inbox)
  rejects :
      (id : String) {made : List ℕ} {inbox : ConductorInbox}
      → InboxRun made inbox
      → InboxRun made (reject_permission id inbox)
  waits :
      (waiter : ℕ) {made : List ℕ} {inbox : ConductorInbox}
      → InboxRun made inbox
      → InboxRun
          (made_by waiter (wait_for_permissions_idle waiter inbox).1 made)
          (wait_for_permissions_idle waiter inbox).0
  publishes :
      (message : InboxMessage) {made : List ℕ} {inbox : ConductorInbox}
      → InboxRun made inbox
      → InboxRun made (enqueue_notify message inbox)

abbrev pub times : ℕ → List ℕ → ℕ
times waiter [] = 0
times waiter (w ∷ ws) = (if w == waiter then 1 else 0) + times waiter ws

times-append :
    (waiter : ℕ) (xs ys : List ℕ) → times waiter (xs ++ ys) ≡ times waiter xs + times waiter ys
times-append waiter [] ys = omega arith
times-append waiter (x ∷ xs) ys = omega (arith, times-append waiter xs ys)

-- Every promise still waits or has been resolved, as often as it was made, and none waits once no
-- request is open.
abbrev pub IsIdleResolved : List ℕ → ConductorInbox → Type 0
IsIdleResolved made inbox =
    ((waiter : ℕ)
      → times waiter made
        ≡ times waiter inbox.permission_idle_resolvers + times waiter inbox.idle_settled)
    × (is_empty inbox.permission_waiters ≡ true → inbox.permission_idle_resolvers ≡ [])

is_empty-insert :
    (key : String) (value : ℕ) (m : List (String × ℕ)) → is_empty (insert key value m) ≡ false
unfolding insert
is_empty-insert key value [] = refl
is_empty-insert key value ((k, v) ∷ m) = ground arith

resolve_idle-IsIdleResolved :
    (made : List ℕ) (inbox : ConductorInbox)
    → ((waiter : ℕ)
        → times waiter made
          ≡ times waiter inbox.permission_idle_resolvers + times waiter inbox.idle_settled)
    → IsIdleResolved made (resolve_permission_idle_waiters inbox)
unfolding resolve_permission_idle_waiters
resolve_idle-IsIdleResolved made inbox h = elim (Bool-cases (is_empty inbox.permission_waiters)) [
  | inl e ↦ rw e (
    (λ w. omega (arith, h w, times-append w inbox.permission_idle_resolvers inbox.idle_settled)),
    (λ f. refl),
  )
  | inr e ↦ rw e (h, λ f. absurd (false≢true (sym e ∙ f)))
]

settle-IsIdleResolved :
    (made : List ℕ) (id : String) (settlement : Settlement) (waiter : Option ℕ)
    (inbox : ConductorInbox)
    → IsIdleResolved made inbox
    → IsIdleResolved made (settle_waiter id settlement waiter inbox)
unfolding settle_waiter
settle-IsIdleResolved made id settlement none inbox h = h
settle-IsIdleResolved made id settlement (some waiter) inbox h =
    resolve_idle-IsIdleResolved made
      (record inbox { permission_waiters = remove id inbox.permission_waiters }) h.0

wait-IsIdleResolved :
    (made : List ℕ) (waiter : ℕ) (inbox : ConductorInbox)
    → IsIdleResolved made inbox
    → IsIdleResolved
        (made_by waiter (wait_for_permissions_idle waiter inbox).1 made)
        (wait_for_permissions_idle waiter inbox).0
unfolding wait_for_permissions_idle
wait-IsIdleResolved made waiter inbox (h, k) =
    elim (Bool-cases (is_empty inbox.permission_waiters)) [
      | inl e ↦ rw e (h, k)
      | inr e ↦ rw e (
        (λ w. omega (arith, h w, times-append w inbox.permission_idle_resolvers (waiter ∷ []))),
        (λ f. absurd (false≢true (sym e ∙ f))),
      )
    ]

-- In every run of the inbox, every promise of a wait for the end of the open requests still waits or has
-- been resolved, in all as often as it was made, and when no request is open none of them waits any
-- more, so all have been resolved.
pub InboxRun-IsIdleResolved :
    {made : List ℕ} {inbox : ConductorInbox} → InboxRun made inbox → IsIdleResolved made inbox
unfolding request_permission enqueue_notify fulfill_permission reject_permission
InboxRun-IsIdleResolved start = ((λ w. refl), (λ _. refl))
InboxRun-IsIdleResolved (asks id worker_id request {made} {inbox} run) = (
  (InboxRun-IsIdleResolved run).0,
  λ e.
      absurd
        (false≢true (sym (is_empty-insert id inbox.next_promise inbox.permission_waiters) ∙ e)),
)
InboxRun-IsIdleResolved (fulfills id decision {made} {inbox} run) =
    settle-IsIdleResolved made id (resolved decision) (lookup id inbox.permission_waiters) inbox
      (InboxRun-IsIdleResolved run)
InboxRun-IsIdleResolved (rejects id {made} {inbox} run) =
    settle-IsIdleResolved made id rejected (lookup id inbox.permission_waiters) inbox
      (InboxRun-IsIdleResolved run)
InboxRun-IsIdleResolved (waits waiter {made} {inbox} run) =
    wait-IsIdleResolved made waiter inbox (InboxRun-IsIdleResolved run)
InboxRun-IsIdleResolved (publishes message {made} {inbox} run) = InboxRun-IsIdleResolved run
