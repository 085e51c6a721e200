-- ===== src/Permission/Service/Drain.antt =====
-- `ConductorInbox.drain`: what is left when the processor has taken every queued message.
use Prim.Native.String.{String}
use mathlib.Core.List.{append-nil}
use agents_ensemble.Base.{
  ℕ, suc, ◌≡◌, refl, ap, ◌∙◌, Option, none, some, List, [], ◌∷◌, ◌++◌, length, arith,
}
use agents_ensemble.Base.StringMap.{keys}
use agents_ensemble.Permission.Policy.{PermissionPolicyRules}
use agents_ensemble.Permission.Registry.{PendingPermissionRegistry, take_for_worker}
use agents_ensemble.Permission.Inbox.{
  InboxMessage, permission_request, worker_completed, worker_failed,
}
use agents_ensemble.Permission.Inbox.Laws.{fulfill-chain}
use agents_ensemble.Permission.Pipeline.{deny_pending_for_worker}
use agents_ensemble.Permission.Pipeline.Laws.{deny_each-chain}
use agents_ensemble.Permission.Service.{
  PermissionService, settle_decision, decide_permission, on_worker_failed, on_message,
  notify_chain_of, notify,
}
use agents_ensemble.Permission.Service.Laws.{queued_ids}
use agents_ensemble.Permission.Service.Run.{Run, process, Run-IsTracked}

settle_decision-chain :
    (id : String) (r : PendingPermissionRegistry × Option String) (s : PermissionService)
    → (settle_decision id r s).inbox.notify_chain ≡ s.inbox.notify_chain
unfolding settle_decision
settle_decision-chain id (pending, none) s = refl
settle_decision-chain id (pending, some decision) s = fulfill-chain id decision s.inbox

module _ (trim lower : String → String) (policy : PermissionPolicyRules) where
  -- `drain` awaits the chain: one processing for each queued message, at the given times.
  unfoldable pub drain : List ℕ → PermissionService → PermissionService
  unfolding notify
  drain [] s = s
  drain (now ∷ times) s = drain times (notify trim lower policy now s)

  on_message-chain :
      (now : ℕ) (message : InboxMessage) (s : PermissionService)
      → (on_message trim lower policy now message s).inbox.notify_chain ≡ s.inbox.notify_chain
  unfolding on_message on_worker_failed deny_pending_for_worker
  on_message-chain now (permission_request id worker_id asked) s =
      settle_decision-chain id
        (decide_permission trim lower policy now asked worker_id id s.pending) s
  on_message-chain now (worker_completed worker_id result) s = refl
  on_message-chain now (worker_failed failure) s =
      deny_each-chain (take_for_worker failure.worker_id s.pending).1 s.inbox

  notify-length :
      (now : ℕ) (messages : List InboxMessage) (s : PermissionService)
      → s.inbox.notify_chain ≡ messages
      → (n : ℕ) → length messages ≡ suc n
      → length (notify_chain_of trim lower policy now messages s).inbox.notify_chain ≡ n
  unfolding notify_chain_of
  notify-length now [] s e n l = ground arith
  notify-length now (message ∷ rest) s e n l =
      ap (λ ms. length ms)
        (on_message-chain now message (record s { inbox = record s.inbox { notify_chain = rest } }))
      ∙ ground arith

  eq-nil_of_length : (messages : List InboxMessage) → length messages ≡ 0 → messages ≡ []
  eq-nil_of_length [] h = refl
  eq-nil_of_length (message ∷ rest) h = ground arith

  drain-Run :
      (times : List ℕ) {s : PermissionService}
      → Run trim lower policy s
      → Run trim lower policy (drain times s)
  unfolding drain
  drain-Run [] run = run
  drain-Run (now ∷ times) run = drain-Run times (process now run)

  drain-chain :
      (times : List ℕ) (s : PermissionService)
      → length s.inbox.notify_chain ≡ length times
      → (drain times s).inbox.notify_chain ≡ []
  unfolding drain notify
  drain-chain [] s l = eq-nil_of_length s.inbox.notify_chain l
  drain-chain (now ∷ times) s l =
      drain-chain times (notify trim lower policy now s)
        (notify-length now s.inbox.notify_chain s refl (length times) l)

  -- After any run, as many processings as messages are queued empty the queue, and then the open
  -- requests are exactly those of the registry, in its order.
  pub drain_settles :
      (times : List ℕ) {s : PermissionService}
      → Run trim lower policy s
      → length s.inbox.notify_chain ≡ length times
      → let done = drain times s in
        (done.inbox.notify_chain ≡ []) × (keys done.inbox.permission_waiters ≡ keys done.pending)
  drain_settles times {s} run l =
      let empty = drain-chain times s l in
      let tracked = (Run-IsTracked trim lower policy (drain-Run times run)).tracked in
      let done = drain times s in
      (
        empty,
        tracked
            ∙ ap (λ ms. keys done.pending ++ queued_ids ms) empty
            ∙ append-nil (keys done.pending),
      )
