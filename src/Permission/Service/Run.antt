-- ===== src/Permission/Service/Run.antt =====
-- Every run of the permission service of a session.
use Prim.Native.String.{String}
use mathlib.Core.List.{append-nil}
use agents_ensemble.Base.{ℕ, ◌≡◌, refl, sym, ap, ◌∙◌, Bool, List, [], ◌∷◌, ◌++◌}
use agents_ensemble.Base.StringMap.{keys, IsAbsent}
use agents_ensemble.Session.Event.{WorkerDispatchResult, WorkerFailureRecord}
use agents_ensemble.Permission.Policy.{
  PermissionRequest, PermissionPolicyRules, evaluate_permission_policy,
}
use agents_ensemble.Permission.Registry.{PendingPermissionRegistry}
use agents_ensemble.Permission.Inbox.{
  InboxMessage, permission_request, worker_completed, worker_failed, ConductorInbox, enqueue_notify,
  request_permission, publish_worker_completed, publish_worker_failed,
}
use agents_ensemble.Permission.Pipeline.{evaluate, resolve_and_fulfill}
use agents_ensemble.Permission.Service.{
  decide_permission, on_worker_failed, PermissionService, on_message, notify_chain_of, notify,
}
use agents_ensemble.Permission.Service.Laws.{
  IsTracked, queued_ids, queued_ids-append, request-IsTracked, resolve-IsTracked, deny-IsTracked,
  decide-IsTracked,
}

abbrev pub empty_service : PermissionService
empty_service = record {
  inbox = record {
    permission_waiters = [];
    permission_idle_resolvers = [];
    notify_chain = [];
    next_promise = 0;
    settled = [];
    idle_settled = [];
  };
  pending = [];
  completed = [];
  cleanups = [];
  failed = [];
}

module _ (trim lower : String → String) (policy : PermissionPolicyRules) where
  -- What happens to the service, in any order: a worker asks under a new id, completes or fails, the
  -- processor takes the next message, and the conductor decides on an id, known or not.
  pub data Run : PermissionService → Type 0 where
    start : Run empty_service
    request :
        (id worker_id : String) (asked : PermissionRequest) {s : PermissionService}
        → IsAbsent id (keys s.inbox.permission_waiters)
        → Run s
        → Run (record s { inbox = request_permission id worker_id asked s.inbox })
    complete :
        (worker_id : String) (result : WorkerDispatchResult) {s : PermissionService}
        → Run s
        → Run (record s { inbox = publish_worker_completed worker_id result s.inbox })
    fail :
        (failure : WorkerFailureRecord) {s : PermissionService}
        → Run s
        → Run (record s { inbox = publish_worker_failed failure s.inbox })
    process : (now : ℕ) {s : PermissionService} → Run s → Run (notify trim lower policy now s)
    resolve :
        (id : String) (approved : Bool) {s : PermissionService}
        → Run s
        → Run (record s {
          pending = (resolve_and_fulfill id approved s.pending s.inbox).0;
          inbox = (resolve_and_fulfill id approved s.pending s.inbox).1;
        })

  message-IsTracked :
      (message : InboxMessage) (inbox : ConductorInbox) (pending : PendingPermissionRegistry)
      → queued_ids (message ∷ []) ≡ []
      → IsTracked inbox pending
      → IsTracked (enqueue_notify message inbox) pending
  unfolding enqueue_notify
  message-IsTracked message inbox pending e t = record {
    tracked =
        t.tracked
        ∙ ap (λ ks. keys pending ++ ks)
            (sym (append-nil (queued_ids inbox.notify_chain))
              ∙ ap (λ ks. queued_ids inbox.notify_chain ++ ks) (sym e)
              ∙ sym (queued_ids-append inbox.notify_chain message));
    unique = t.unique;
    keyed = t.keyed;
    conserved = t.conserved;
  }

  notify-IsTracked :
      (now : ℕ) (messages : List InboxMessage) (s : PermissionService)
      → s.inbox.notify_chain ≡ messages
      → IsTracked s.inbox s.pending
      → let next = notify_chain_of trim lower policy now messages s in
        IsTracked next.inbox next.pending
  unfolding notify_chain_of on_message decide_permission on_worker_failed evaluate
  notify-IsTracked now [] s e t = t
  notify-IsTracked now (permission_request id worker_id asked ∷ rest) s e t =
      decide-IsTracked (evaluate_permission_policy trim lower asked policy)
        (record { id = id; worker_id = worker_id; request = asked; created_at = now })
        (record s { inbox = record s.inbox { notify_chain = rest } })
        (t.tracked ∙ ap (λ ms. keys s.pending ++ queued_ids ms) e) t.unique t.keyed t.conserved
  notify-IsTracked now (worker_completed worker_id result ∷ rest) s e t = record {
    tracked = t.tracked ∙ ap (λ ms. keys s.pending ++ queued_ids ms) e;
    unique = t.unique;
    keyed = t.keyed;
    conserved = t.conserved;
  }
  notify-IsTracked now (worker_failed failure ∷ rest) s e t =
      deny-IsTracked failure.worker_id (record s.inbox { notify_chain = rest }) s.pending
        (record {
          tracked = t.tracked ∙ ap (λ ms. keys s.pending ++ queued_ids ms) e;
          unique = t.unique;
          keyed = t.keyed;
          conserved = t.conserved;
        })

  -- In every run whose requests come with ids that are not among the open ones, the promises that
  -- are open are, in order, those of the requests in the registry
  -- and then those of the queued messages, no id is twice among them, and the number of the requests
  -- made is that of the settled ones and the open ones together.
  pub Run-IsTracked : {s : PermissionService} → Run s → IsTracked s.inbox s.pending
  unfolding publish_worker_completed publish_worker_failed notify
  Run-IsTracked start = record { tracked = refl; unique = tt; keyed = tt; conserved = refl }
  Run-IsTracked (request id worker_id asked {s} fresh run) =
      request-IsTracked id worker_id asked s.inbox s.pending fresh (Run-IsTracked run)
  Run-IsTracked (complete worker_id result {s} run) =
      message-IsTracked (worker_completed worker_id result) s.inbox s.pending refl
        (Run-IsTracked run)
  Run-IsTracked (fail failure {s} run) =
      message-IsTracked (worker_failed failure) s.inbox s.pending refl (Run-IsTracked run)
  Run-IsTracked (process now {s} run) =
      notify-IsTracked now s.inbox.notify_chain s refl (Run-IsTracked run)
  Run-IsTracked (resolve id approved {s} run) =
      resolve-IsTracked id approved s.inbox s.pending (Run-IsTracked run)
