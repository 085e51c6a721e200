-- ===== src/Permission/Service/Laws.antt =====
-- Inbox, registry and message chain of the permission service in one step.
use Prim.Native.String.{String}
use text.Mathlib.Text.{◌==◌ as str_eq}
use text.Mathlib.TextEquality.{eq_iff}
use mathlib.Core.Path.{subst}
use mathlib.Core.List.{append_assoc}
use agents_ensemble.Base.{
  ℕ, suc, ◌≡◌, inl, inr, refl, sym, ap, ◌∙◌, Bool, Option-cases, List, [], ◌∷◌, ◌++◌, All-filter,
  filter, length, if◌then◌else◌, arith,
}
use agents_ensemble.Base.StringMap.{
  lookup, insert, remove, keys, values, drop_key, All-lookup, IsAbsent, IsUnique, keys-remove,
  keys-insert, drop_key-append, drop_key-absent, drop_key-first, drop_key-IsUnique,
  IsUnique-append_end, IsUnique-apart, IsUnique-before, IsUnique-tail,
}
use agents_ensemble.Permission.Policy.{PermissionRequest, PermissionVerdict, allow, deny, ask}
use agents_ensemble.Permission.Broker.{allow_once, deny_request}
use agents_ensemble.Permission.Registry.{
  PendingPermission, PendingPermissionRegistry, add, take, take_for_worker, list, delete_each,
}
use agents_ensemble.Permission.Inbox.{
  InboxMessage, permission_request, worker_completed, worker_failed, ConductorInbox,
  fulfill_permission, enqueue_notify, request_permission,
}
use agents_ensemble.Permission.Inbox.Laws.{
  IsConserved, fulfill-keys, fulfill-chain, fulfill-IsConserved,
}
use agents_ensemble.Permission.Pipeline.{
  outcome_of, fulfill_taken, resolve_and_fulfill, deny_pending_for_worker,
}
use agents_ensemble.Permission.Pipeline.Laws.{
  drop_each, deny_each-keys, deny_each-chain, deny_each-IsConserved, delete_each-keys,
  drop_each-append, drop_each-IsUnique, IsKeyed, IsKeyed-remove, IsKeyed-delete_each,
  IsKeyed-insert, All-values,
}
use agents_ensemble.Permission.Service.{PermissionService, settle_decision}

-- The ids of the requests that the processor has not reached yet.
abbrev pub queued_ids : List InboxMessage → List String
queued_ids [] = []
queued_ids (permission_request id worker_id request ∷ rest) = id ∷ queued_ids rest
queued_ids (worker_completed worker_id result ∷ rest) = queued_ids rest
queued_ids (worker_failed failure ∷ rest) = queued_ids rest

-- The open promises are, in order, those of the requests in the registry and then those of the
-- queued messages; no id is twice among them, and every request made is open or settled.
pub record IsTracked (inbox : ConductorInbox) (pending : PendingPermissionRegistry) : Type 0 where
  pub tracked : keys inbox.permission_waiters ≡ keys pending ++ queued_ids inbox.notify_chain
  pub unique : IsUnique (keys inbox.permission_waiters)
  pub keyed : IsKeyed pending
  pub conserved : IsConserved inbox

pub queued_ids-append :
    (messages : List InboxMessage) (message : InboxMessage)
    → queued_ids (messages ++ message ∷ []) ≡ queued_ids messages ++ queued_ids (message ∷ [])
queued_ids-append [] message = refl
queued_ids-append (permission_request id worker_id request ∷ rest) message =
    ap (λ ids. id ∷ ids) (queued_ids-append rest message)
queued_ids-append (worker_completed worker_id result ∷ rest) message =
    queued_ids-append rest message
queued_ids-append (worker_failed failure ∷ rest) message = queued_ids-append rest message

length-insert :
    (id : String) (waiter : ℕ) (m : List (String × ℕ))
    → IsAbsent id (keys m)
    → length (insert id waiter m) ≡ suc (length m)
unfolding insert
length-insert id waiter [] h = refl
length-insert id waiter ((k, v) ∷ m) (h, hs) =
    ground (arith, eq_iff k id, length-insert id waiter m hs)

-- A request whose id is new, `randomUUID()`.
pub request-IsTracked :
    (id worker_id : String) (request : PermissionRequest) (inbox : ConductorInbox)
    (pending : PendingPermissionRegistry)
    → IsAbsent id (keys inbox.permission_waiters)
    → IsTracked inbox pending
    → IsTracked (request_permission id worker_id request inbox) pending
unfolding request_permission enqueue_notify
request-IsTracked id worker_id request inbox pending fresh t =
    let message = permission_request id worker_id request in
    let grown = keys-insert id inbox.next_promise inbox.permission_waiters fresh in
    let longer = length-insert id inbox.next_promise inbox.permission_waiters fresh in
    let c = t.conserved in
    record {
      tracked =
          grown
          ∙ ap (λ ks. ks ++ id ∷ []) t.tracked
          ∙ append_assoc (keys pending) (queued_ids inbox.notify_chain) (id ∷ [])
          ∙ ap (λ ks. keys pending ++ ks) (sym (queued_ids-append inbox.notify_chain message));
      unique =
          subst (λ ks. IsUnique ks) (sym grown)
            (IsUnique-append_end (keys inbox.permission_waiters) id t.unique fresh);
      keyed = t.keyed;
      conserved = omega (arith, longer, c);
    }

-- Settling the request of an id that the other lists no longer hold.
fulfill-IsTracked :
    (id decision : String) (inbox : ConductorInbox) (pending : PendingPermissionRegistry)
    → drop_key id (keys inbox.permission_waiters) ≡ keys pending ++ queued_ids inbox.notify_chain
    → IsUnique (keys inbox.permission_waiters)
    → IsKeyed pending
    → IsConserved inbox
    → IsTracked (fulfill_permission id decision inbox) pending
fulfill-IsTracked id decision inbox pending d u k c = record {
  tracked =
      fulfill-keys id decision inbox
      ∙ d
      ∙ ap (λ ms. keys pending ++ queued_ids ms) (sym (fulfill-chain id decision inbox));
  unique =
      subst (λ ks. IsUnique ks) (sym (fulfill-keys id decision inbox))
        (drop_key-IsUnique id (keys inbox.permission_waiters) u);
  keyed = k;
  conserved = fulfill-IsConserved id decision inbox u c;
}

pub resolve-IsTracked :
    (id : String) (approved : Bool) (inbox : ConductorInbox) (pending : PendingPermissionRegistry)
    → IsTracked inbox pending
    → IsTracked
        (resolve_and_fulfill id approved pending inbox).1
        (resolve_and_fulfill id approved pending inbox).0
unfolding resolve_and_fulfill fulfill_taken take
resolve-IsTracked id approved inbox pending t = elim (Option-cases (lookup id pending)) [
  | inl e ↦ rw e t
  | inr (entry, e) ↦
      let decision =
        if approved then allow_once entry.request.options else deny_request entry.request.options in
      let queued = queued_ids inbox.notify_chain in
      let apart =
        IsUnique-apart (keys pending) queued (subst (λ ks. IsUnique ks) t.tracked t.unique) in
      let absent = All-lookup (λ k. IsAbsent k queued) id pending entry apart e in
      let dropped : drop_key id (keys inbox.permission_waiters)
          ≡ keys (remove id pending) ++ queued =
        ap (λ ks. drop_key id ks) t.tracked
        ∙ drop_key-append id (keys pending) queued
        ∙ ap (λ ks. drop_key id (keys pending) ++ ks) (drop_key-absent id queued absent)
        ∙ ap (λ ks. ks ++ queued) (sym (keys-remove id pending)) in
      rw e (
        fulfill-IsTracked id decision inbox (remove id pending) dropped t.unique
          (IsKeyed-remove id pending t.keyed) t.conserved)
]

pub deny-IsTracked :
    (worker_id : String) (inbox : ConductorInbox) (pending : PendingPermissionRegistry)
    → IsTracked inbox pending
    → IsTracked
        (deny_pending_for_worker worker_id pending inbox).1
        (deny_pending_for_worker worker_id pending inbox).0
unfolding deny_pending_for_worker take_for_worker
deny-IsTracked worker_id inbox pending t =
    let entries = filter (λ entry. str_eq entry.worker_id worker_id) (list pending) in
    let queued = queued_ids inbox.notify_chain in
    let apart =
      IsUnique-apart (keys pending) queued (subst (λ ks. IsUnique ks) t.tracked t.unique) in
    let absent =
      All-filter (λ entry. IsAbsent entry.id queued) (λ entry. str_eq entry.worker_id worker_id)
        (values pending) (All-values (λ k. IsAbsent k queued) pending t.keyed apart) in
    record {
      tracked =
          deny_each-keys entries inbox
          ∙ ap (λ ks. drop_each entries ks) t.tracked
          ∙ drop_each-append entries (keys pending) queued absent
          ∙ ap (λ ks. ks ++ queued) (sym (delete_each-keys entries pending))
          ∙ ap (λ ms. keys (delete_each entries pending) ++ queued_ids ms)
              (sym (deny_each-chain entries inbox));
      unique =
          subst (λ ks. IsUnique ks) (sym (deny_each-keys entries inbox))
            (drop_each-IsUnique entries (keys inbox.permission_waiters) t.unique);
      keyed = IsKeyed-delete_each entries pending t.keyed;
      conserved = deny_each-IsConserved entries inbox t.unique t.conserved;
    }

first_dropped :
    (id : String) (ps qs ks : List String)
    → ks ≡ ps ++ id ∷ qs
    → IsUnique ks
    → drop_key id ks ≡ ps ++ qs
first_dropped id ps qs ks e u =
    let v = subst (λ ls. IsUnique ls) e u in
    ap (λ ls. drop_key id ls) e
    ∙ drop_key-append id ps (id ∷ qs)
    ∙ ap (λ ls. ls ++ drop_key id (id ∷ qs)) (drop_key-absent id ps (IsUnique-before ps id qs v))
    ∙ ap (λ ls. ps ++ ls) (drop_key-first id qs (IsUnique-tail ps (id ∷ qs) v).0)

-- The verdict on the first queued request.
pub decide-IsTracked :
    (verdict : PermissionVerdict) (entry : PendingPermission) (service : PermissionService)
    → keys service.inbox.permission_waiters
      ≡ keys service.pending ++ entry.id ∷ queued_ids service.inbox.notify_chain
    → IsUnique (keys service.inbox.permission_waiters)
    → IsKeyed service.pending
    → IsConserved service.inbox
    → let next = settle_decision entry.id (outcome_of verdict entry service.pending) service in
      IsTracked next.inbox next.pending
unfolding settle_decision outcome_of add
decide-IsTracked ask entry service e u k c =
    let ids = queued_ids service.inbox.notify_chain in
    let absent =
      IsUnique-before (keys service.pending) entry.id ids (subst (λ ks. IsUnique ks) e u) in
    record {
      tracked =
          e
          ∙ sym (append_assoc (keys service.pending) (entry.id ∷ []) ids)
          ∙ ap (λ ks. ks ++ ids) (sym (keys-insert entry.id entry service.pending absent));
      unique = u;
      keyed = IsKeyed-insert entry service.pending k;
      conserved = c;
    }
decide-IsTracked allow entry service e u k c =
    fulfill-IsTracked entry.id (allow_once entry.request.options) service.inbox service.pending
      (first_dropped entry.id (keys service.pending) (queued_ids service.inbox.notify_chain)
        (keys service.inbox.permission_waiters) e u)
      u k c
decide-IsTracked deny entry service e u k c =
    fulfill-IsTracked entry.id (deny_request entry.request.options) service.inbox service.pending
      (first_dropped entry.id (keys service.pending) (queued_ids service.inbox.notify_chain)
        (keys service.inbox.permission_waiters) e u)
      u k c
