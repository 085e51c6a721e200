-- ===== src/Permission/Pipeline/Laws.antt =====
-- What permission-pipeline.ts does to the ids of the waiting and of the open requests.
use Prim.Native.String.{String}
use text.Mathlib.Text.{◌==◌ as str_eq}
use mathlib.Core.Path.{subst}
use agents_ensemble.Base.{
  ◌≡◌, refl, sym, ap, ◌∙◌, true, false, List, [], ◌∷◌, ◌++◌, All, if◌then◌else◌,
}
use agents_ensemble.Base.StringMap.{
  insert, remove, keys, values, drop_key, IsAbsent, IsUnique, keys-remove, drop_key-append,
  drop_key-absent, drop_key-IsUnique,
}
use agents_ensemble.Permission.Registry.{PendingPermission, PendingPermissionRegistry, delete_each}
use agents_ensemble.Permission.Broker.{deny_request}
use agents_ensemble.Permission.Inbox.{ConductorInbox, fulfill_permission}
use agents_ensemble.Permission.Inbox.Laws.{
  IsConserved, fulfill-keys, fulfill-chain, fulfill-IsConserved,
}
use agents_ensemble.Permission.Pipeline.{deny_each}

-- The ids without those of some entries.
abbrev pub drop_each : List PendingPermission → List String → List String
drop_each [] ks = ks
drop_each (entry ∷ entries) ks = drop_each entries (drop_key entry.id ks)

pub deny_each-keys :
    (entries : List PendingPermission) (inbox : ConductorInbox)
    → keys (deny_each entries inbox).permission_waiters
      ≡ drop_each entries (keys inbox.permission_waiters)
unfolding deny_each
deny_each-keys [] inbox = refl
deny_each-keys (entry ∷ entries) inbox =
    let decision = deny_request entry.request.options in
    deny_each-keys entries (fulfill_permission entry.id decision inbox)
    ∙ ap (λ ks. drop_each entries ks) (fulfill-keys entry.id decision inbox)

pub deny_each-chain :
    (entries : List PendingPermission) (inbox : ConductorInbox)
    → (deny_each entries inbox).notify_chain ≡ inbox.notify_chain
unfolding deny_each
deny_each-chain [] inbox = refl
deny_each-chain (entry ∷ entries) inbox =
    let decision = deny_request entry.request.options in
    deny_each-chain entries (fulfill_permission entry.id decision inbox)
    ∙ fulfill-chain entry.id decision inbox

pub deny_each-IsConserved :
    (entries : List PendingPermission) (inbox : ConductorInbox)
    → IsUnique (keys inbox.permission_waiters)
    → IsConserved inbox
    → IsConserved (deny_each entries inbox)
unfolding deny_each
deny_each-IsConserved [] inbox u c = c
deny_each-IsConserved (entry ∷ entries) inbox u c =
    let decision = deny_request entry.request.options in
    deny_each-IsConserved entries (fulfill_permission entry.id decision inbox)
      (subst (λ ks. IsUnique ks) (sym (fulfill-keys entry.id decision inbox))
        (drop_key-IsUnique entry.id (keys inbox.permission_waiters) u))
      (fulfill-IsConserved entry.id decision inbox u c)

pub delete_each-keys :
    (entries : List PendingPermission) (pending : PendingPermissionRegistry)
    → keys (delete_each entries pending) ≡ drop_each entries (keys pending)
unfolding delete_each
delete_each-keys [] pending = refl
delete_each-keys (entry ∷ entries) pending =
    delete_each-keys entries (remove entry.id pending)
    ∙ ap (λ ks. drop_each entries ks) (keys-remove entry.id pending)

-- Entries that are not among the queued ids leave those alone.
pub drop_each-append :
    (entries : List PendingPermission) (ks ls : List String)
    → All (λ entry. IsAbsent entry.id ls) entries
    → drop_each entries (ks ++ ls) ≡ drop_each entries ks ++ ls
drop_each-append [] ks ls h = refl
drop_each-append (entry ∷ entries) ks ls (h, hs) =
    ap (λ ms. drop_each entries ms)
      (drop_key-append entry.id ks ls
        ∙ ap (λ ms. drop_key entry.id ks ++ ms) (drop_key-absent entry.id ls h))
    ∙ drop_each-append entries (drop_key entry.id ks) ls hs

pub drop_each-IsUnique :
    (entries : List PendingPermission) (ks : List String)
    → IsUnique ks
    → IsUnique (drop_each entries ks)
drop_each-IsUnique [] ks h = h
drop_each-IsUnique (entry ∷ entries) ks h =
    drop_each-IsUnique entries (drop_key entry.id ks) (drop_key-IsUnique entry.id ks h)

-- Every entry of the registry stands under its own id.
abbrev pub IsKeyed : PendingPermissionRegistry → Type 0
IsKeyed pending = All (λ e. e.1.id ≡ e.0) pending

pub IsKeyed-remove :
    (key : String) (pending : PendingPermissionRegistry)
    → IsKeyed pending
    → IsKeyed (remove key pending)
unfolding remove
IsKeyed-remove key [] h = tt
IsKeyed-remove key ((k, v) ∷ m) (h, hs) =
    let rest = IsKeyed-remove key m hs in
    elim (str_eq k key) as (λ b. IsKeyed (if b then remove key m else (k, v) ∷ remove key m)) [
      | true ↦ rest
      | false ↦ (h, rest)
    ]

pub IsKeyed-delete_each :
    (entries : List PendingPermission) (pending : PendingPermissionRegistry)
    → IsKeyed pending
    → IsKeyed (delete_each entries pending)
unfolding delete_each
IsKeyed-delete_each [] pending h = h
IsKeyed-delete_each (entry ∷ entries) pending h =
    IsKeyed-delete_each entries (remove entry.id pending) (IsKeyed-remove entry.id pending h)

pub IsKeyed-insert :
    (entry : PendingPermission) (pending : PendingPermissionRegistry)
    → IsKeyed pending
    → IsKeyed (insert entry.id entry pending)
unfolding insert
IsKeyed-insert entry [] h = (refl, tt)
IsKeyed-insert entry ((k, v) ∷ m) (h, hs) =
    let rest = IsKeyed-insert entry m hs in
    elim (str_eq k entry.id)
      as (λ b. IsKeyed (if b then (entry.id, entry) ∷ m else (k, v) ∷ insert entry.id entry m)) [
        | true ↦ (refl, hs)
        | false ↦ (h, rest)
      ]

-- What holds of every key holds of the id of every entry.
pub All-values {κ} :
    (P : String → Type κ) (pending : PendingPermissionRegistry)
    → IsKeyed pending
    → All P (keys pending)
    → All (λ entry. P entry.id) (values pending)
All-values P [] h k = tt
All-values P ((id, entry) ∷ m) (h, hs) (k, ks) = (subst P (sym h) k, All-values P m hs ks)
