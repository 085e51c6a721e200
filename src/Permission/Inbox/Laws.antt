-- ===== src/Permission/Inbox/Laws.antt =====
-- What the operations of conductor-inbox.ts do to the open requests.
use Prim.Native.String.{String}
use text.Mathlib.Text.{◌==◌ as str_eq}
use text.Mathlib.TextEquality.{eq_iff}
use mathlib.Core.Path.{subst}
use agents_ensemble.Base.{
  ℕ, suc, ◌+◌, ◌≡◌, inl, inr, refl, sym, ap, ◌∙◌, Bool-cases, Option, none, some, Option-cases,
  List, [], ◌∷◌, length, arith,
}
use agents_ensemble.Base.StringMap.{
  lookup, remove, keys, drop_key, IsAbsent, IsUnique, keys-remove, lookup-IsAbsent, drop_key-absent,
}
use agents_ensemble.Permission.Inbox.{
  ConductorInbox, Settlement, resolved, settle_waiter, fulfill_permission,
  resolve_permission_idle_waiters,
}

resolve_idle-waiters :
    (inbox : ConductorInbox)
    → (resolve_permission_idle_waiters inbox).permission_waiters ≡ inbox.permission_waiters
unfolding resolve_permission_idle_waiters
resolve_idle-waiters inbox = ground arith

resolve_idle-chain :
    (inbox : ConductorInbox)
    → (resolve_permission_idle_waiters inbox).notify_chain ≡ inbox.notify_chain
unfolding resolve_permission_idle_waiters
resolve_idle-chain inbox = ground arith

resolve_idle-settled :
    (inbox : ConductorInbox)
    → ((resolve_permission_idle_waiters inbox).settled ≡ inbox.settled)
      × ((resolve_permission_idle_waiters inbox).next_promise ≡ inbox.next_promise)
unfolding resolve_permission_idle_waiters
resolve_idle-settled inbox = ground arith

settle-keys :
    (id : String) (settlement : Settlement) (inbox : ConductorInbox)
    → keys
        (settle_waiter id settlement (lookup id inbox.permission_waiters) inbox).permission_waiters
      ≡ drop_key id (keys inbox.permission_waiters)
unfolding settle_waiter
settle-keys id settlement inbox = elim (Option-cases (lookup id inbox.permission_waiters)) [
  | inl e ↦
      let absent = lookup-IsAbsent id inbox.permission_waiters e in
      rw e (sym (drop_key-absent id (keys inbox.permission_waiters) absent))
  | inr (waiter, e) ↦ rw e (
      ap (λ m. keys m)
        (resolve_idle-waiters
          (record inbox { permission_waiters = remove id inbox.permission_waiters }))
      ∙ keys-remove id inbox.permission_waiters)
]

settle-chain :
    (id : String) (settlement : Settlement) (waiter : Option ℕ) (inbox : ConductorInbox)
    → (settle_waiter id settlement waiter inbox).notify_chain ≡ inbox.notify_chain
unfolding settle_waiter
settle-chain id settlement none inbox = refl
settle-chain id settlement (some waiter) inbox =
    resolve_idle-chain (record inbox { permission_waiters = remove id inbox.permission_waiters })

length-remove_absent {ℓ} :
    {V : Type ℓ} (key : String) (m : List (String × V))
    → IsAbsent key (keys m)
    → length (remove key m) ≡ length m
unfolding remove
length-remove_absent key [] h = refl
length-remove_absent key ((k, v) ∷ m) (h, hs) =
    ground (arith, eq_iff k key, length-remove_absent key m hs)

pub length-remove {ℓ} :
    {V : Type ℓ} (key : String) (m : List (String × V)) (value : V)
    → IsUnique (keys m)
    → lookup key m ≡ some value
    → suc (length (remove key m)) ≡ length m
unfolding remove lookup
length-remove key [] value u h = ground arith
length-remove key ((k, v) ∷ m) value (a, u) h = elim (Bool-cases (str_eq k key)) [
  | inl e ↦ rw e (
      ap (λ n. suc n)
        (length-remove_absent key m (subst (λ x. IsAbsent x (keys m)) ((eq_iff k key).0 e) a)))
  | inr e ↦ rw e (ap (λ n. suc n) (length-remove key m value u (ground arith)))
]

-- A settled promise is no longer open, and none is lost.
abbrev pub IsConserved : ConductorInbox → Type 0
IsConserved inbox = length inbox.settled + length inbox.permission_waiters ≡ inbox.next_promise

settle-IsConserved :
    (id : String) (settlement : Settlement) (inbox : ConductorInbox)
    → IsUnique (keys inbox.permission_waiters)
    → IsConserved inbox
    → IsConserved (settle_waiter id settlement (lookup id inbox.permission_waiters) inbox)
unfolding settle_waiter
settle-IsConserved id settlement inbox u c =
    elim (Option-cases (lookup id inbox.permission_waiters)) [
      | inl e ↦ rw e c
      | inr (waiter, e) ↦
          let next : ConductorInbox = record inbox {
            permission_waiters = remove id inbox.permission_waiters;
          } in
          let lost = length-remove id inbox.permission_waiters waiter u e in
          let kept = resolve_idle-waiters next in
          let same = resolve_idle-settled next in
          rw (e, kept, same.0, same.1) (omega (arith, lost, c))
    ]

-- What an operation keeps of the inbox that settles the request of an id, if it is open.
pub fulfill-keys :
    (id decision : String) (inbox : ConductorInbox)
    → keys (fulfill_permission id decision inbox).permission_waiters
      ≡ drop_key id (keys inbox.permission_waiters)
unfolding fulfill_permission
fulfill-keys id decision inbox = settle-keys id (resolved decision) inbox

pub fulfill-chain :
    (id decision : String) (inbox : ConductorInbox)
    → (fulfill_permission id decision inbox).notify_chain ≡ inbox.notify_chain
unfolding fulfill_permission
fulfill-chain id decision inbox =
    settle-chain id (resolved decision) (lookup id inbox.permission_waiters) inbox

pub fulfill-IsConserved :
    (id decision : String) (inbox : ConductorInbox)
    → IsUnique (keys inbox.permission_waiters)
    → IsConserved inbox
    → IsConserved (fulfill_permission id decision inbox)
unfolding fulfill_permission
fulfill-IsConserved id decision inbox u c = settle-IsConserved id (resolved decision) inbox u c
