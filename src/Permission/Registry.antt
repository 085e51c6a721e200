-- ===== src/Permission/Registry.antt =====
-- packages/core/src/permission/pending-permission.ts: the requests that wait for the conductor.
use Prim.Native.String.{String}
use text.Mathlib.Text.{◌==◌ as str_eq}
use agents_ensemble.Base.{ℕ, Option, none, some, List, [], ◌∷◌, filter, length}
use agents_ensemble.Base.StringMap.{lookup, insert, remove, values}
use agents_ensemble.Permission.Policy.{PermissionRequest}

pub record PendingPermission : Type 0 where
  pub id : String
  pub worker_id : String
  pub request : PermissionRequest
  pub created_at : ℕ

abbrev pub PendingPermissionRegistry : Type 0
PendingPermissionRegistry = List (String × PendingPermission)

unfoldable pub add : PendingPermission → PendingPermissionRegistry → PendingPermissionRegistry
add entry entries = insert entry.id entry entries

unfoldable pub get : String → PendingPermissionRegistry → Option PendingPermission
get id entries = lookup id entries

unfoldable pub list : PendingPermissionRegistry → List PendingPermission
list entries = values entries

abbrev take_found :
    String
    → Option PendingPermission
    → PendingPermissionRegistry
    → PendingPermissionRegistry × Option PendingPermission
take_found id none entries = (entries, none)
take_found id (some entry) entries = (remove id entries, some entry)

unfoldable pub take :
    String → PendingPermissionRegistry → PendingPermissionRegistry × Option PendingPermission
take id entries = take_found id (lookup id entries) entries

-- `for (const entry of …) this.entries.delete(entry.id)`
unfoldable pub delete_each :
    List PendingPermission → PendingPermissionRegistry → PendingPermissionRegistry
delete_each [] entries = entries
delete_each (entry ∷ rest) entries = delete_each rest (remove entry.id entries)

unfoldable pub take_for_worker :
    String → PendingPermissionRegistry → PendingPermissionRegistry × List PendingPermission
unfolding delete_each list
take_for_worker worker_id entries =
    let taken = filter (λ entry. str_eq entry.worker_id worker_id) (list entries) in
    (delete_each taken entries, taken)

unfoldable pub pending_size : PendingPermissionRegistry → ℕ
pending_size entries = length entries
