-- ===== src/Permission/Stall/Tells.antt =====
-- What a check of the monitor of waiting requests hands to `onStall`.
use agents_ensemble.Base.{ℕ, ◌+◌, ◌≤◌, ◌≡◌, ◌==◌, true, List, ◌∷◌, map, any, All, length}
use agents_ensemble.Permission.Stall.{
  PendingEntry, PermissionDeadlockStall, PermissionDeadlockMonitor,
}

-- One more call of `onStall`, which names every pending request with its id, in their order, counts
-- them, and says since when the oldest of them waits and for how long; the monitor keeps all of them as
-- those that it has told of.
pub record TellsAll (threshold now : ℕ) (pending : List PendingEntry)
    (before after : PermissionDeadlockMonitor) : Type 0 where
  pub stall : PermissionDeadlockStall
  pub called : after.stalls ≡ stall ∷ before.stalls
  pub names : stall.pending_permission_ids ≡ map PendingEntry.id pending
  pub counts : stall.pending_permission_count ≡ length pending
  pub since : All (λ p. stall.oldest_permission_created_at ≤ p.created_at) pending
  pub since_one : any (λ p. p.created_at == stall.oldest_permission_created_at) pending ≡ true
  pub age : stall.stall_age_ms + stall.oldest_permission_created_at ≡ now
  pub is_due : threshold ≤ stall.stall_age_ms
  pub kept : after.warned_pending_entries ≡ map PendingEntry.ref pending
  pub is_warned : after.warned_for_current_stall ≡ true
