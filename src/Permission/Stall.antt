-- ===== src/Permission/Stall.antt =====
-- packages/core/src/permission/permission-deadlock-monitor.ts: the warning that requests wait too long.
-- `ref` is the identity of an entry of the registry, which the code's `Set` compares. `timer` says that a
-- poll is scheduled; an abort signal is a stop. The texts of the warnings are left out.
pub mod Check
pub mod Laws
pub mod Refs
pub mod Tells
use Prim.Native.String.{String}
use agents_ensemble.Base.{
  ℕ, ◌+◌, ◌-◌, min, ltb, ◌==◌, Bool, true, false, not, ◌&&◌, ◌||◌, List, [], ◌∷◌, any, length,
  if◌then◌else◌,
}

abbrev pub default_permission_deadlock_stall_ms : ℕ
default_permission_deadlock_stall_ms = 300000

abbrev pub default_permission_deadlock_poll_ms : ℕ
default_permission_deadlock_poll_ms = 5000

pub record PendingEntry : Type 0 where
  pub ref : ℕ
  pub id : String
  pub created_at : ℕ

abbrev pub refs : List PendingEntry → List ℕ
refs [] = []
refs (e ∷ es) = e.ref ∷ refs es

abbrev pub ids : List PendingEntry → List String
ids [] = []
ids (e ∷ es) = e.id ∷ ids es

pub record PermissionDeadlockStall : Type 0 where
  pub pending_permission_ids : List String
  pub pending_permission_count : ℕ
  pub oldest_permission_created_at : ℕ
  pub stall_age_ms : ℕ
  pub stall_threshold_ms : ℕ

-- `stalls` has the calls of `onStall`, the last one first.
pub record PermissionDeadlockMonitor : Type 0 where
  pub started : Bool
  pub stopped : Bool
  pub timer : Bool
  pub warned_for_current_stall : Bool
  pub warned_pending_entries : List ℕ
  pub stalls : List PermissionDeadlockStall

unfoldable pub create_permission_deadlock_monitor : PermissionDeadlockMonitor
create_permission_deadlock_monitor = record {
  started = false;
  stopped = false;
  timer = false;
  warned_for_current_stall = false;
  warned_pending_entries = [];
  stalls = [];
}

unfoldable pub is_permission_deadlock_risk : ℕ → Bool
is_permission_deadlock_risk pending_count = ltb 0 pending_count

abbrev pub has : List ℕ → ℕ → Bool
has xs r = any (λ x. x == r) xs

abbrev pub forget : PermissionDeadlockMonitor → PermissionDeadlockMonitor
forget m = record m { warned_for_current_stall = false; warned_pending_entries = [] }

-- None of the entries of the last warning is pending any more.
unfoldable pub new_episode :
    List PendingEntry → PermissionDeadlockMonitor → PermissionDeadlockMonitor
new_episode pending m =
    if m.warned_for_current_stall && not (any (has m.warned_pending_entries) (refs pending))
    then forget m
    else m

-- `Math.min` of the times of the entries, of which there is one.
abbrev pub oldest : ℕ → List PendingEntry → ℕ
oldest first [] = first
oldest first (e ∷ es) = min first (oldest e.created_at es)

-- The call of `onStall`.
abbrev pub with_stall :
    ℕ → ℕ → ℕ → List PendingEntry → PermissionDeadlockMonitor → PermissionDeadlockMonitor
with_stall threshold now created_at pending m = record m {
  warned_for_current_stall = true;
  warned_pending_entries = refs pending;
  stalls =
      record {
        pending_permission_ids = ids pending;
        pending_permission_count = length pending;
        oldest_permission_created_at = created_at;
        stall_age_ms = now - created_at;
        stall_threshold_ms = threshold;
      }
      ∷ m.stalls;
}

unfoldable pub tell_stall :
    ℕ → ℕ → ℕ → List PendingEntry → PermissionDeadlockMonitor → PermissionDeadlockMonitor
tell_stall threshold now created_at pending m =
    if ltb now (created_at + threshold)
    then m
    else if m.warned_for_current_stall
    then m
    else with_stall threshold now created_at pending m

unfoldable pub check_stall :
    ℕ → ℕ → List PendingEntry → PermissionDeadlockMonitor → PermissionDeadlockMonitor
unfolding new_episode tell_stall
check_stall threshold now [] m = forget m
check_stall threshold now (e ∷ es) m =
    tell_stall threshold now (oldest e.created_at es) (e ∷ es) (new_episode (e ∷ es) m)

unfoldable pub schedule_check : PermissionDeadlockMonitor → PermissionDeadlockMonitor
schedule_check m = if m.stopped || not m.started then m else record m { timer = true }

-- The callback of the timer.
unfoldable pub poll_stall :
    ℕ → ℕ → List PendingEntry → PermissionDeadlockMonitor → PermissionDeadlockMonitor
unfolding check_stall schedule_check
poll_stall threshold now pending m =
    schedule_check (check_stall threshold now pending (record m { timer = false }))

unfoldable pub stop_stall_monitor : PermissionDeadlockMonitor → PermissionDeadlockMonitor
stop_stall_monitor m =
    if m.stopped
    then m
    else record m { stopped = true; started = false; timer = false; warned_pending_entries = [] }

unfoldable pub start_stall_monitor : PermissionDeadlockMonitor → PermissionDeadlockMonitor
unfolding schedule_check
start_stall_monitor m =
    if m.started || m.stopped then m else schedule_check (record m { started = true })
