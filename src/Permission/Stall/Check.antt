-- ===== src/Permission/Stall/Check.antt =====
-- What a check of the monitor of waiting requests tells of.
use agents_ensemble.Base.{
  ℕ, suc, ◌+◌, ◌≡◌, refl, sym, ap, ◌∙◌, ltb, ◌==◌, true, false, not, ◌&&◌, List, [], ◌∷◌, any,
  length, if_intro, if◌then◌else◌, arith,
}
use agents_ensemble.Permission.Stall.{
  PendingEntry, refs, PermissionDeadlockMonitor, has, forget, new_episode, oldest, with_stall,
  tell_stall, check_stall,
}
use agents_ensemble.Permission.Stall.Refs.{any-has, no_true}

-- What a check tells of: the entries that are pending, if it calls `onStall`.
abbrev pub told_by : ℕ → ℕ → List PendingEntry → PermissionDeadlockMonitor → List ℕ
told_by threshold now pending m =
    if length (check_stall threshold now pending m).stalls == length m.stalls
    then []
    else refs pending

-- An entry that the last warning told of.
abbrev pub IsTold : PermissionDeadlockMonitor → ℕ → Type 0
IsTold m r = (m.warned_for_current_stall ≡ true) × (has m.warned_pending_entries r ≡ true)

-- What a new episode forgets is not pending.
new_episode_keeps :
    (pending : List PendingEntry) (m : PermissionDeadlockMonitor) (r : ℕ)
    → IsTold m r
    → has (refs pending) r ≡ true
    → IsTold (new_episode pending m) r
unfolding new_episode
new_episode_keeps pending m r (w, h) k =
    if_intro (λ (n : PermissionDeadlockMonitor). IsTold n r)
      (m.warned_for_current_stall && not (any (has m.warned_pending_entries) (refs pending)))
      (λ e. ground (arith, any-has m.warned_pending_entries (refs pending) r h k)) (λ e. (w, h))

pub new_episode-stalls :
    (pending : List PendingEntry) (m : PermissionDeadlockMonitor)
    → ((new_episode pending m).stalls ≡ m.stalls) × ((new_episode pending m).stopped ≡ m.stopped)
unfolding new_episode
new_episode-stalls pending m = ground arith

-- A check either tells of nothing and keeps what it has told of, or tells of all that is pending,
-- nothing of which the last warning told of.
pub data Check (pending : List PendingEntry) (m k : PermissionDeadlockMonitor) (told : List ℕ)
    : Type 0 where
  quiet :
      told ≡ []
      → ((r : ℕ) → IsTold m r → has (refs pending) r ≡ true → IsTold k r)
      → Check pending m k told
  tells :
      told ≡ refs pending
      → k.warned_for_current_stall ≡ true
      → k.warned_pending_entries ≡ refs pending
      → ((r : ℕ) → IsTold m r → has (refs pending) r ≡ true → ⊥)
      → Check pending m k told

same_length : (n : ℕ) → (n == n) ≡ true
same_length n = ground arith

-- What a monitor tells of with a change of its calls.
abbrev told_of : List PendingEntry → PermissionDeadlockMonitor → PermissionDeadlockMonitor → List ℕ
told_of pending m k = if length k.stalls == length m.stalls then [] else refs pending

told_nothing :
    (pending : List PendingEntry) (m k : PermissionDeadlockMonitor)
    → k.stalls ≡ m.stalls
    → told_of pending m k ≡ []
told_nothing pending m k e = ground (arith, ap length e, same_length (length m.stalls))

told_all :
    (pending : List PendingEntry) (m k : PermissionDeadlockMonitor)
    → length k.stalls ≡ suc (length m.stalls)
    → told_of pending m k ≡ refs pending
told_all pending m k e = ground arith

abbrev Checked : List PendingEntry → PermissionDeadlockMonitor → PermissionDeadlockMonitor → Type 0
Checked pending m k = (k.stopped ≡ m.stopped) × Check pending m k (told_of pending m k)

tell_stall-Checked :
    (threshold now created_at : ℕ) (pending : List PendingEntry) (m n : PermissionDeadlockMonitor)
    → n.stalls ≡ m.stalls
    → n.stopped ≡ m.stopped
    → ((r : ℕ) → IsTold m r → has (refs pending) r ≡ true → IsTold n r)
    → Checked pending m (tell_stall threshold now created_at pending n)
unfolding tell_stall
tell_stall-Checked threshold now created_at pending m n same stop keeps =
    if_intro (Checked pending m) (ltb now (created_at + threshold))
      (λ e. (stop, quiet (told_nothing pending m n same) keeps))
      (λ e.
        if_intro (Checked pending m) n.warned_for_current_stall
          (λ f. (stop, quiet (told_nothing pending m n same) keeps))
          (λ f. (
            stop,
            tells
                (told_all pending m (with_stall threshold now created_at pending n)
                  (ap (λ xs. suc (length xs)) same))
                refl refl (λ r w k. no_true (sym f ∙ (keeps r w k).0)),
          )))

pub check_stall-Checked :
    (threshold now : ℕ) (pending : List PendingEntry) (m : PermissionDeadlockMonitor)
    → Checked pending m (check_stall threshold now pending m)
unfolding check_stall
check_stall-Checked threshold now [] m =
    (refl, quiet (told_nothing [] m (forget m) refl) (λ r w k. no_true k))
check_stall-Checked threshold now (e ∷ es) m =
    let same = new_episode-stalls (e ∷ es) m in
    tell_stall-Checked threshold now (oldest e.created_at es) (e ∷ es) m _ same.0 same.1
      (new_episode_keeps (e ∷ es) m)

pub new_episode-forgets :
    (pending : List PendingEntry) (m : PermissionDeadlockMonitor)
    → any (has m.warned_pending_entries) (refs pending) ≡ false
    → (new_episode pending m).warned_for_current_stall ≡ false
unfolding new_episode
new_episode-forgets pending m e = ground arith
