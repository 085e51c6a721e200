-- ===== src/Permission/Stall/Laws.antt =====
-- Runs of the monitor of waiting requests.
use agents_ensemble.Base.{
  ℕ, ◌≡◌, refl, sym, ap, ◌∙◌, Bool, true, false, not, ◌||◌, List, [], ◌++◌, if_intro, arith,
}
use agents_ensemble.Permission.Stall.{
  PendingEntry, refs, PermissionDeadlockMonitor, create_permission_deadlock_monitor, has,
  schedule_check, poll_stall, stop_stall_monitor, start_stall_monitor,
}
use agents_ensemble.Permission.Stall.Refs.{IsUniqueRefs, no_true, IsUniqueRefs-append}
use agents_ensemble.Permission.Stall.Check.{
  told_by, IsTold, Check, quiet, tells, check_stall-Checked,
}

-- An entry that was told of and is pending was pending at the last poll too: one that has left the
-- registry does not come back.
abbrev pub StaysGone : List ℕ → List ℕ → List ℕ → Type 0
StaysGone told last pending = (r : ℕ) → has told r ≡ true → has pending r ≡ true → has last r ≡ true

module _ (threshold : ℕ) where
  -- `told` are the entries of all the warnings, `last` those that were pending at the last poll.
  pub data StallRun : List ℕ → List ℕ → PermissionDeadlockMonitor → Type 0 where
    begins : StallRun [] [] create_permission_deadlock_monitor
    starts :
        {told last : List ℕ} {m : PermissionDeadlockMonitor}
        → StallRun told last m
        → StallRun told last (start_stall_monitor m)
    stops :
        {told last : List ℕ} {m : PermissionDeadlockMonitor}
        → StallRun told last m
        → StallRun told last (stop_stall_monitor m)
    polls :
        (now : ℕ) (pending : List PendingEntry) {told last : List ℕ} {m : PermissionDeadlockMonitor}
        → m.timer ≡ true
        → IsUniqueRefs (refs pending)
        → StaysGone told last (refs pending)
        → StallRun told last m
        → StallRun
            (told_by threshold now pending (record m { timer = false }) ++ told)
            (refs pending)
            (poll_stall threshold now pending m)

-- The warned entries are those told of that are still pending, as long as the monitor polls.
record IsWarned (told last : List ℕ) (m : PermissionDeadlockMonitor) : Type 0 where
  unique : IsUniqueRefs told
  ended : m.stopped ≡ true → m.timer ≡ false
  kept :
      m.stopped ≡ false
      → (r : ℕ) → has told r ≡ true
      → has last r ≡ true
      → (m.warned_for_current_stall ≡ true) × (has m.warned_pending_entries r ≡ true)

schedule_check-IsWarned :
    (told last : List ℕ) (m : PermissionDeadlockMonitor)
    → IsWarned told last m
    → IsWarned told last (schedule_check m)
unfolding schedule_check
schedule_check-IsWarned told last m h =
    if_intro (IsWarned told last) (m.stopped || not m.started) (λ e. h)
      (λ e. record { unique = h.unique; ended = λ s. ground arith; kept = h.kept })

start-IsWarned :
    (told last : List ℕ) (m : PermissionDeadlockMonitor)
    → IsWarned told last m
    → IsWarned told last (start_stall_monitor m)
unfolding start_stall_monitor
start-IsWarned told last m h =
    if_intro (IsWarned told last) (m.started || m.stopped) (λ e. h)
      (λ e.
        schedule_check-IsWarned told last (record m { started = true })
          (record { unique = h.unique; ended = h.ended; kept = h.kept }))

stop-IsWarned :
    (told last : List ℕ) (m : PermissionDeadlockMonitor)
    → IsWarned told last m
    → IsWarned told last (stop_stall_monitor m)
unfolding stop_stall_monitor
stop-IsWarned told last m h =
    if_intro (IsWarned told last) m.stopped (λ e. h)
      (λ e. record { unique = h.unique; ended = λ s. refl; kept = λ s. no_true (sym s) })

-- A poll, by what its check has told of.
poll-IsWarned :
    (threshold now : ℕ) (pending : List PendingEntry) (told last new : List ℕ)
    (m k : PermissionDeadlockMonitor)
    → m.stopped ≡ false
    → k.stopped ≡ m.stopped
    → IsUniqueRefs (refs pending)
    → StaysGone told last (refs pending)
    → ((r : ℕ) → has told r ≡ true → has last r ≡ true → IsTold m r)
    → IsUniqueRefs told
    → Check pending m k new
    → IsWarned (new ++ told) (refs pending) k
poll-IsWarned threshold now pending told last new m k going stop once gone kept unique
      (quiet none keeps) =
    rw none (record {
      unique = unique;
      ended = λ s. no_true (sym (stop ∙ going) ∙ s);
      kept = λ s r e f. keeps r (kept r e (gone r e f)) f;
    })
poll-IsWarned threshold now pending told last new m k going stop once gone kept unique
      (tells all warned entries apart) =
    rw all (record {
      unique =
          IsUniqueRefs-append (refs pending) told once unique
            (λ r e f. apart r (kept r f (gone r f e)) e);
      ended = λ s. no_true (sym (stop ∙ going) ∙ s);
      kept = λ s r e f. (warned, ap (λ xs. has xs r) entries ∙ f);
    })

StallRun-IsWarned :
    (threshold : ℕ) {told last : List ℕ} {m : PermissionDeadlockMonitor}
    → StallRun threshold told last m
    → IsWarned told last m
unfolding create_permission_deadlock_monitor poll_stall
StallRun-IsWarned threshold begins = record {
  unique = tt;
  ended = λ s. refl;
  kept = λ s r e f. no_true e;
}
StallRun-IsWarned threshold (starts {told = told} {last = last} {m = m} run) =
    start-IsWarned told last m (StallRun-IsWarned threshold run)
StallRun-IsWarned threshold (stops {told = told} {last = last} {m = m} run) =
    stop-IsWarned told last m (StallRun-IsWarned threshold run)
StallRun-IsWarned threshold
      (polls now pending {told = told} {last = last} {m = m} timer once gone run) =
    let h = StallRun-IsWarned threshold run in
    let going = running m.stopped m.timer timer h.ended in
    let idle_timer : PermissionDeadlockMonitor = record m { timer = false } in
    let checked = check_stall-Checked threshold now pending idle_timer in
    schedule_check-IsWarned _ _ _ (
      poll-IsWarned threshold now pending told last _ idle_timer _ going checked.0 once gone
        (h.kept going) h.unique checked.1)
  where
    running :
        (stopped timer : Bool) → timer ≡ true → (stopped ≡ true → timer ≡ false) → stopped ≡ false
    running true timer e f = no_true (sym (f refl) ∙ e)
    running false timer e f = refl

-- If a request that has left the registry does not come back, no run of the monitor, however often it
-- polls and whenever requests come and go between, tells of one request twice.
pub StallRun-tells_once :
    (threshold : ℕ) (told last : List ℕ) (m : PermissionDeadlockMonitor)
    → StallRun threshold told last m
    → IsUniqueRefs told
StallRun-tells_once threshold told last m run = (StallRun-IsWarned threshold run).unique
