-- ===== src/Session/Reminder/Laws.antt =====
-- How often a hold reminds the operator.
use agents_ensemble.Base.{
  ◌||◌, ℕ, ◌+◌, ◌≤◌, ◌≡◌, refl, inl, inr, Bool, true, false, Bool-cases, not, Option, none, some,
  List, [], ◌∷◌, ltb, arith,
}
use agents_ensemble.Session.Reminder.{
  DispatchHoldReminderMonitor, create_dispatch_hold_reminder_monitor, observe_hold, remind_at,
  check, schedule_poll, poll, stop_monitor, start_monitor,
}

-- The monitor at a time, after calls in any order; a poll runs only while it is scheduled, and the
-- clock does not go back.
pub data MonitorRun (interval : ℕ) : ℕ → DispatchHoldReminderMonitor → Type 0 where
  create : (clock : ℕ) → MonitorRun interval clock create_dispatch_hold_reminder_monitor
  start :
      {clock : ℕ} {m : DispatchHoldReminderMonitor}
      → MonitorRun interval clock m
      → MonitorRun interval clock (start_monitor m)
  stop :
      {clock : ℕ} {m : DispatchHoldReminderMonitor}
      → MonitorRun interval clock m
      → MonitorRun interval clock (stop_monitor m)
  hold_changed :
      (now : ℕ) (hold : Bool) {clock : ℕ} {m : DispatchHoldReminderMonitor}
      → clock ≤ now
      → MonitorRun interval clock m
      → MonitorRun interval now (observe_hold interval now hold m)
  polls :
      (now current_time : ℕ) (hold : Bool) (count : ℕ) {clock : ℕ} {m : DispatchHoldReminderMonitor}
      → clock ≤ now
      → now ≤ current_time
      → m.timer ≡ true
      → MonitorRun interval clock m
      → MonitorRun interval current_time (poll interval now current_time hold count m)

-- The latest reminder is at least the interval before a time.
abbrev IsBefore : ℕ → List (ℕ × ℕ) → ℕ → Type 0
IsBefore interval [] n = Unit {0}
IsBefore interval (reminder ∷ rest) n = reminder.0 + interval ≤ n

-- Each reminder comes at least the interval after the one before it.
abbrev pub IsSpaced : ℕ → List (ℕ × ℕ) → Type 0
IsSpaced interval [] = Unit
IsSpaced interval (reminder ∷ rest) = IsBefore interval rest reminder.0 × IsSpaced interval rest

abbrev IsDue : ℕ → List (ℕ × ℕ) → Option ℕ → Type 0
IsDue interval reminders none = Unit {0}
IsDue interval reminders (some next) = IsBefore interval reminders next

-- The three facts that every call keeps, at a time.
abbrev IsTimed : ℕ → ℕ → DispatchHoldReminderMonitor → Type 0
IsTimed interval clock m =
    IsSpaced interval m.reminders
    × IsBefore 0 m.reminders clock
    × IsDue interval m.reminders m.next_reminder_at

later_IsBefore :
    (interval : ℕ) (reminders : List (ℕ × ℕ)) (a b : ℕ)
    → a ≤ b
    → IsBefore interval reminders a
    → IsBefore interval reminders b
later_IsBefore interval [] a b l h = tt
later_IsBefore interval (reminder ∷ rest) a b l h = omega (arith, l, h)

interval_IsBefore :
    (interval : ℕ) (reminders : List (ℕ × ℕ)) (a : ℕ)
    → IsBefore 0 reminders a
    → IsBefore interval reminders (a + interval)
interval_IsBefore interval [] a h = tt
interval_IsBefore interval (reminder ∷ rest) a h = omega (arith, h)

observe_hold-IsTimed :
    (interval clock now : ℕ) (hold : Bool) (m : DispatchHoldReminderMonitor)
    → clock ≤ now
    → IsTimed interval clock m
    → IsTimed interval now (observe_hold interval now hold m)
unfolding observe_hold
observe_hold-IsTimed interval clock now false m l (s, b, d) =
    (s, later_IsBefore 0 m.reminders clock now l b, tt)
observe_hold-IsTimed interval clock now true m l (s, b, d) =
    let later = later_IsBefore 0 m.reminders clock now l b in
    elim (Bool-cases m.hold_active) [
      | inl e ↦ rw e (s, later, d)
      | inr e ↦ rw e (s, later, interval_IsBefore interval m.reminders now later)
    ]

remind_at-IsTimed :
    (interval now current_time count : ℕ) (next : Option ℕ) (m : DispatchHoldReminderMonitor)
    → now ≤ current_time
    → m.next_reminder_at ≡ next
    → IsTimed interval now m
    → IsTimed interval current_time (remind_at interval current_time count next m)
unfolding remind_at
remind_at-IsTimed interval now current_time count none m l e (s, b, d) =
    (s, later_IsBefore 0 m.reminders now current_time l b, d)
remind_at-IsTimed interval now current_time count (some next) m l e (s, b, d) =
    elim (Bool-cases (ltb current_time next)) [
      | inl early ↦ rw early (s, later_IsBefore 0 m.reminders now current_time l b, d)
      | inr due ↦ rw due (
        (later_IsBefore interval m.reminders next current_time (ground arith) (rw e at d), s),
        omega arith,
        omega arith,
      )
    ]

check-IsTimed :
    (interval clock now current_time : ℕ) (hold : Bool) (count : ℕ)
    (m : DispatchHoldReminderMonitor)
    → clock ≤ now
    → now ≤ current_time
    → IsTimed interval clock m
    → IsTimed interval current_time (check interval now current_time hold count m)
unfolding check
check-IsTimed interval clock now current_time false count m l k t =
    observe_hold-IsTimed interval clock current_time false m (omega (arith, l, k)) t
check-IsTimed interval clock now current_time true count m l k t =
    let observed = observe_hold interval now true m in
    remind_at-IsTimed interval now current_time count observed.next_reminder_at observed k refl
      (observe_hold-IsTimed interval clock now true m l t)

schedule_poll-IsTimed :
    (interval clock : ℕ) (m : DispatchHoldReminderMonitor)
    → IsTimed interval clock m
    → IsTimed interval clock (schedule_poll m)
unfolding schedule_poll
schedule_poll-IsTimed interval clock m t = elim (Bool-cases (m.stopped || not m.started)) [
  | inl e ↦ rw e t
  | inr e ↦ rw e t
]

start-IsTimed :
    (interval clock : ℕ) (m : DispatchHoldReminderMonitor)
    → IsTimed interval clock m
    → IsTimed interval clock (start_monitor m)
unfolding start_monitor
start-IsTimed interval clock m t = elim (Bool-cases (m.started || m.stopped)) [
  | inl e ↦ rw e t
  | inr e ↦ rw e (schedule_poll-IsTimed interval clock (record m { started = true }) t)
]

stop-IsTimed :
    (interval clock : ℕ) (m : DispatchHoldReminderMonitor)
    → IsTimed interval clock m
    → IsTimed interval clock (stop_monitor m)
unfolding stop_monitor
stop-IsTimed interval clock m t = elim (Bool-cases m.stopped) [ inl e ↦ rw e t | inr e ↦ rw e t ]

MonitorRun-IsTimed :
    {interval clock : ℕ} {m : DispatchHoldReminderMonitor}
    → MonitorRun interval clock m
    → IsTimed interval clock m
unfolding create_dispatch_hold_reminder_monitor poll
MonitorRun-IsTimed (create clock) = (tt, tt, tt)
MonitorRun-IsTimed {interval} {clock} (start {m = m} run) =
    start-IsTimed interval clock m (MonitorRun-IsTimed run)
MonitorRun-IsTimed {interval} {clock} (stop {m = m} run) =
    stop-IsTimed interval clock m (MonitorRun-IsTimed run)
MonitorRun-IsTimed {interval} (hold_changed now hold {clock} {m} l run) =
    observe_hold-IsTimed interval clock now hold m l (MonitorRun-IsTimed run)
MonitorRun-IsTimed {interval} (polls now current_time hold count {clock} {m} l k armed run) =
    schedule_poll-IsTimed interval current_time
      (check interval now current_time hold count (record m { timer = false }))
      (check-IsTimed interval clock now current_time hold count (record m { timer = false }) l k
        (MonitorRun-IsTimed run))

-- However often the hold is set and released, and whenever the polls come, two reminders are at
-- least the interval apart, as long as the clock does not go back.
pub MonitorRun-IsSpaced :
    {interval clock : ℕ} {m : DispatchHoldReminderMonitor}
    → MonitorRun interval clock m
    → IsSpaced interval m.reminders
MonitorRun-IsSpaced run = (MonitorRun-IsTimed run).0
