-- ===== src/Session/Reminder.antt =====
-- packages/core/src/conductor/session/dispatch-hold-reminder-monitor.ts: the reminders of a hold that
-- lasts. `timer` says that a poll is scheduled, `reminders` has the time of each call of `onReminder`
-- with its number of held events, the latest first. A time that is read is an argument.
pub mod Laws
use agents_ensemble.Base.{
  ℕ, ◌+◌, Bool, true, false, not, ◌&&◌, ◌||◌, Option, none, some, List, [], ◌∷◌, ltb, if◌then◌else◌,
}

pub record DispatchHoldReminderMonitor : Type 0 where
  pub started : Bool
  pub stopped : Bool
  pub timer : Bool
  pub hold_active : Bool
  pub next_reminder_at : Option ℕ
  pub reminders : List (ℕ × ℕ)

unfoldable pub create_dispatch_hold_reminder_monitor : DispatchHoldReminderMonitor
create_dispatch_hold_reminder_monitor = record {
  started = false;
  stopped = false;
  timer = false;
  hold_active = false;
  next_reminder_at = none;
  reminders = [];
}

unfoldable pub observe_hold :
    ℕ → ℕ → Bool → DispatchHoldReminderMonitor → DispatchHoldReminderMonitor
observe_hold interval now hold m =
    if not hold
    then record m { hold_active = false; next_reminder_at = none }
    else if m.hold_active
    then m
    else record m { hold_active = true; next_reminder_at = some (now + interval) }

-- The end of a check, at the time that is compared with that of the next reminder.
unfoldable pub remind_at :
    ℕ → ℕ → ℕ → Option ℕ → DispatchHoldReminderMonitor → DispatchHoldReminderMonitor
remind_at interval current_time count none m = m
remind_at interval current_time count (some next) m =
    if ltb current_time next then m else record m {
      next_reminder_at = some (current_time + interval);
      reminders = (current_time, count) ∷ m.reminders;
    }

-- `now` is read by `observeHold`, `current_time` after it; the snapshot is `hold` and `count`.
unfoldable pub check :
    ℕ → ℕ → ℕ → Bool → ℕ → DispatchHoldReminderMonitor → DispatchHoldReminderMonitor
unfolding observe_hold remind_at
check interval now current_time hold count m =
    let observed = observe_hold interval now hold m in
    if hold
    then remind_at interval current_time count observed.next_reminder_at observed
    else observed

unfoldable pub schedule_poll : DispatchHoldReminderMonitor → DispatchHoldReminderMonitor
schedule_poll m = if m.stopped || not m.started then m else record m { timer = true }

-- The callback of the timer.
unfoldable pub poll :
    ℕ → ℕ → ℕ → Bool → ℕ → DispatchHoldReminderMonitor → DispatchHoldReminderMonitor
unfolding check schedule_poll
poll interval now current_time hold count m =
    schedule_poll (check interval now current_time hold count (record m { timer = false }))

unfoldable pub stop_monitor : DispatchHoldReminderMonitor → DispatchHoldReminderMonitor
stop_monitor m =
    if m.stopped then m else record m { stopped = true; started = false; timer = false }

unfoldable pub start_monitor : DispatchHoldReminderMonitor → DispatchHoldReminderMonitor
unfolding schedule_poll
start_monitor m = if m.started || m.stopped then m else schedule_poll (record m { started = true })
