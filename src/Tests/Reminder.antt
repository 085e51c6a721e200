-- ===== src/Tests/Reminder.antt =====
-- Two reminders of a hold that lasts, with an interval of ten.
use agents_ensemble.Base.{◌≡◌, refl, true, arith}
use agents_ensemble.Session.Reminder.{
  DispatchHoldReminderMonitor, create_dispatch_hold_reminder_monitor, observe_hold, poll,
  start_monitor,
}
use agents_ensemble.Session.Reminder.Laws.{
  create, start, hold_changed, polls, IsSpaced, MonitorRun-IsSpaced,
}

abbrev held_monitor : DispatchHoldReminderMonitor
held_monitor = observe_hold 10 1 true (start_monitor create_dispatch_hold_reminder_monitor)

held_monitor_is_armed : held_monitor.timer ≡ true
unfolding observe_hold start_monitor create_dispatch_hold_reminder_monitor
held_monitor_is_armed = refl

abbrev reminded_once : DispatchHoldReminderMonitor
reminded_once = poll 10 12 12 true 3 held_monitor

reminded_once_is_armed : reminded_once.timer ≡ true
unfolding poll start_monitor create_dispatch_hold_reminder_monitor
reminded_once_is_armed = refl

MonitorRun-IsSpaced_example : IsSpaced 10 (poll 10 25 26 true 4 reminded_once).reminders
MonitorRun-IsSpaced_example = MonitorRun-IsSpaced (
    polls 25 26 true 4 (omega arith) (omega arith) reminded_once_is_armed (
      polls 12 12 true 3 (omega arith) (omega arith) held_monitor_is_armed
        (hold_changed 1 true (omega arith) (start (create 0)))))
