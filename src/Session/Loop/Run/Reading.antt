-- ===== src/Session/Loop/Run/Reading.antt =====
-- What the loop has read where it last evaluated whether to stop.
use Prim.Native.String.{String}
use agents_ensemble.Base.{ℕ, ◌≡◌, Option, none, some, List}
use agents_ensemble.Session.Event.{SessionEvent}
use agents_ensemble.Session.Policy.{resolve_issue_loop_stop_reason}
use agents_ensemble.Session.Policy.Laws.{StopCause}
use agents_ensemble.Session.Loop.{
  LoopOptions, LoopSession, Send, Locals, Place, build_issue_loop_stop_input,
}
use agents_ensemble.Session.Loop.Turn.{
  SendEnd, send_threw, send_ended, complete_send, prune_with, ensure_question,
}
use agents_ensemble.Session.Loop.Run.{
  Run, begins, resumes, changes, ends_initial, enters, ends_send, aborts_send, drains_sent,
  drains_idle, waits, reconnects,
}

-- The session and the locals of the loop as an evaluation of the stop reads them.
abbrev pub Reading : Type 0
Reading = Option (LoopSession × Locals)

abbrev pub read_at_end : SendEnd → Send → LoopSession → Locals → Reading
read_at_end send_threw send s l = none
read_at_end (send_ended status a b c) send s l = some (s, complete_send send status a b c l)

abbrev pub read_at_entry :
    (ℕ → String) → LoopOptions → ℕ → String → Option Send → LoopSession → Locals → Reading
read_at_entry decimal options now context none s l =
    some (ensure_question decimal options now context s l, l)
read_at_entry decimal options now context (some send) s l = none

-- What the last evaluation of this very run has read, if the run has only changed its session and
-- drained the inbox since.
abbrev pub last_reading :
    (decimal : ℕ → String) (options : LoopOptions) (base : ℕ) {sent : List (List SessionEvent)}
    {s : LoopSession} {l : Locals} {p : Place}
    → Run decimal options base sent s l p
    → Reading
last_reading decimal options base (begins s e) = none
last_reading decimal options base (resumes s store e) = none
last_reading decimal options base (changes t e run) = last_reading decimal options base run
last_reading decimal options base (ends_initial end send e run) = none
last_reading decimal options base (enters now context {s = s} {l = l} run) =
    read_at_entry decimal options now context l.in_flight
      (prune_with s.around.is_permission_pending s) l
last_reading decimal options base (ends_send end send {s = s} {l = l} e run) =
    read_at_end end send s l
last_reading decimal options base (aborts_send run) = none
last_reading decimal options base (drains_sent idle_ready run) =
    last_reading decimal options base run
last_reading decimal options base (drains_idle run) = last_reading decimal options base run
last_reading decimal options base (waits wakes run) = none
last_reading decimal options base (reconnects run) = none

-- The reading has a cause to stop, and the locals are those that it has read, with the reason that it
-- gives.
pub record StopRead (options : LoopOptions) (reading : Reading) (l : Locals) : Type 0 where
  pub session : LoopSession
  pub locals : Locals
  pub is_read : reading ≡ some (session, locals)
  pub cause : StopCause (build_issue_loop_stop_input options session locals)
  pub left : l ≡ record locals {
    stop_reason =
        resolve_issue_loop_stop_reason (build_issue_loop_stop_input options session locals);
  }
