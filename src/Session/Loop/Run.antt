-- ===== src/Session/Loop/Run.antt =====
-- The runs of `runConductorSessionDriver`. While the loop awaits, the rest of the session may change
-- everything that it shares with it.
pub mod Moves
pub mod Same
pub mod Counted
pub mod Bounded
pub mod Reading
pub mod Ends
pub mod Idle
use Prim.Native.String.{String}
use agents_ensemble.Base.{
  ℕ, ◌≡◌, Bool, true, false, Option, none, some, List, [], ◌∷◌, if◌then◌else◌,
}
use agents_ensemble.Session.Event.{SessionEvent}
use agents_ensemble.Session.Driver.{Wake, DispatchBatchResult, RoundResult, wait_for_dispatch_batch}
use agents_ensemble.Session.Loop.{
  LoopOptions, LoopSession, Send, Locals, Place, at_initial_send, at_top, at_send, draining_idle,
  at_wait, at_reconnect, ended, threw, draining_after_send, ResumeStore, new_session, first_locals,
  initial_send, wait_input,
}
use agents_ensemble.Session.Loop.Turn.{
  SendEnd, end_initial_send, end_send, sent_drained, idle_drained, interrupt_loop, end_wait, enter,
  is_reconnect,
}

abbrev pub is_over : Place → Bool
is_over ended = true
is_over threw = true
is_over _ = false

-- The batches of the sends, the last one first; a reconnect is no send.
abbrev pub sent_batches :
    Option DispatchBatchResult → List (List SessionEvent) → List (List SessionEvent)
sent_batches none sent = sent
sent_batches (some r) sent = if is_reconnect r.source_key then sent else r.events ∷ sent

-- What the loop waits for, with what it finds whenever it wakes up.
abbrev pub waited : LoopOptions → List Wake → LoopSession → Locals → RoundResult
waited options wakes s l =
    wait_for_dispatch_batch (wait_input options l) s.around wakes s.hold s.queue

abbrev pub after_wait : RoundResult → LoopSession → LoopSession
after_wait r s = record s { hold = r.hold; queue = r.queue }

module _ (decimal : ℕ → String) (options : LoopOptions) where
  -- `base` is the number of sends before the run.
  pub data Run (base : ℕ) : List (List SessionEvent) → LoopSession → Locals → Place → Type 0 where
    begins :
        (s : LoopSession)
        → base ≡ 0
        → Run base ([] ∷ []) s (first_locals new_session (some initial_send)) at_initial_send
    resumes :
        (s : LoopSession) (store : ResumeStore)
        → base ≡ store.send_count
        → Run base [] s (first_locals store none) at_top
    changes :
        {sent : List (List SessionEvent)} (t : LoopSession) {s : LoopSession} {l : Locals}
        {p : Place}
        → is_over p ≡ false
        → Run base sent s l p
        → Run base sent t l p
    ends_initial :
        {sent : List (List SessionEvent)} (end : SendEnd) (send : Send) {s : LoopSession}
        {l : Locals}
        → l.in_flight ≡ some send
        → Run base sent s l at_initial_send
        → Run base sent s (end_initial_send send end l).0 (end_initial_send send end l).1
    enters :
        {sent : List (List SessionEvent)} (now : ℕ) (context : String) {s : LoopSession}
        {l : Locals}
        → Run base sent s l at_top
        → Run base sent
            (enter decimal options now context s l).0
            (enter decimal options now context s l).1
            (enter decimal options now context s l).2
    ends_send :
        {sent : List (List SessionEvent)} (end : SendEnd) (send : Send) {s : LoopSession}
        {l : Locals}
        → l.in_flight ≡ some send
        → Run base sent s l at_send
        → Run base sent s (end_send options end send s l).0 (end_send options end send s l).1
    aborts_send :
        {sent : List (List SessionEvent)} {s : LoopSession} {l : Locals}
        → Run base sent s l at_send
        → Run base sent s (interrupt_loop l).0 (interrupt_loop l).1
    drains_sent :
        {sent : List (List SessionEvent)} (idle_ready : Bool) {s : LoopSession} {l : Locals}
        → Run base sent s l (draining_after_send idle_ready)
        → Run base sent s
            (sent_drained options idle_ready s l).0
            (sent_drained options idle_ready s l).1
    drains_idle :
        {sent : List (List SessionEvent)} {s : LoopSession} {l : Locals}
        → Run base sent s l draining_idle
        → Run base sent s (idle_drained options s l).0 (idle_drained options s l).1
    waits :
        {sent : List (List SessionEvent)} (wakes : List Wake) {s : LoopSession} {l : Locals}
        → Run base sent s l at_wait
        → Run base
            (sent_batches (waited options wakes s l).batch sent)
            (after_wait (waited options wakes s l) s)
            (end_wait (waited options wakes s l).batch l).0
            (end_wait (waited options wakes s l).batch l).1
    reconnects :
        {sent : List (List SessionEvent)} {s : LoopSession} {l : Locals}
        → Run base sent s l at_reconnect
        → Run base sent s l at_top
