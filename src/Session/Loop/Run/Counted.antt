-- ===== src/Session/Loop/Run/Counted.antt =====
-- The number of sends in a run of the loop.
use Prim.Native.String.{String}
use mathlib.Core.Path.{subst}
use agents_ensemble.Base.{ℕ, ◌+◌, ◌≡◌, Option, none, some, List, length, arith}
use agents_ensemble.Session.Event.{SessionEvent}
use agents_ensemble.Session.Loop.{
  LoopOptions, LoopSession, Send, Locals, Place, new_session, first_locals,
}
use agents_ensemble.Session.Loop.Run.{Run}
use agents_ensemble.Session.Loop.Run.Moves.{Move, stays, completes, dispatches, Run-induction}

abbrev pub flights : Option Send → ℕ
flights none = 0
flights (some send) = 1

abbrev count_after : Option Send → ℕ → ℕ
count_after none n = n
count_after (some send) n = send.send_count

-- The second half says that a send in flight counts one more than the loop does.
abbrev IsCounted : ℕ → List (List SessionEvent) → Locals → Type 0
IsCounted base sent l =
    (l.send_count + flights l.in_flight ≡ base + length sent)
    × (count_after l.in_flight l.send_count ≡ l.send_count + flights l.in_flight)

Move-IsCounted :
    (options : LoopOptions) (base : ℕ) (sent next : List (List SessionEvent)) (l k : Locals)
    → Move options sent l next k
    → IsCounted base sent l
    → IsCounted base next k
Move-IsCounted options base sent _ l _ (stays k (f, g, h)) c = rw (f, g) c
Move-IsCounted options base sent _ l _ (completes k send e f g h) (c, d) =
    let c' : l.send_count + 1 ≡ base + length sent =
      subst (λ o. l.send_count + flights o ≡ base + length sent) e c in
    let d' : send.send_count ≡ l.send_count + 1 =
      subst (λ o. count_after o l.send_count ≡ l.send_count + flights o) e d in
    rw (f, g) (omega (arith, c', d'), omega arith)
Move-IsCounted options base sent _ l _ (dispatches k batch e may f g h) (c, d) =
    let c' : l.send_count + 0 ≡ base + length sent =
      subst (λ o. l.send_count + flights o ≡ base + length sent) e c in
    rw (f, g) (omega (arith, c'), omega arith)

-- In every run, whatever the rest of the session does meanwhile, the send count is the number of the
-- batches that were sent, with the sends before a resumption, but for one that may be in flight: two
-- sends never overlap, and none is counted twice or forgotten.
pub Run-send_count :
    (decimal : ℕ → String) (options : LoopOptions) (base : ℕ) (sent : List (List SessionEvent))
    (s : LoopSession) (l : Locals) (p : Place)
    → Run decimal options base sent s l p
    → l.send_count + flights l.in_flight ≡ base + length sent
unfolding first_locals new_session
Run-send_count decimal options base sent s l p run =
    (Run-induction decimal options base (IsCounted base) (λ e. (omega (arith, e), omega arith))
      (λ store e. (omega (arith, e), omega arith))
      (λ sent next l k move c. Move-IsCounted options base sent next l k move c) run).0
