-- ===== src/Session/Loop/Run/Bounded.antt =====
-- The bound on the sends of a run of the loop.
use Prim.Native.String.{String}
use mathlib.Core.Path.{subst}
use agents_ensemble.Base.{
  ℕ, suc, ◌≤◌, ◌<◌, ◌≡◌, Bool-cases, inl, inr, Option, none, some, List, [], ◌∷◌, if◌then◌else◌,
  arith,
}
use agents_ensemble.Base.Int.{pos}
use agents_ensemble.Session.Event.{SessionEvent}
use agents_ensemble.Session.Policy.{autonomous_turns_after_conductor_batch}
use agents_ensemble.Session.Policy.Laws.{
  CanAllDispatch, is_work, has_operator_message, lt-limit_of_work, turns_after-ge, turns_after_work,
}
use agents_ensemble.Session.Loop.{LoopOptions, LoopSession, Send, Locals, Place}
use agents_ensemble.Session.Loop.Run.{Run}
use agents_ensemble.Session.Loop.Run.Moves.{Move, stays, completes, dispatches, Run-induction}

-- The sends of a worker's outcome or a GitHub event since the last message of the operator; the last
-- batch comes first.
abbrev pub work_since_operator : List (List SessionEvent) → ℕ
work_since_operator [] = 0
work_since_operator (batch ∷ sent) =
    let before = work_since_operator sent in
    if has_operator_message batch then 0 else if is_work batch then suc before else before

-- The count of turns, as the send in flight will set it.
abbrev turns_now : Option Send → ℕ → ℕ
turns_now none turns = turns
turns_now (some send) turns = send.autonomous_turns

abbrev IsBounded : ℕ → List (List SessionEvent) → Locals → Type 0
IsBounded limit sent l =
    (work_since_operator sent ≤ turns_now l.in_flight l.autonomous_turns)
    × (work_since_operator sent ≤ limit)

work_since_operator-dispatch :
    (limit turns : ℕ) (batch : List SessionEvent) (sent : List (List SessionEvent))
    → 0 < limit
    → CanAllDispatch turns (pos limit) batch
    → work_since_operator sent ≤ turns
    → work_since_operator sent ≤ limit
    → (work_since_operator (batch ∷ sent) ≤ autonomous_turns_after_conductor_batch batch turns)
      × (work_since_operator (batch ∷ sent) ≤ limit)
work_since_operator-dispatch limit turns batch sent positive may h k =
    elim (Bool-cases (has_operator_message batch)) [
      | inl asked ↦ rw asked (omega arith, omega arith)
      | inr unasked ↦ elim (Bool-cases (is_work batch)) [
        | inl work ↦
            rw (unasked, work)
              (
                omega (arith, h, turns_after_work batch turns unasked work),
                omega (arith, h, lt-limit_of_work limit turns batch positive may work),
              )
        | inr idle ↦ rw (unasked, idle) (omega (arith, h, turns_after-ge batch turns unasked), k)
      ]
    ]

Move-IsBounded :
    (options : LoopOptions) (limit : ℕ) (sent next : List (List SessionEvent)) (l k : Locals)
    → options.max_turns ≡ pos limit
    → 0 < limit
    → Move options sent l next k
    → IsBounded limit sent l
    → IsBounded limit next k
Move-IsBounded options limit sent _ l _ m positive (stays k (f, g, h)) c = rw (f, h) c
Move-IsBounded options limit sent _ l _ m positive (completes k send e f g h) (c, d) =
    rw (f, h) (subst (λ o. work_since_operator sent ≤ turns_now o l.autonomous_turns) e c, d)
Move-IsBounded options limit sent _ l _ m positive (dispatches k batch e may f g h) (c, d) = rw f (
    work_since_operator-dispatch limit l.autonomous_turns batch sent positive
      (subst (λ z. CanAllDispatch l.autonomous_turns z batch) m may)
      (subst (λ o. work_since_operator sent ≤ turns_now o l.autonomous_turns) e c) d)

-- With a positive limit, in every run, resumed or new, and whatever the rest of the session does to
-- the queue, the hold, the permissions and the workers meanwhile, at most as many sends as the limit
-- carry a worker's outcome or a GitHub event between two messages of the operator.
pub Run-bounded :
    (decimal : ℕ → String) (options : LoopOptions) (base limit : ℕ)
    (sent : List (List SessionEvent)) (s : LoopSession) (l : Locals) (p : Place)
    → options.max_turns ≡ pos limit
    → 0 < limit
    → Run decimal options base sent s l p
    → work_since_operator sent ≤ limit
Run-bounded decimal options base limit sent s l p m positive run =
    (Run-induction decimal options base (IsBounded limit) (λ e. (omega arith, omega arith))
      (λ store e. (omega arith, omega arith))
      (λ sent next l k move c. Move-IsBounded options limit sent next l k m positive move c) run).1
