-- ===== src/Question/MaxTurns.antt =====
-- packages/core/src/escalation/enqueue-max-turns-question.ts: the question of the turn limit.
-- `context` is the text that the code joins from its inputs.
pub mod Laws
use Prim.Native.String.{String}
use agents_ensemble.Base.{
  ℕ, zero, suc, ◌≡◌, refl, Bool, true, false, Option, none, some, List, [], ◌∷◌, find,
  if◌then◌else◌, arith,
}
use agents_ensemble.Question.Registry.{
  OpenQuestion, OpenQuestionSource, conductor, max_turns, text_answer, OpenQuestionRegistry,
  enqueue_question, list_open,
}

abbrev pub max_turns_open_question_text : String
max_turns_open_question_text = "次どうする？"

abbrev pub is_max_turns : OpenQuestionSource → Bool
is_max_turns max_turns = true
is_max_turns conductor = false

-- The registry, the question, and whether `onEnqueued` was called with it.
ensured :
    (ℕ → String)
    → ℕ
    → String
    → OpenQuestionRegistry
    → Option OpenQuestion
    → (OpenQuestionRegistry × OpenQuestion × Bool)
ensured decimal now context registry (some existing) = (registry, existing, false)
ensured decimal now context registry none =
    let (next, entry) =
      enqueue_question decimal now
        (record {
          question = max_turns_open_question_text;
          response_type = text_answer;
          choices = none;
          context = some context;
          related_permission_id = none;
          source = some max_turns;
        })
        registry in
    (next, entry, true)

unfoldable pub ensure_max_turns_open_question :
    (ℕ → String) → ℕ → String → OpenQuestionRegistry → (OpenQuestionRegistry × OpenQuestion × Bool)
unfolding ensured
ensure_max_turns_open_question decimal now context registry =
    ensured decimal now context registry
      (find (λ question. is_max_turns question.source) (list_open registry))
