-- ===== src/Question/MaxTurns/Laws.antt =====
-- How often the question of the turn limit is asked.
use Prim.Native.String.{String}
use agents_ensemble.Base.{
  ℕ, suc, ◌≡◌, refl, ap, ◌∙◌, inl, inr, Bool, true, false, none, some, Option-cases, List, [], ◌∷◌,
  ◌++◌, find, filter, filter-append, get_or_else, arith,
}
use agents_ensemble.Base.StringMap.{values, insert-absent, values-append}
use agents_ensemble.Question.Registry.{
  OpenQuestion, conductor, max_turns, text_answer, EnqueueOpenQuestionInput, OpenQuestionRegistry,
  inquiry_id, new_question, enqueue_question, is_open, list_questions, list_open,
}
use agents_ensemble.Question.Registry.Laws.{IsWellFormed, next_id-IsAbsent}
use agents_ensemble.Question.MaxTurns.{
  is_max_turns, max_turns_open_question_text, ensured, ensure_max_turns_open_question,
}

find-append_none :
    (p : OpenQuestion → Bool) (xs : List OpenQuestion) (x : OpenQuestion)
    → find p xs ≡ none
    → p x ≡ true
    → find p (xs ++ x ∷ []) ≡ some x
find-append_none p [] x h e = ground arith
find-append_none p (y ∷ xs) x h e = ground (arith, find-append_none p xs x)

abbrev asks_limit : OpenQuestion → Bool
asks_limit question = is_max_turns question.source

new_source :
    (decimal : ℕ → String) (now : ℕ) (input : EnqueueOpenQuestionInput)
    (registry : OpenQuestionRegistry)
    → asks_limit (enqueue_question decimal now input registry).1
      ≡ is_max_turns (get_or_else input.source conductor)
unfolding enqueue_question new_question
new_source decimal now input registry = refl

module _ (decimal : ℕ → String) where
  list_open-enqueue_question :
      ((m n : ℕ) → decimal m ≡ decimal n → m ≡ n)
      → (now : ℕ) (input : EnqueueOpenQuestionInput) (registry : OpenQuestionRegistry)
      → IsWellFormed decimal registry
      → list_open (enqueue_question decimal now input registry).0
        ≡ list_open registry ++ (enqueue_question decimal now input registry).1 ∷ []
  unfolding list_open list_questions enqueue_question new_question
  list_open-enqueue_question injective now input registry w =
      let id = inquiry_id decimal (suc registry.sequence) in
      let entry = new_question id now input in
      let absent = next_id-IsAbsent decimal injective registry w in
      ap (λ m. filter (λ e. is_open e.status) (values m))
        (insert-absent id entry registry.entries absent)
      ∙ ap (λ vs. filter (λ e. is_open e.status) vs)
          (values-append registry.entries ((id, entry) ∷ []))
      ∙ filter-append (λ e. is_open e.status) (values registry.entries) (entry ∷ [])

  -- The limit's question is asked once for as long as it is open: calling again gives the same
  -- question and registry, without a notice. The registry's ids are its counter's, and the texts of
  -- different numbers differ.
  pub ensure_max_turns_open_question_once :
      ((m n : ℕ) → decimal m ≡ decimal n → m ≡ n)
      → (now later : ℕ) (context other : String) (registry : OpenQuestionRegistry)
      → IsWellFormed decimal registry
      → let first = ensure_max_turns_open_question decimal now context registry in
        ensure_max_turns_open_question decimal later other first.0 ≡ (first.0, first.1, false)
  unfolding ensure_max_turns_open_question ensured
  ensure_max_turns_open_question_once injective now later context other registry w =
      elim (Option-cases (find asks_limit (list_open registry))) [
        | inr (existing, e) ↦ rw e (rw e refl)
        | inl e ↦
            let input : EnqueueOpenQuestionInput = record {
              question = max_turns_open_question_text;
              response_type = text_answer;
              choices = none;
              context = some context;
              related_permission_id = none;
              source = some max_turns;
            } in
            let entry = (enqueue_question decimal now input registry).1 in
            let grown = list_open-enqueue_question injective now input registry w in
            let found : find asks_limit (list_open (enqueue_question decimal now input registry).0)
                ≡ some entry =
              ap (λ qs. find asks_limit qs) grown
              ∙ find-append_none asks_limit (list_open registry) entry e
                  (new_source decimal now input registry) in
            rw e (rw found refl)
      ]
