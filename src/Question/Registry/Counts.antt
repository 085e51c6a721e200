-- ===== src/Question/Registry/Counts.antt =====
-- How answers change the lists of open and of answered questions.
use Prim.Native.String.{String}
use text.Mathlib.Text.{◌==◌ as str_eq}
use agents_ensemble.Base.{
  ℕ, suc, ◌≡◌, refl, inl, inr, Bool, true, false, not, Bool-cases, none, some, Option-cases, List,
  [], ◌∷◌, filter, length, arith,
}
use agents_ensemble.Base.StringMap.{lookup, insert, values}
use agents_ensemble.Question.Registry.{
  OpenQuestion, OpenQuestionRegistry, AnswerOpenQuestionInput, is_open, open_entry,
  answered_question, answer_question, list_questions, list_open, list_answered, open_count,
}
use agents_ensemble.Question.Registry.Laws.{open_entry-some}

-- An entry that leaves the events of a test, and one that comes to them.
count-insert_leaves :
    (p : OpenQuestion → Bool) (key : String) (old new : OpenQuestion)
    (m : List (String × OpenQuestion))
    → lookup key m ≡ some old
    → p old ≡ true
    → p new ≡ false
    → suc (length (filter p (values (insert key new m)))) ≡ length (filter p (values m))
unfolding lookup insert
count-insert_leaves p key old new [] h o n = ground arith
count-insert_leaves p key old new ((k, v) ∷ m) h o n = elim (Bool-cases (str_eq k key)) [
  | inl e ↦ ground arith
  | inr e ↦ ground (arith, count-insert_leaves p key old new m)
]

count-insert_comes :
    (p : OpenQuestion → Bool) (key : String) (old new : OpenQuestion)
    (m : List (String × OpenQuestion))
    → lookup key m ≡ some old
    → p old ≡ false
    → p new ≡ true
    → length (filter p (values (insert key new m))) ≡ suc (length (filter p (values m)))
unfolding lookup insert
count-insert_comes p key old new [] h o n = ground arith
count-insert_comes p key old new ((k, v) ∷ m) h o n = elim (Bool-cases (str_eq k key)) [
  | inl e ↦ ground arith
  | inr e ↦ ground (arith, count-insert_comes p key old new m)
]

none_is_no_answer : (question : OpenQuestion) → ¬ (none ≡ some question)
none_is_no_answer question = ground arith

-- A recorded answer moves just one question from the open ones to the answered ones.
pub answer_question-moves_one :
    (now : ℕ) (id : String) (input : AnswerOpenQuestionInput) (registry : OpenQuestionRegistry)
    (question : OpenQuestion)
    → (answer_question now id input registry).1 ≡ some question
    → let after = (answer_question now id input registry).0 in
      (suc (open_count after) ≡ open_count registry)
      × (length (list_answered after) ≡ suc (length (list_answered registry)))
unfolding answer_question answered_question open_count list_open list_answered list_questions
answer_question-moves_one now id input registry question h =
    elim (Option-cases (open_entry (lookup id registry.entries))) [
      | inl e ↦ absurd (none_is_no_answer question (rw e at h))
      | inr (entry, e) ↦
          let found = open_entry-some (lookup id registry.entries) entry e in
          let updated = answered_question now input entry in
          rw e (
            count-insert_leaves (λ q. is_open q.status) id entry updated registry.entries found.0
                found.1 refl,
            count-insert_comes (λ q. not (is_open q.status)) id entry updated registry.entries
                found.0 (rw found.1 refl) refl,
          )
    ]
