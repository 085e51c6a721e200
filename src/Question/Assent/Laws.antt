-- ===== src/Question/Assent/Laws.antt =====
-- What yes-no-assent.ts reads in an answer.
use Prim.Native.String.{String}
use text.Mathlib.Text.{◌==◌ as str_eq}
use agents_ensemble.Base.{
  ℕ, zero, suc, ◌-◌, ◌≡◌, ◌≢◌, ◌⊎◌, inl, inr, Bool, true, Bool-cases, Option, none, some, List, [],
  ◌∷◌, filter, arith,
}
use agents_ensemble.Question.Assent.{
  no, ChoiceOption, refusals, contains_any, assent_of, id_at, id_at_position, only_id, position_of,
  normalize_answer, parse_yes_no_assent, parse_choice_selection,
}

-- The id of one of the options.
abbrev pub IsOffered : String → List ChoiceOption → Type 0
IsOffered id [] = ⊥
IsOffered id (choice ∷ choices) = (choice.id ≡ id) ⊎ IsOffered id choices

id_at-IsOffered :
    (choices : List ChoiceOption) (index : ℕ) (id : String)
    → id_at choices index ≡ some id
    → IsOffered id choices
unfolding id_at
id_at-IsOffered [] index id h = ground arith
id_at-IsOffered (choice ∷ choices) zero id h = inl (ground arith)
id_at-IsOffered (choice ∷ choices) (suc index) id h = inr (id_at-IsOffered choices index id h)

filter-IsOffered :
    (p : ChoiceOption → Bool) (choices : List ChoiceOption) (id : String)
    → IsOffered id (filter p choices)
    → IsOffered id choices
filter-IsOffered p [] id h = h
filter-IsOffered p (choice ∷ choices) id h = elim (Bool-cases (p choice)) [
  | inl e ↦ ground (arith, e, filter-IsOffered p choices id)
  | inr e ↦ ground (arith, e, filter-IsOffered p choices id)
]

id_at_position-IsOffered :
    (choices : List ChoiceOption) (position : Option ℕ) (id : String)
    → id_at_position choices position ≡ some id
    → IsOffered id choices
unfolding id_at_position
id_at_position-IsOffered choices none id h = ground arith
id_at_position-IsOffered choices (some position) id h = id_at-IsOffered choices (position - 1) id h

-- One of the options that a test leaves, or what the code behind it gives.
only_id-IsOffered :
    (found : List ChoiceOption) (rest : Option String) (id : String)
    → only_id found rest ≡ some id
    → IsOffered id found ⊎ (rest ≡ some id)
unfolding only_id
only_id-IsOffered [] rest id h = inr h
only_id-IsOffered (choice ∷ []) rest id h = inl (inl (ground arith))
only_id-IsOffered (_ ∷ _ ∷ _) rest id h = ground arith

none_is_not_some : (id : String) → none ≢ some id
none_is_not_some id = ground arith

only_id_of_filter :
    (p : ChoiceOption → Bool) (choices : List ChoiceOption) (rest : Option String) (id : String)
    → (rest ≡ some id → IsOffered id choices)
    → only_id (filter p choices) rest ≡ some id
    → IsOffered id choices
only_id_of_filter p choices rest id later h =
    elim (only_id-IsOffered (filter p choices) rest id h) [
      | inl found ↦ filter-IsOffered p choices id found
      | inr e ↦ later e
    ]

module _ (nfkc trim lower strip : String → String) where
  -- A selection is always one of the options of the question.
  pub parse_choice_selection-IsOffered :
      (answer : String) (choices : List ChoiceOption) (id : String)
      → parse_choice_selection nfkc trim lower strip answer choices ≡ some id
      → IsOffered id choices
  unfolding parse_choice_selection
  parse_choice_selection-IsOffered answer choices id h =
      let normalized = normalize_answer nfkc trim lower strip answer in
      elim (Bool-cases (str_eq normalized "")) [
        | inl e ↦ absurd (none_is_not_some id (rw e at h))
        | inr e ↦
            only_id_of_filter _ choices _ id
              (only_id_of_filter _ choices _ id
                (id_at_position-IsOffered choices (position_of normalized) id))
              (rw e at h)
      ]

  -- An answer that is a refusal or has one inside it is `no`, and what is not a word or a phrase of
  -- the lists is never taken for `yes`.
  pub parse_yes_no_assent-refusal :
      (answer : String)
      → contains_any refusals (normalize_answer nfkc trim lower strip answer) ≡ true
      → parse_yes_no_assent nfkc trim lower strip answer ≡ no
  unfolding parse_yes_no_assent assent_of
  parse_yes_no_assent-refusal answer h = ground arith
