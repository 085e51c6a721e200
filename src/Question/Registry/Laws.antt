-- ===== src/Question/Registry/Laws.antt =====
-- What open-question.ts keeps of its questions.
use Prim.Native.String.{String}
use text.Mathlib.Text.{◌==◌ as str_eq}
use text.Mathlib.TextEquality.{eq_iff}
use text.Mathlib.TextLemmas.{append_cancel_left}
use mathlib.Core.Path.{subst}
use mathlib.Core.List.{append_assoc, append-nil}
use agents_ensemble.Base.{
  ℕ, suc, ◌≤◌, ◌≡◌, refl, sym, ap, ◌∙◌, inl, inr, true, false, Bool-cases, Option, none, some,
  Option-cases, List, [], ◌∷◌, ◌++◌, All, All-append, All-map, if◌then◌else◌, arith,
}
use agents_ensemble.Base.StringMap.{
  lookup, insert, keys, values, IsAbsent, IsUnique, IsUnique-append_end, IsUnique-before,
  insert-absent, keys-insert, keys-insert_present, lookup-insert_same, keys-append,
}
use agents_ensemble.Question.Registry.{
  OpenQuestion, OpenQuestionRegistry, EnqueueOpenQuestionInput, AnswerOpenQuestionInput, inquiry_id,
  new_question, enqueue_question, is_open, open_entry, answered_question, answer_question,
  list_questions, registry_snapshot, set_each, restore,
}

-- Every question stands under its own id.
abbrev pub IsKeyed : List (String × OpenQuestion) → Type 0
IsKeyed entries = All (λ e. e.1.id ≡ e.0) entries

IsKeyed-insert :
    (key : String) (entry : OpenQuestion) (m : List (String × OpenQuestion))
    → entry.id ≡ key
    → IsKeyed m
    → IsKeyed (insert key entry m)
unfolding insert
IsKeyed-insert key entry [] e h = (e, tt)
IsKeyed-insert key entry ((k, v) ∷ m) e (h, hs) =
    let rest = IsKeyed-insert key entry m e hs in
    elim (str_eq k key)
      as (λ b. IsKeyed (if b then (key, entry) ∷ m else (k, v) ∷ insert key entry m)) [
        | true ↦ (e, hs)
        | false ↦ (h, rest)
      ]

pub IsKeyed-lookup :
    (key : String) (entry : OpenQuestion) (m : List (String × OpenQuestion))
    → IsKeyed m
    → lookup key m ≡ some entry
    → entry.id ≡ key
unfolding lookup
IsKeyed-lookup key entry [] h e = ground arith
IsKeyed-lookup key entry ((k, v) ∷ m) (h, hs) e =
    ground (arith, eq_iff k key, IsKeyed-lookup key entry m hs)

of_some : {a b : OpenQuestion} → some a ≡ some b → a ≡ b
of_some e = ground arith

pub open_entry-some :
    (found : Option OpenQuestion) (entry : OpenQuestion)
    → open_entry found ≡ some entry
    → (found ≡ some entry) × (is_open entry.status ≡ true)
open_entry-some none entry h = ground arith
open_entry-some (some e) entry h = elim (Bool-cases (is_open e.status)) [
  | inl o ↦
      let same : some e ≡ some entry = rw o at h in
      (same, subst (λ x. is_open x.status ≡ true) (of_some same) o)
  | inr o ↦ ground arith
]

set_each-values :
    (before entries : List (String × OpenQuestion))
    → IsKeyed entries
    → IsUnique (keys (before ++ entries))
    → set_each (values entries) before ≡ before ++ entries
unfolding set_each
set_each-values before [] h u = sym (append-nil before)
set_each-values before ((id, entry) ∷ entries) (h, hs) u =
    let v : IsUnique (keys before ++ id ∷ keys entries) =
      subst (λ ks. IsUnique ks) (keys-append before ((id, entry) ∷ entries)) u in
    let absent = IsUnique-before (keys before) id (keys entries) v in
    let moved = append_assoc before ((id, entry) ∷ []) entries in
    ap (λ m. set_each (values entries) m)
      (ap (λ k. insert k entry before) h ∙ insert-absent id entry before absent)
    ∙ set_each-values (before ++ (id, entry) ∷ []) entries hs
        (subst (λ m. IsUnique (keys m)) (sym moved) u)
    ∙ moved

-- A registry whose questions stand under their ids, each once, comes back from its snapshot as it
-- was, in the same order and with the same counter, whatever the restored registry held before.
pub restore-registry_snapshot :
    (registry other : OpenQuestionRegistry)
    → IsKeyed registry.entries
    → IsUnique (keys registry.entries)
    → restore (registry_snapshot registry) other ≡ registry
unfolding restore registry_snapshot list_questions
restore-registry_snapshot registry other h u =
    ap (λ entries. record { sequence = registry.sequence; entries = entries })
      (set_each-values [] registry.entries h u)

module _ (decimal : ℕ → String) where
  -- A registry whose ids were made by its counter, each once.
  pub record IsWellFormed (registry : OpenQuestionRegistry) : Type 0 where
    pub keyed : IsKeyed registry.entries
    pub unique : IsUnique (keys registry.entries)
    pub counted :
        All
          (λ id. (n : ℕ) × (n ≤ registry.sequence) × (id ≡ inquiry_id decimal n))
          (keys registry.entries)

  pub next_id-IsAbsent :
      ((m n : ℕ) → decimal m ≡ decimal n → m ≡ n)
      → (registry : OpenQuestionRegistry) → IsWellFormed registry
      → IsAbsent (inquiry_id decimal (suc registry.sequence)) (keys registry.entries)
  unfolding inquiry_id
  next_id-IsAbsent injective registry w =
      All-map _ _
        (λ id (n, small, e) same.
          let equal =
            injective n (suc registry.sequence) (append_cancel_left "inq-" _ _ (sym e ∙ same)) in
          omega (arith, small, equal))
        (keys registry.entries) w.counted

  -- A new question has an id that no other question has, so it replaces none, and the registry stays
  -- one whose ids its counter made. The texts of different numbers are to differ.
  pub enqueue_question-IsWellFormed :
      ((m n : ℕ) → decimal m ≡ decimal n → m ≡ n)
      → (now : ℕ) (input : EnqueueOpenQuestionInput) (registry : OpenQuestionRegistry)
      → IsWellFormed registry
      → IsWellFormed (enqueue_question decimal now input registry).0
  unfolding enqueue_question
  enqueue_question-IsWellFormed injective now input registry w =
      let id = inquiry_id decimal (suc registry.sequence) in
      let entry = new_question id now input in
      let absent = next_id-IsAbsent injective registry w in
      let grown = keys-insert id entry registry.entries absent in
      record {
        keyed = IsKeyed-insert id entry registry.entries refl w.keyed;
        unique =
            subst (λ ks. IsUnique ks) (sym grown)
              (IsUnique-append_end (keys registry.entries) id w.unique absent);
        counted =
            subst
              (λ ks.
                All (λ k. (n : ℕ) × (n ≤ suc registry.sequence) × (k ≡ inquiry_id decimal n)) ks)
              (sym grown)
              (All-append _ (keys registry.entries) (id ∷ [])
                (All-map _ _ (λ k (n, small, e). (n, omega (arith, small), e))
                  (keys registry.entries) w.counted)
                ((suc registry.sequence, omega arith, refl), tt));
      }

  -- An answer, recorded or refused, keeps every question under its own id and the ids as they were
  -- made.
  pub answer_question-IsWellFormed :
      (now : ℕ) (id : String) (input : AnswerOpenQuestionInput) (registry : OpenQuestionRegistry)
      → IsWellFormed registry
      → IsWellFormed (answer_question now id input registry).0
  unfolding answer_question answered_question
  answer_question-IsWellFormed now id input registry w =
      elim (Option-cases (open_entry (lookup id registry.entries))) [
        | inl e ↦ rw e w
        | inr (entry, e) ↦
            let found = open_entry-some (lookup id registry.entries) entry e in
            let updated = answered_question now input entry in
            let same = keys-insert_present id entry updated registry.entries found.0 in
            let own = IsKeyed-lookup id entry registry.entries w.keyed found.0 in
            rw e (record {
              keyed = IsKeyed-insert id updated registry.entries own w.keyed;
              unique = subst (λ ks. IsUnique ks) (sym same) w.unique;
              counted =
                  subst
                    (λ ks.
                      All (λ k. (n : ℕ) × (n ≤ registry.sequence) × (k ≡ inquiry_id decimal n)) ks)
                    (sym same) w.counted;
            })
      ]

-- An answer is taken at most once: after one call for an id, whether it recorded an answer or was
-- refused, any other one for the same id is refused and changes nothing.
pub answer_question_once :
    (now later : ℕ) (id : String) (first second : AnswerOpenQuestionInput)
    (registry : OpenQuestionRegistry)
    → answer_question later id second (answer_question now id first registry).0
      ≡ ((answer_question now id first registry).0, none)
unfolding answer_question
answer_question_once now later id first second registry =
    elim (Option-cases (open_entry (lookup id registry.entries))) [
      | inl e ↦ rw e (rw e refl)
      | inr (entry, e) ↦
          let updated = answered_question now first entry in
          let again = lookup-insert_same id updated registry.entries in rw e (rw again refl)
    ]
