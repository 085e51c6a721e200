-- ===== src/Session/Batch/Choice.antt =====
-- The ladder by which `selectDispatchBatch` (select-dispatch-batch.ts) chooses a source.
use Prim.Native.String.{String}
use mathlib.Core.Path.{subst, sym}
use agents_ensemble.Base.{
  ◌≡◌, refl, ap, ◌∙◌, Bool, true, false, Bool-cases, inl, inr, not, ◌&&◌, ◌||◌, ◌⊎◌, Option, none,
  some, List, [], ◌∷◌, map, any, any_of_All, All-intro, get_or_else, arith,
}
use agents_ensemble.Session.Event.{SessionEvent}
use agents_ensemble.Session.Batch.{
  pick_static_source_key, DispatchSourceKey, operator, permission, worker, same_key, has_key,
  key_of, DispatchBatchState, SelectDispatchBatchInput, is_worker_source_key,
  can_use_worker_continuation, chosen_key,
}
use agents_ensemble.Session.Batch.Keys.{same_key_sym}
use agents_ensemble.Session.Batch.Pick.{IsLeastSource, pick_static_source_key-IsLeastSource}

-- Some event of the list comes from the source.
abbrev pub has_source : List SessionEvent → DispatchSourceKey → Bool
has_source events key = any (λ e. same_key (key_of e) key) events

has_key-map :
    (events : List SessionEvent) (key : DispatchSourceKey)
    → has_key (map key_of events) key ≡ has_source events key
unfolding has_key
has_key-map [] key = refl
has_key-map (e ∷ events) key = ap (λ b. same_key (key_of e) key || b) (has_key-map events key)

-- The worker of the last send may go on: its continuation is left and it has an eligible event.
abbrev pub Continues : DispatchBatchState → List SessionEvent → String → Type 0
Continues state eligible name =
    (state.last_dispatched_source_key ≡ some (worker name))
    × (state.continuation_consumed ≡ false)
    × (has_source eligible (worker name) ≡ true)

pub data Choice (input : SelectDispatchBatchInput) (eligible : List SessionEvent)
    (key : DispatchSourceKey) : Type 0 where
  operator_waits : has_source eligible operator ≡ true → key ≡ operator → Choice input eligible key
  permission_waits :
      has_source eligible operator ≡ false
      → has_source eligible permission ≡ true
      → key ≡ permission
      → Choice input eligible key
  worker_continues :
      (name : String)
      → has_source eligible operator ≡ false
      → has_source eligible permission ≡ false
      → Continues input.state eligible name
      → key ≡ worker name
      → Choice input eligible key
  least_source :
      has_source eligible operator ≡ false
      → has_source eligible permission ≡ false
      → ((name : String) → ¬ Continues input.state eligible name)
      → IsLeastSource input.queue eligible key
      → Choice input eligible key

continuation-cases :
    (state : DispatchBatchState) (eligible : List SessionEvent)
    → ((name : String) × (can_use_worker_continuation state (map key_of eligible) ≡ true)
        × Continues state eligible name)
      ⊎ ((can_use_worker_continuation state (map key_of eligible) ≡ false)
          × ((name : String) → ¬ Continues state eligible name))
unfolding can_use_worker_continuation is_worker_source_key
continuation-cases state eligible = go state.last_dispatched_source_key refl
  where
    go :
        (last : Option DispatchSourceKey)
        → state.last_dispatched_source_key ≡ last
        → ((name : String) × (can_use_worker_continuation state (map key_of eligible) ≡ true)
            × Continues state eligible name)
          ⊎ ((can_use_worker_continuation state (map key_of eligible) ≡ false)
              × ((name : String) → ¬ Continues state eligible name))
    go none e = inr (rw (e, can_use_worker_continuation) refl, (λ name h. cc))
    go (some (worker n)) e =
        elim (Bool-cases (not state.continuation_consumed && has_source eligible (worker n))) [
          | inl h ↦ inl (
            n,
            rw (e, can_use_worker_continuation, has_key-map eligible (worker n)) h,
            (e, ground arith, ground arith),
          )
          | inr h ↦ inr (
            rw (e, can_use_worker_continuation, has_key-map eligible (worker n)) h,
            λ name c.
                let (last, fresh, waits) = c in
                let same : worker name ≡ worker n = cc in
                let k : has_source eligible (worker n) ≡ true = rw same at waits in ground arith,
          )
        ]
    go (some k) e = inr (rw (e, can_use_worker_continuation) refl, (λ name h. cc))

get_or_else-some :
    (o : Option DispatchSourceKey) (k d : DispatchSourceKey) → o ≡ some k → get_or_else o d ≡ k
get_or_else-some o k d e = rw e

pub chosen_key-Choice :
    (input : SelectDispatchBatchInput) (first : SessionEvent) (rest : List SessionEvent)
    → Choice input (first ∷ rest) (chosen_key input first rest)
unfolding chosen_key
chosen_key-Choice input first rest =
    let eligible = first ∷ rest in
    let op = has_key-map eligible operator in
    let perm = has_key-map eligible permission in
    elim (Bool-cases (has_source eligible operator)) [
      | inl o ↦ operator_waits o (rw (op ∙ o))
      | inr no_op ↦ elim (Bool-cases (has_source eligible permission)) [
        | inl p ↦ permission_waits no_op p (rw (op ∙ no_op, perm ∙ p))
        | inr no_perm ↦ elim (continuation-cases input.state eligible) [
          | inl (name, goes, c) ↦
              worker_continues name no_op no_perm c
                (rw (op ∙ no_op, perm ∙ no_perm, goes) (get_or_else-some _ _ operator c.0))
          | inr (stops, c) ↦
              let same : chosen_key input first rest
                  ≡ pick_static_source_key input.queue first rest =
                rw (op ∙ no_op, perm ∙ no_perm, stops) in
              least_source no_op no_perm c (
                subst (IsLeastSource input.queue eligible) (sym same)
                  (pick_static_source_key-IsLeastSource input.queue first rest))
        ]
      ]
    ]

Choice-has_source :
    (input : SelectDispatchBatchInput) (eligible : List SessionEvent) (key : DispatchSourceKey)
    → Choice input eligible key
    → has_source eligible key ≡ true
Choice-has_source input eligible key (operator_waits o e) = rw e o
Choice-has_source input eligible key (permission_waits _ p e) = rw e p
Choice-has_source input eligible key (worker_continues name _ _ c e) = rw e c.2
Choice-has_source input eligible key (least_source _ _ _ (least, ((present, _), _), _)) =
    any_of_All _ _ eligible
      (All-intro _ (λ e h. same_key_sym key (key_of e) (ground arith)) eligible) present

-- The key of the ladder is that of an eligible event.
pub chosen_key-has_source :
    (input : SelectDispatchBatchInput) (first : SessionEvent) (rest : List SessionEvent)
    → has_source (first ∷ rest) (chosen_key input first rest) ≡ true
chosen_key-has_source input first rest =
    Choice-has_source input (first ∷ rest) _ (chosen_key-Choice input first rest)
