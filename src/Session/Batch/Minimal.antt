-- ===== src/Session/Batch/Minimal.antt =====
-- The `Map` of `pickStaticSourceKey` (select-dispatch-batch.ts) has the least priority and the least place
-- of the events of each source.
use mathlib.Core.Path.{subst}
use mathlib.Core.List.{append_assoc, append-nil}
use agents_ensemble.Base.{
  ◌≡◌, refl, sym, ◌∙◌, Bool, true, false, false≢true, Bool-cases, inl, inr, not, ◌&&◌, List, [],
  ◌∷◌, ◌++◌, any, any-elim, filter, All, All-map, All-append, All-filter_test, arith,
}
use agents_ensemble.Base.Ends.{
  any-append_left, any-append_right, any_of_filter, filter-drops_end, filter-keeps_end,
  All-unfilter,
}
use agents_ensemble.Base.Int.{
  ◌≤ℤ◌, ≤ℤ_refl, ≤ℤ_trans, min_int-le_left, min_int-le_right, eq_of_eq_int, lex_le_of_le,
}
use agents_ensemble.Session.Event.{SessionEvent}
use agents_ensemble.Session.Batch.{
  DispatchSourceKey, same_key, key_of, static_event_priority, index_of, SourceMeta, lower_entry,
  source_entries,
}
use agents_ensemble.Session.Batch.Keys.{same_key_refl, eq_of_same_key}
use agents_ensemble.Session.Batch.Static.{Entry, meta_le}
use agents_ensemble.Session.Batch.Sources.{
  meta_of, min_meta, IsPresent, min_meta-IsPresent, IsPresent-self,
}

abbrev pub Below : SourceMeta → SourceMeta → Type 0
Below m n = (m.priority ≤ℤ n.priority) × (m.first_index ≤ℤ n.first_index)

module _ (queue : List SessionEvent) where
  -- No event of the source has a lesser priority or a lesser place.
  abbrev pub IsBelow : DispatchSourceKey → SourceMeta → SessionEvent → Type 0
  IsBelow key m e = same_key key (key_of e) ≡ true → Below m (meta_of queue e)

  -- `m` has the least priority of the events of the source and the least place in the queue of one of
  -- them.
  abbrev pub IsMinimal : List SessionEvent → DispatchSourceKey → SourceMeta → Type 0
  IsMinimal events key m = IsPresent events queue key m × All (IsBelow key m) events

  is_not : DispatchSourceKey → SessionEvent → Bool
  is_not key e = not (same_key key (key_of e))

  -- The entries are minimal, one for each source of the events.
  Accounts : List Entry → List SessionEvent → Type 0
  Accounts [] events = events ≡ []
  Accounts ((key, m) ∷ keys) events =
      IsMinimal events key m × Accounts keys (filter (is_not key) events)

  IsMinimal-one : (e : SessionEvent) → IsMinimal (e ∷ []) (key_of e) (meta_of queue e)
  IsMinimal-one e = (
    (IsPresent-self (e ∷ []) queue).0,
    ((λ h. (≤ℤ_refl (static_event_priority e.body), ≤ℤ_refl (index_of 0 queue e))), tt),
  )

  -- One more event of the source.
  IsMinimal-lower :
      (events : List SessionEvent) (key : DispatchSourceKey) (m : SourceMeta) (e : SessionEvent)
      → same_key key (key_of e) ≡ true
      → IsMinimal events key m
      → IsMinimal (events ++ e ∷ []) key (min_meta m (meta_of queue e))
  IsMinimal-lower events key m e same ((p, i), below) =
      let seen = meta_of queue e in
      let alone = (IsPresent-self (e ∷ []) queue).0 in
      (
        min_meta-IsPresent (events ++ e ∷ []) queue key m seen
            (any-append_left _ events (e ∷ []) p, any-append_left _ events (e ∷ []) i)
            (subst (λ k. IsPresent (events ++ e ∷ []) queue k seen)
              (sym (eq_of_same_key key (key_of e) same))
              (
                any-append_right _ events (e ∷ []) alone.0,
                any-append_right _ events (e ∷ []) alone.1,
              )),
        All-append (IsBelow key (min_meta m seen)) events (e ∷ [])
            (All-map _ _
              (λ f h s.
                let (hp, hi) = h s in
                (
                  ≤ℤ_trans _ m.priority _ (min_int-le_left m.priority seen.priority) hp,
                  ≤ℤ_trans _ m.first_index _ (min_int-le_left m.first_index seen.first_index) hi,
                ))
              events below)
            (
              (λ s. (
                min_int-le_right m.priority seen.priority,
                min_int-le_right m.first_index seen.first_index,
              )),
              tt,
            ),
      )

  -- One more event of another source.
  IsMinimal-other :
      (events : List SessionEvent) (key : DispatchSourceKey) (m : SourceMeta) (e : SessionEvent)
      → same_key key (key_of e) ≡ false
      → IsMinimal events key m
      → IsMinimal (events ++ e ∷ []) key m
  IsMinimal-other events key m e other ((p, i), below) = (
    (any-append_left _ events (e ∷ []) p, any-append_left _ events (e ∷ []) i),
    All-append (IsBelow key m) events (e ∷ []) below
        ((λ s. absurd (false≢true (sym other ∙ s))), tt),
  )

  lower_entry-Accounts :
      (e : SessionEvent) (keys : List Entry) (events : List SessionEvent)
      → Accounts keys events
      → Accounts (lower_entry (key_of e) (meta_of queue e) keys) (events ++ e ∷ [])
  unfolding lower_entry Accounts is_not
  lower_entry-Accounts e [] events h = rw h (IsMinimal-one e, rw (same_key_refl (key_of e)) refl)
  lower_entry-Accounts e ((key, m) ∷ keys) events (here, later) =
      elim (Bool-cases (same_key key (key_of e))) [
        | inl same ↦ rw same (
          IsMinimal-lower events key m e same here,
          subst (Accounts keys) (sym (filter-drops_end (is_not key) events e (ground arith))) later,
        )
        | inr other ↦ rw other (
          IsMinimal-other events key m e other here,
          subst (Accounts (lower_entry (key_of e) (meta_of queue e) keys))
              (sym (filter-keeps_end (is_not key) events e (ground arith)))
              (lower_entry-Accounts e keys (filter (is_not key) events) later),
        )
      ]

  source_entries-Accounts :
      (eligible : List SessionEvent) (keys : List Entry) (events : List SessionEvent)
      → Accounts keys events
      → Accounts (source_entries queue eligible keys) (events ++ eligible)
  unfolding source_entries
  source_entries-Accounts [] keys events h = subst (Accounts keys) (sym (append-nil events)) h
  source_entries-Accounts (e ∷ eligible) keys events h =
      subst (Accounts (source_entries queue (e ∷ eligible) keys))
        (append_assoc events (e ∷ []) eligible)
        (source_entries-Accounts eligible _ (events ++ e ∷ [])
          (lower_entry-Accounts e keys events h))

  -- A source that is left when another one is taken out is another one.
  other_source :
      (events : List SessionEvent) (key other : DispatchSourceKey) (q : SessionEvent → Bool)
      → any (λ e. same_key other (key_of e) && q e) (filter (is_not key) events) ≡ true
      → same_key key other ≡ false
  unfolding is_not
  other_source events key other q h = elim (Bool-cases (same_key key other)) [
    | inr e ↦ e
    | inl e ↦ any-elim _ (filter (is_not key) events) h (
        All-map _ _
          (λ f apart met.
            let same : same_key key (key_of f) ≡ true =
              rw (eq_of_same_key key other e) (ground arith) in
            absurd (false≢true (ground arith)))
          (filter (is_not key) events) (All-filter_test (is_not key) events))
  ]

  IsMinimal-unfilter :
      (events : List SessionEvent) (key other : DispatchSourceKey) (m : SourceMeta)
      → IsMinimal (filter (is_not key) events) other m
      → IsMinimal events other m
  unfolding is_not
  IsMinimal-unfilter events key other m ((p, i), below) =
      let apart = other_source events key other _ p in
      (
        (any_of_filter (is_not key) _ events p, any_of_filter (is_not key) _ events i),
        All-unfilter (is_not key) (IsBelow other m) events
            (λ e dropped s.
              let same : other ≡ key_of e = eq_of_same_key other (key_of e) s in
              let k : same_key key other ≡ true = rw same (ground arith) in
              absurd (false≢true (sym apart ∙ k)))
            below,
      )

  Accounts-IsMinimal :
      (keys : List Entry) (events : List SessionEvent)
      → Accounts keys events
      → All (λ entry. IsMinimal events entry.0 entry.1) keys
  unfolding Accounts
  Accounts-IsMinimal [] events h = tt
  Accounts-IsMinimal ((key, m) ∷ keys) events (here, later) = (
    here,
    All-map _ _ (λ entry h. IsMinimal-unfilter events key entry.0 entry.1 h) keys
        (Accounts-IsMinimal keys (filter (is_not key) events) later),
  )

  pub source_entries-IsMinimal :
      (eligible : List SessionEvent)
      → All (λ entry. IsMinimal eligible entry.0 entry.1) (source_entries queue eligible [])
  unfolding Accounts
  source_entries-IsMinimal eligible =
      Accounts-IsMinimal _ eligible (source_entries-Accounts eligible [] [] refl)

  -- What is minimal for a source is below whatever some events of it attain.
  pub IsMinimal-meta_le :
      (events : List SessionEvent) (key : DispatchSourceKey) (m n : SourceMeta)
      → IsMinimal events key m
      → IsPresent events queue key n
      → meta_le m n ≡ true
  IsMinimal-meta_le events key m n (_, below) (p, i) =
      lex_le_of_le m.priority m.first_index n.priority n.first_index
        (any-elim _ events p (
          All-map _ _
            (λ e h met.
              subst (λ j. m.priority ≤ℤ j) (eq_of_eq_int _ _ (ground arith)) (h (ground arith)).0)
            events below))
        (any-elim _ events i (
          All-map _ _
            (λ e h met.
              subst (λ j. m.first_index ≤ℤ j) (eq_of_eq_int _ _ (ground arith))
                (h (ground arith)).1)
            events below))
