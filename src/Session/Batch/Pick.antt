-- ===== src/Session/Batch/Pick.antt =====
-- What `pickStaticSourceKey` of select-dispatch-batch.ts picks.
use mathlib.Core.Path.{subst, subst₂}
use agents_ensemble.Base.{
  ◌≡◌, refl, sym, ◌∙◌, true, false, false≢true, inl, inr, Option, none, some, List, [], ◌∷◌,
  any-elim, All, All-map, All-both, get_or_else, arith,
}
use agents_ensemble.Base.Int.{ℤ, eq_of_eq_int, lex_le, lex_le_trans}
use agents_ensemble.Session.Event.{
  EventBody, operator_message, operator_reconnect, worker_completed, worker_failed,
  permission_pending, permission_stall, connectivity_recovered, github_update, SessionEvent,
}
use agents_ensemble.Session.Batch.{
  DispatchSourceKey, key_of, static_event_priority, SourceMeta, source_entries, max_safe_integer,
  pick_static_source_key,
}
use agents_ensemble.Session.Batch.Keys.{eq_of_same_key}
use agents_ensemble.Session.Batch.Static.{
  Entry, meta_le, best_meta, is_entry, best_meta-IsLowerBound, best_key-IsAttained,
}
use agents_ensemble.Session.Batch.Minimal.{IsMinimal, source_entries-IsMinimal, IsMinimal-meta_le}
use agents_ensemble.Session.Batch.Sources.{meta_of, covers, IsPresent, source_entries-covers}

-- The least priority and the least place of the events of `key`, which it has, are in lexicographic order
-- at most those of every other source of an eligible event.
abbrev pub IsLeastSource : List SessionEvent → List SessionEvent → DispatchSourceKey → Type 0
IsLeastSource queue eligible key =
    (least : SourceMeta) × IsMinimal queue eligible key least
    × ((other : DispatchSourceKey) (m : SourceMeta)
        → IsMinimal queue eligible other m
        → meta_le least m ≡ true)

max-above_priorities :
    (body : EventBody) (i : ℤ)
    → lex_le max_safe_integer max_safe_integer (static_event_priority body) i ≡ false
unfolding static_event_priority
max-above_priorities (operator_message m) i = refl
max-above_priorities operator_reconnect i = refl
max-above_priorities (worker_completed r) i = refl
max-above_priorities (worker_failed f) i = refl
max-above_priorities (permission_pending p) i = refl
max-above_priorities (permission_stall s) i = refl
max-above_priorities (connectivity_recovered n) i = refl
max-above_priorities (github_update u) i = refl

is_entry-IsMinimal :
    (eligible queue : List SessionEvent) (result : Option DispatchSourceKey) (best : SourceMeta)
    (entry : Entry) (default : DispatchSourceKey)
    → IsMinimal queue eligible entry.0 entry.1
    → is_entry result best entry ≡ true
    → IsMinimal queue eligible (get_or_else result default) best
is_entry-IsMinimal eligible queue none best entry default h e = absurd (false≢true e)
is_entry-IsMinimal eligible queue (some k) best (key, seen) default h e =
    let same : k ≡ key = eq_of_same_key k key (ground arith) in
    let p : seen.priority ≡ best.priority = eq_of_eq_int _ _ (ground arith) in
    let i : seen.first_index ≡ best.first_index = eq_of_eq_int _ _ (ground arith) in
    subst₂ (IsMinimal queue eligible) (sym same) (λ j. record { priority = p j; first_index = i j })
      h

best-least :
    (queue eligible : List SessionEvent)
    → All
        (λ e.
          meta_le
            (best_meta (source_entries queue eligible []) max_safe_integer max_safe_integer)
            (meta_of queue e)
          ≡ true)
        eligible
best-least queue eligible =
    let keys = source_entries queue eligible [] in
    let best = best_meta keys max_safe_integer max_safe_integer in
    let below = (best_meta-IsLowerBound keys max_safe_integer max_safe_integer).1 in
    All-map _ _
      (λ e covered. any-elim (covers (key_of e) (meta_of queue e)) keys covered (
        All-map _ _
          (λ entry le h.
            lex_le_trans best.priority best.first_index entry.1.priority entry.1.first_index
              (meta_of queue e).priority (meta_of queue e).first_index le (ground arith))
          keys below))
      eligible (source_entries-covers queue eligible [])

-- An entry of a source is below whatever is minimal for the source.
best-below :
    (queue eligible : List SessionEvent) (other : DispatchSourceKey) (m : SourceMeta)
    → IsMinimal queue eligible other m
    → meta_le (best_meta (source_entries queue eligible []) max_safe_integer max_safe_integer) m
      ≡ true
best-below queue eligible other m minimal =
    let keys = source_entries queue eligible [] in
    let best = best_meta keys max_safe_integer max_safe_integer in
    let below = (best_meta-IsLowerBound keys max_safe_integer max_safe_integer).1 in
    let ((present, _), _) = minimal in
    any-elim _ eligible present (
      All-map _ _
        (λ e covered met. any-elim (covers (key_of e) (meta_of queue e)) keys covered (
          All-map _ _
            (λ entry (le, entry_minimal) h.
              let same : other ≡ entry.0 =
                eq_of_same_key other (key_of e) (ground arith)
                ∙ sym (eq_of_same_key entry.0 (key_of e) (ground arith)) in
              lex_le_trans best.priority best.first_index entry.1.priority entry.1.first_index
                m.priority m.first_index le
                (IsMinimal-meta_le queue eligible entry.0 entry.1 m entry_minimal
                  (subst (λ k. IsPresent eligible queue k m) same minimal.0)))
            keys (All-both _ _ keys below (source_entries-IsMinimal queue eligible))))
        eligible (source_entries-covers queue eligible []))

-- The source that is picked is that of an eligible event, and in the order of the least priority of
-- its eligible events, then of their least place in the queue, no source of an eligible event comes
-- before it.
pub pick_static_source_key-IsLeastSource :
    (queue : List SessionEvent) (first : SessionEvent) (rest : List SessionEvent)
    → IsLeastSource queue (first ∷ rest) (pick_static_source_key queue first rest)
unfolding pick_static_source_key
pick_static_source_key-IsLeastSource queue first rest =
    let eligible = first ∷ rest in
    let keys = source_entries queue eligible [] in
    let m = max_safe_integer in
    let least = best-least queue eligible in
    (
      best_meta keys m m,
      elim (best_key-IsAttained keys none m m) [
        | inl (same, met) ↦ absurd (
            false≢true (
              sym (max-above_priorities first.body ((meta_of queue first).first_index))
              ∙ (rw met at (least.0))))
        | inr found ↦ any-elim _ keys found (
            All-map _ _
              (λ entry minimal e.
                is_entry-IsMinimal eligible queue _ _ entry (key_of first) minimal e)
              keys (source_entries-IsMinimal queue eligible))
      ],
      best-below queue eligible,
    )
