-- ===== src/Session/Batch/Sources.antt =====
-- The `Map` of `pickStaticSourceKey` (select-dispatch-batch.ts) and the events in it.
use agents_ensemble.Base.{
  ◌≡◌, Bool, true, Bool-cases, inl, inr, ◌&&◌, List, [], ◌∷◌, any, any_self, All, All-both, arith,
}
use agents_ensemble.Base.Int.{
  lt_int, eq_int, eq_int_refl, min_int, min_int-le_left, min_int-le_right, lex_le_refl,
  lex_le_trans, lex_le_of_le,
}
use agents_ensemble.Session.Event.{SessionEvent}
use agents_ensemble.Session.Batch.{
  DispatchSourceKey, same_key, key_of, static_event_priority, index_of, SourceMeta, lower_entry,
  source_entries,
}
use agents_ensemble.Session.Batch.Keys.{same_key_refl}
use agents_ensemble.Session.Batch.Static.{Entry, meta_le}

abbrev pub min_meta : SourceMeta → SourceMeta → SourceMeta
min_meta a b = record {
  priority = min_int a.priority b.priority;
  first_index = min_int a.first_index b.first_index;
}

min_meta-le_left : (a b : SourceMeta) → meta_le (min_meta a b) a ≡ true
min_meta-le_left a b =
    lex_le_of_le _ _ a.priority a.first_index (min_int-le_left a.priority b.priority)
      (min_int-le_left a.first_index b.first_index)

min_meta-le_right : (a b : SourceMeta) → meta_le (min_meta a b) b ≡ true
min_meta-le_right a b =
    lex_le_of_le _ _ b.priority b.first_index (min_int-le_right a.priority b.priority)
      (min_int-le_right a.first_index b.first_index)

-- What the source reads of an event: its static priority and its place in the queue.
abbrev pub meta_of : List SessionEvent → SessionEvent → SourceMeta
meta_of queue event = record {
  priority = static_event_priority event.body;
  first_index = index_of 0 queue event;
}

abbrev pub covers : DispatchSourceKey → SourceMeta → Entry → Bool
covers key seen entry = same_key entry.0 key && meta_le entry.1 seen

lower_entry-covers_new :
    (key : DispatchSourceKey) (seen : SourceMeta) (keys : List Entry)
    → any (covers key seen) (lower_entry key seen keys) ≡ true
unfolding lower_entry
lower_entry-covers_new key seen [] =
    ground (arith, same_key_refl key, lex_le_refl seen.priority seen.first_index)
lower_entry-covers_new key seen ((k, existing) ∷ keys) = elim (Bool-cases (same_key k key)) [
  | inl same ↦ rw same (ground (arith, min_meta-le_right existing seen, same))
  | inr other ↦ rw other (ground (arith, other, lower_entry-covers_new key seen keys))
]

lower_entry-covers_old :
    (key k' : DispatchSourceKey) (seen seen' : SourceMeta) (keys : List Entry)
    → any (covers k' seen') keys ≡ true
    → any (covers k' seen') (lower_entry key seen keys) ≡ true
unfolding lower_entry
lower_entry-covers_old key k' seen seen' [] h = ground arith
lower_entry-covers_old key k' seen seen' ((k, existing) ∷ keys) h =
    elim (Bool-cases (same_key k key)) [
      | inl same ↦ rw same (
          ground (
            arith,
            lex_le_trans _ _ existing.priority existing.first_index seen'.priority seen'.first_index
                (min_meta-le_left existing seen),
          ))
      | inr other ↦ rw other (ground (arith, lower_entry-covers_old key k' seen seen' keys))
    ]

module _ (events : List SessionEvent) (queue : List SessionEvent) where
  -- Some event of the key has the priority, and some event of it has the index.
  abbrev pub IsPresent : DispatchSourceKey → SourceMeta → Type 0
  IsPresent key seen =
      (any (λ e. same_key key (key_of e) && eq_int (static_event_priority e.body) seen.priority)
          events
        ≡ true)
      × (any (λ e. same_key key (key_of e) && eq_int (index_of 0 queue e) seen.first_index) events
          ≡ true)

  pub min_meta-IsPresent :
      (key : DispatchSourceKey) (a b : SourceMeta)
      → IsPresent key a
      → IsPresent key b
      → IsPresent key (min_meta a b)
  min_meta-IsPresent key a b (ha, ka) (hb, kb) = (
    elim (Bool-cases (lt_int b.priority a.priority)) [ inl e ↦ rw e hb | inr e ↦ rw e ha ],
    elim (Bool-cases (lt_int b.first_index a.first_index)) [ inl e ↦ rw e kb | inr e ↦ rw e ka ],
  )

  pub IsPresent-self : All (λ e. IsPresent (key_of e) (meta_of queue e)) events
  IsPresent-self =
      All-both _ _ events
        (any_self
          (λ a b.
            same_key (key_of a) (key_of b)
            && eq_int (static_event_priority b.body) (static_event_priority a.body))
          (λ e.
            ground (arith, same_key_refl (key_of e), eq_int_refl (static_event_priority e.body)))
          events)
        (any_self
          (λ a b.
            same_key (key_of a) (key_of b) && eq_int (index_of 0 queue b) (index_of 0 queue a))
          (λ e. ground (arith, same_key_refl (key_of e), eq_int_refl (index_of 0 queue e))) events)

source_entries-covers_old :
    (queue eligible : List SessionEvent) (keys : List Entry) (k' : DispatchSourceKey)
    (seen' : SourceMeta)
    → any (covers k' seen') keys ≡ true
    → any (covers k' seen') (source_entries queue eligible keys) ≡ true
unfolding source_entries
source_entries-covers_old queue [] keys k' seen' h = h
source_entries-covers_old queue (e ∷ eligible) keys k' seen' h =
    source_entries-covers_old queue eligible _ k' seen'
      (lower_entry-covers_old (key_of e) k' (meta_of queue e) seen' keys h)

pub source_entries-covers :
    (queue eligible : List SessionEvent) (keys : List Entry)
    → All
        (λ e. any (covers (key_of e) (meta_of queue e)) (source_entries queue eligible keys) ≡ true)
        eligible
unfolding source_entries
source_entries-covers queue [] keys = tt
source_entries-covers queue (e ∷ eligible) keys = (
  source_entries-covers_old queue eligible _ (key_of e) (meta_of queue e)
      (lower_entry-covers_new (key_of e) (meta_of queue e) keys),
  source_entries-covers queue eligible _,
)
