-- ===== src/Session/Batch/Static.antt =====
-- The last loop of `pickStaticSourceKey` (select-dispatch-batch.ts) over the entries of its `Map`.
use mathlib.Core.Path.{subst, subst₂}
use agents_ensemble.Base.{
  ◌≡◌, refl, sym, ◌⊎◌, inl, inr, Bool, true, false, Bool-cases, ◌&&◌, Option, none, some, List, [],
  ◌∷◌, any, All, if◌then◌else◌, arith,
}
use agents_ensemble.Base.Int.{
  ℤ, eq_int, eq_int_refl, lex_le, lex_le_refl, lex_le_trans, lex_le_of_not_less, lex_le_of_less,
}
use agents_ensemble.Session.Batch.{DispatchSourceKey, same_key, SourceMeta, is_better, best_key}
use agents_ensemble.Session.Batch.Keys.{same_key_refl}

abbrev pub Entry : Type 0
Entry = DispatchSourceKey × SourceMeta

-- The values that the loop of `best_key` ends with.
pub best_meta : List Entry → ℤ → ℤ → SourceMeta
best_meta [] p i = record { priority = p; first_index = i }
best_meta ((key, seen) ∷ keys) p i =
    best_meta keys (if is_better seen p i then seen.priority else p)
      (if is_better seen p i then seen.first_index else i)

abbrev pub meta_le : SourceMeta → SourceMeta → Bool
meta_le a b = lex_le a.priority a.first_index b.priority b.first_index

best_meta_step :
    (key : DispatchSourceKey) (seen : SourceMeta) (keys : List Entry) (p i : ℤ)
    → ((is_better seen p i ≡ true)
        × (best_meta ((key, seen) ∷ keys) p i ≡ best_meta keys seen.priority seen.first_index))
      ⊎ ((is_better seen p i ≡ false) × (best_meta ((key, seen) ∷ keys) p i ≡ best_meta keys p i))
unfolding best_meta
best_meta_step key seen keys p i = elim (Bool-cases (is_better seen p i)) [
  | inl e ↦ inl (e, rw e)
  | inr e ↦ inr (e, rw e)
]

best_key_step :
    (key : DispatchSourceKey) (seen : SourceMeta) (keys : List Entry)
    (chosen : Option DispatchSourceKey) (p i : ℤ)
    → (is_better seen p i ≡ true
        → best_key ((key, seen) ∷ keys) chosen p i
          ≡ best_key keys (some key) seen.priority seen.first_index)
      × (is_better seen p i ≡ false
          → best_key ((key, seen) ∷ keys) chosen p i ≡ best_key keys chosen p i)
unfolding best_key
best_key_step key seen keys chosen p i = ((λ e. rw e), (λ e. rw e))

-- `best` is at most the pair that the loop begins with and every entry.
abbrev pub IsLowerBound : List Entry → ℤ → ℤ → SourceMeta → Type 0
IsLowerBound keys p i best =
    (lex_le best.priority best.first_index p i ≡ true)
    × All (λ entry. meta_le best entry.1 ≡ true) keys

pub best_meta-IsLowerBound :
    (keys : List Entry) (p i : ℤ) → IsLowerBound keys p i (best_meta keys p i)
best_meta-IsLowerBound [] p i = (unfold best_meta in lex_le_refl p i, tt)
best_meta-IsLowerBound ((key, seen) ∷ keys) p i = elim (best_meta_step key seen keys p i) [
  | inl (better, e) ↦
      let (here, later) = best_meta-IsLowerBound keys seen.priority seen.first_index in
      let less = lex_le_of_less seen.priority seen.first_index p i better in
      subst (IsLowerBound ((key, seen) ∷ keys) p i) (sym e)
        (lex_le_trans _ _ seen.priority seen.first_index p i here less, (here, later))
  | inr (worse, e) ↦
      let (here, later) = best_meta-IsLowerBound keys p i in
      let more = lex_le_of_not_less seen.priority seen.first_index p i worse in
      subst (IsLowerBound ((key, seen) ∷ keys) p i) (sym e)
        (here, (lex_le_trans _ _ p i seen.priority seen.first_index here more, later))
]

abbrev pub is_key : Option DispatchSourceKey → DispatchSourceKey → Bool
is_key none key = false
is_key (some k) key = same_key k key

abbrev pub is_entry : Option DispatchSourceKey → SourceMeta → Entry → Bool
is_entry chosen best entry =
    is_key chosen entry.0
    && eq_int entry.1.priority best.priority
    && eq_int entry.1.first_index best.first_index

-- The result is what the loop began with, or an entry with the values of `best`.
abbrev pub IsAttained :
    List Entry → Option DispatchSourceKey → ℤ → ℤ → Option DispatchSourceKey → SourceMeta → Type 0
IsAttained keys chosen p i result best =
    ((result ≡ chosen) × (best ≡ record { priority = p; first_index = i }))
    ⊎ (any (is_entry result best) keys ≡ true)

IsAttained-cons_start :
    (key : DispatchSourceKey) (seen : SourceMeta) (keys : List Entry)
    (chosen result : Option DispatchSourceKey) (p i : ℤ) (best : SourceMeta)
    → IsAttained keys (some key) seen.priority seen.first_index result best
    → IsAttained ((key, seen) ∷ keys) chosen p i result best
IsAttained-cons_start key seen keys chosen result p i best (inl (same, met)) = inr (
    rw (same, met)
      (ground (arith, same_key_refl key, eq_int_refl seen.priority, eq_int_refl seen.first_index)))
IsAttained-cons_start key seen keys chosen result p i best (inr found) = inr (ground arith)

IsAttained-cons :
    (entry : Entry) (keys : List Entry) (chosen result : Option DispatchSourceKey) (p i : ℤ)
    (best : SourceMeta)
    → IsAttained keys chosen p i result best
    → IsAttained (entry ∷ keys) chosen p i result best
IsAttained-cons entry keys chosen result p i best (inl h) = inl h
IsAttained-cons entry keys chosen result p i best (inr found) = inr (ground arith)

pub best_key-IsAttained :
    (keys : List Entry) (chosen : Option DispatchSourceKey) (p i : ℤ)
    → IsAttained keys chosen p i (best_key keys chosen p i) (best_meta keys p i)
best_key-IsAttained [] chosen p i = inl (unfold best_key in refl, unfold best_meta in refl)
best_key-IsAttained ((key, seen) ∷ keys) chosen p i = elim (best_meta_step key seen keys p i) [
  | inl (better, e) ↦
      subst₂ (IsAttained ((key, seen) ∷ keys) chosen p i)
        (sym ((best_key_step key seen keys chosen p i).0 better)) (sym e)
        (IsAttained-cons_start key seen keys chosen _ p i _
          (best_key-IsAttained keys (some key) seen.priority seen.first_index))
  | inr (worse, e) ↦
      subst₂ (IsAttained ((key, seen) ∷ keys) chosen p i)
        (sym ((best_key_step key seen keys chosen p i).1 worse)) (sym e)
        (IsAttained-cons (key, seen) keys chosen _ p i _ (best_key-IsAttained keys chosen p i))
]
