-- ===== src/Permission/Stall/Refs.antt =====
-- Lists of the identities of waiting requests.
use agents_ensemble.Base.{
  ℕ, ◌≡◌, refl, ◌∙◌, ◌==◌, ==_iff, true, false, Bool-cases, inl, inr, ◌||◌, List, [], ◌∷◌, ◌++◌,
  any, arith,
}
use agents_ensemble.Permission.Stall.{has}

-- No identity stands twice in the list.
abbrev pub IsUniqueRefs : List ℕ → Type 0
IsUniqueRefs [] = Unit
IsUniqueRefs (r ∷ rs) = (has rs r ≡ false) × IsUniqueRefs rs

pub any-has : (xs ps : List ℕ) (r : ℕ) → has xs r ≡ true → has ps r ≡ true → any (has xs) ps ≡ true
any-has xs [] r h k = ground arith
any-has xs (p ∷ ps) r h k = elim (Bool-cases (p == r)) [
  | inl e ↦ rw ((==_iff p r).0 e, h) refl
  | inr e ↦ ground (arith, any-has xs ps r h (ground arith))
]

pub no_true : {A : Type 0} → false ≡ true → A
no_true e = ground arith

has-append : (xs ys : List ℕ) (r : ℕ) → has (xs ++ ys) r ≡ (has xs r || has ys r)
has-append [] ys r = refl
has-append (x ∷ xs) ys r = ground (arith, has-append xs ys r)

pub IsUniqueRefs-append :
    (xs ys : List ℕ)
    → IsUniqueRefs xs
    → IsUniqueRefs ys
    → ((r : ℕ) → has xs r ≡ true → has ys r ≡ true → ⊥)
    → IsUniqueRefs (xs ++ ys)
IsUniqueRefs-append [] ys h k apart = k
IsUniqueRefs-append (x ∷ xs) ys (h, hs) k apart = (
  has-append xs ys x ∙ elim (Bool-cases (has ys x)) [
    | inl e ↦ absurd (apart x (ground (arith, ==_iff x x)) e)
    | inr e ↦ rw (h, e) refl
  ],
  IsUniqueRefs-append xs ys hs k (λ r e f. apart r (ground arith) f),
)
