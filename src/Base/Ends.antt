-- ===== src/Base/Ends.antt =====
-- Lists with an element more at the end, and filtered lists.
use agents_ensemble.Base.{
  ◌≡◌, Bool, true, false, Bool-cases, inl, inr, List, [], ◌∷◌, ◌++◌, any, filter, All, arith,
}

module _ {ℓ} {A : Type ℓ} where
  pub any-append_left : (p : A → Bool) (xs ys : List A) → any p xs ≡ true → any p (xs ++ ys) ≡ true
  any-append_left p [] ys h = ground arith
  any-append_left p (x ∷ xs) ys h = ground (arith, any-append_left p xs ys)

  pub any-append_right : (p : A → Bool) (xs ys : List A) → any p ys ≡ true → any p (xs ++ ys) ≡ true
  any-append_right p [] ys h = h
  any-append_right p (x ∷ xs) ys h = ground (arith, any-append_right p xs ys)

  pub any_of_filter : (p q : A → Bool) (xs : List A) → any q (filter p xs) ≡ true → any q xs ≡ true
  any_of_filter p q [] h = h
  any_of_filter p q (x ∷ xs) h = ground (arith, any_of_filter p q xs)

  pub filter-drops_end :
      (p : A → Bool) (xs : List A) (e : A) → p e ≡ false → filter p (xs ++ e ∷ []) ≡ filter p xs
  filter-drops_end p [] e h = ground arith
  filter-drops_end p (x ∷ xs) e h = ground (arith, filter-drops_end p xs e h)

  pub filter-keeps_end :
      (p : A → Bool) (xs : List A) (e : A)
      → p e ≡ true
      → filter p (xs ++ e ∷ []) ≡ filter p xs ++ e ∷ []
  filter-keeps_end p [] e h = ground arith
  filter-keeps_end p (x ∷ xs) e h = ground (arith, filter-keeps_end p xs e h)

  -- What holds of the elements that a filter drops and of those that it keeps holds of all.
  pub All-unfilter :
      (p : A → Bool) (P : A → Type 0) (xs : List A)
      → ((e : A) → p e ≡ false → P e)
      → All P (filter p xs)
      → All P xs
  All-unfilter p P [] dropped h = tt
  All-unfilter p P (x ∷ xs) dropped h = elim (Bool-cases (p x)) [
    | inl e ↦
        let k : P x × All P (filter p xs) = rw e at h in (k.0, All-unfilter p P xs dropped k.1)
    | inr e ↦ (dropped x e, All-unfilter p P xs dropped (rw e at h))
  ]
