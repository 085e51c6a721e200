-- ===== src/Base/Lists.antt =====
-- JavaScript's array methods on lists: `length`, `filter` by a Boolean test, `some`, `every`.
use Prim.Native.Nat.{ℕ, suc, ◌+◌, ◌≤◌}
use mathlib.Core.Path.{◌≡◌, refl, ap}
use mathlib.Core.Bool.{Bool, true, false, not, ◌&&◌, ◌||◌, false≢true}
use mathlib.Core.Option.{Option, none, some}
use mathlib.Core.List.{List, [], ◌∷◌, ◌++◌}
use native.Mathlib.Omega.{arith}
use agents_ensemble.Base.Tests.{if◌then◌else◌}

module _ {ℓ} {A : Type ℓ} where
  abbrev pub length : List A → ℕ
  length [] = 0
  length (x ∷ xs) = suc (length xs)

  abbrev pub filter : (A → Bool) → List A → List A
  filter p [] = []
  filter p (x ∷ xs) = if p x then x ∷ filter p xs else filter p xs

  abbrev pub any : (A → Bool) → List A → Bool
  any p [] = false
  any p (x ∷ xs) = p x || any p xs

  abbrev pub all : (A → Bool) → List A → Bool
  all p [] = true
  all p (x ∷ xs) = p x && all p xs

  -- `Array.prototype.find`
  abbrev pub find : (A → Bool) → List A → Option A
  find p [] = none
  find p (x ∷ xs) = if p x then some x else find p xs

  abbrev pub is_empty : List A → Bool
  is_empty [] = true
  is_empty (_ ∷ _) = false

  abbrev pub All {κ} : (A → Type κ) → List A → Type κ
  All P [] = Unit
  All P (x ∷ xs) = P x × All P xs

module _ {ℓ} {A : Type ℓ} where
  pub length-append : (xs ys : List A) → length (xs ++ ys) ≡ length xs + length ys
  length-append [] ys = omega arith
  length-append (x ∷ xs) ys = omega (arith, length-append xs ys)

  pub length-filter-le : (p : A → Bool) (xs : List A) → length (filter p xs) ≤ length xs
  length-filter-le p [] = omega arith
  length-filter-le p (x ∷ xs) = ground (arith, length-filter-le p xs)

  -- What a test keeps and what it drops are the whole list.
  pub length-filter_split :
      (p : A → Bool) (xs : List A)
      → length (filter p xs) + length (filter (λ x. not (p x)) xs) ≡ length xs
  length-filter_split p [] = omega arith
  length-filter_split p (x ∷ xs) = ground (arith, length-filter_split p xs)

  pub filter-append :
      (p : A → Bool) (xs ys : List A) → filter p (xs ++ ys) ≡ filter p xs ++ filter p ys
  filter-append p [] ys = refl
  filter-append p (x ∷ xs) ys = ground (arith, filter-append p xs ys)

  pub filter_twice :
      (p q : A → Bool) (xs : List A) → filter p (filter q xs) ≡ filter (λ x. q x && p x) xs
  filter_twice p q [] = refl
  filter_twice p q (x ∷ xs) = ground (arith, filter_twice p q xs)

  pub filter-eq_of_All :
      (p q : A → Bool) (xs : List A) → All (λ x. p x ≡ q x) xs → filter p xs ≡ filter q xs
  filter-eq_of_All p q [] h = refl
  filter-eq_of_All p q (x ∷ xs) h = ground (arith, filter-eq_of_All p q xs h.1)

  pub filter_none : (p : A → Bool) (xs : List A) → any p xs ≡ false → filter p xs ≡ []
  filter_none p [] h = refl
  filter_none p (x ∷ xs) h = ground (arith, filter_none p xs)

  pub filter-all : (p : A → Bool) (xs : List A) → all p xs ≡ true → filter p xs ≡ xs
  filter-all p [] h = refl
  filter-all p (x ∷ xs) h = ground (arith, filter-all p xs)

  pub All-filter_test : (p : A → Bool) (xs : List A) → All (λ x. p x ≡ true) (filter p xs)
  All-filter_test p [] = tt
  All-filter_test p (x ∷ xs) = ground (arith, All-filter_test p xs)

  pub All-filter {κ} :
      (P : A → Type κ) (p : A → Bool) (xs : List A) → All P xs → All P (filter p xs)
  All-filter P p [] h = tt
  All-filter P p (x ∷ xs) (h, hs) =
      let rest = All-filter P p xs hs in
      elim (p x) as (λ b. All P (if b then x ∷ filter p xs else filter p xs)) [
        | true ↦ (h, rest)
        | false ↦ rest
      ]

  pub All-append {κ} : (P : A → Type κ) (xs ys : List A) → All P xs → All P ys → All P (xs ++ ys)
  All-append P [] ys h k = k
  All-append P (x ∷ xs) ys (h, hs) k = (h, All-append P xs ys hs k)

  pub All-map {κ μ} :
      (P : A → Type κ) (Q : A → Type μ) (f : (x : A) → P x → Q x) (xs : List A)
      → All P xs
      → All Q xs
  All-map P Q f [] h = tt
  All-map P Q f (x ∷ xs) (h, hs) = (f x h, All-map P Q f xs hs)

  pub All-both {κ μ} :
      (P : A → Type κ) (Q : A → Type μ) (xs : List A)
      → All P xs
      → All Q xs
      → All (λ x. P x × Q x) xs
  All-both P Q [] h k = tt
  All-both P Q (x ∷ xs) (h, hs) (k, ks) = ((h, k), All-both P Q xs hs ks)

  -- What follows from each element that passes follows from `any`.
  pub any-elim {κ} :
      {P : Type κ} (p : A → Bool) (xs : List A) → any p xs ≡ true → All (λ x. p x ≡ true → P) xs → P
  any-elim p [] h k = absurd (false≢true h)
  any-elim {P} p (x ∷ xs) h (k, ks) =
      (elim (p x) as (λ b. (b ≡ true → P) → (b || any p xs) ≡ true → P) [
        | true ↦ λ here _. here refl
        | false ↦ λ _ later. any-elim p xs later ks
      ])
        k h

  pub any_of_All :
      (p q : A → Bool) (xs : List A)
      → All (λ x. p x ≡ true → q x ≡ true) xs
      → any p xs ≡ true
      → any q xs ≡ true
  any_of_All p q [] k h = h
  any_of_All p q (x ∷ xs) (k, ks) h = ground (arith, k, any_of_All p q xs ks)

  pub any_self :
      (r : A → A → Bool)
      → ((x : A) → r x x ≡ true)
      → (xs : List A) → All (λ x. any (r x) xs ≡ true) xs
  any_self r h [] = tt
  any_self r h (x ∷ xs) =
      (ground (arith, h x), All-map _ _ (λ y k. ground (arith, k)) xs (any_self r h xs))

  pub All-intro {κ} : (P : A → Type κ) → ((x : A) → P x) → (xs : List A) → All P xs
  All-intro P h [] = tt
  All-intro P h (x ∷ xs) = (h x, All-intro P h xs)

  pub any-filter : (p q : A → Bool) (xs : List A) → any q (filter p xs) ≡ any (λ x. p x && q x) xs
  any-filter p q [] = refl
  any-filter p q (x ∷ xs) = ground (arith, any-filter p q xs)

  pub any_of_filter_nil : (p : A → Bool) (xs : List A) → filter p xs ≡ [] → any p xs ≡ false
  any_of_filter_nil p [] h = refl
  any_of_filter_nil p (x ∷ xs) h = ground (arith, any_of_filter_nil p xs)

  -- A filter that drops nothing is the list.
  pub filter_of_length :
      (p : A → Bool) (xs : List A) → length xs ≤ length (filter p xs) → filter p xs ≡ xs
  filter_of_length p [] h = refl
  filter_of_length p (x ∷ xs) h = ground (arith, filter_of_length p xs, length-filter-le p xs)

  pub filter_rest :
      (p : A → Bool) (xs : List A) → filter p xs ≡ [] → filter (λ x. not (p x)) xs ≡ xs
  filter_rest p [] h = refl
  filter_rest p (x ∷ xs) h = ground (arith, filter_rest p xs)

  pub All-left {κ} : (P : A → Type κ) (xs ys : List A) → All P (xs ++ ys) → All P xs
  All-left P [] ys h = tt
  All-left P (x ∷ xs) ys (h, hs) = (h, All-left P xs ys hs)

  pub All-right {κ} : (P : A → Type κ) (xs ys : List A) → All P (xs ++ ys) → All P ys
  All-right P [] ys h = h
  All-right P (x ∷ xs) ys (h, hs) = All-right P xs ys hs

  pub filter_never : (xs : List A) → filter (λ _. false) xs ≡ []
  filter_never [] = refl
  filter_never (x ∷ xs) = filter_never xs

  pub filter_always : (xs : List A) → filter (λ _. true) xs ≡ xs
  filter_always [] = refl
  filter_always (x ∷ xs) = ap (λ ys. x ∷ ys) (filter_always xs)
