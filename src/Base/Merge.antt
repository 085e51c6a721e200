-- ===== src/Base/Merge.antt =====
-- A list split in two without loss and without a change of order.
use mathlib.Core.Bool.{Bool, true, false, not}
use mathlib.Core.List.{List, [], ◌∷◌}
use agents_ensemble.Base.Tests.{if◌then◌else◌}
use agents_ensemble.Base.Lists.{filter}

-- `Merge xs ys zs`: `zs` holds the elements of `xs` and of `ys`, each in its order.
pub data Merge {ℓ} {A : Type ℓ} : List A → List A → List A → Type ℓ where
  done : Merge [] [] []
  left : (x : A) {xs ys zs : List A} → Merge xs ys zs → Merge (x ∷ xs) ys (x ∷ zs)
  right : (y : A) {xs ys zs : List A} → Merge xs ys zs → Merge xs (y ∷ ys) (y ∷ zs)

pub Merge-filter {ℓ} :
    {A : Type ℓ} (p : A → Bool) (zs : List A) → Merge (filter p zs) (filter (λ z. not (p z)) zs) zs
Merge-filter p [] = done
Merge-filter p (z ∷ zs) =
    let rest = Merge-filter p zs in
    elim (p z)
      as (λ b.
        Merge (if b then z ∷ filter p zs else filter p zs)
          (if not b then z ∷ filter (λ x. not (p x)) zs else filter (λ x. not (p x)) zs) (z ∷ zs)) [
            | true ↦ left z rest
            | false ↦ right z rest
          ]
