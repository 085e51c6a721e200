-- ===== src/Base/StringMap.antt =====
-- JavaScript's `Map` with text keys: its entries in the order in which the keys were set first.
use Prim.Native.String.{String}
use text.Mathlib.Text.{◌==◌ as str_eq}
use text.Mathlib.TextEquality.{eq_iff}
use text.Mathlib.TextPositions.{eq_refl}
use mathlib.Core.Path.{subst, ◌≡◌, refl, sym, ap}
use mathlib.Core.Logic.{◌≢◌, inl, inr}
use mathlib.Core.Bool.{true, false}
use mathlib.Core.Option.{Option, none, some}
use mathlib.Core.List.{List, [], ◌∷◌, ◌++◌}
use native.Mathlib.Omega.{arith}
use agents_ensemble.Base.Tests.{if◌then◌else◌, Bool-cases}
use agents_ensemble.Base.Lists.{All, All-append, All-right}

-- A list of keys without one of them.
unfoldable pub drop_key : String → List String → List String
drop_key key [] = []
drop_key key (k ∷ ks) = let rest = drop_key key ks in if str_eq k key then rest else k ∷ rest

abbrev pub IsAbsent : String → List String → Type 0
IsAbsent key ks = All (λ k. k ≢ key) ks

abbrev pub IsUnique : List String → Type 0
IsUnique [] = Unit
IsUnique (k ∷ ks) = IsAbsent k ks × IsUnique ks

module _ {ℓ} {V : Type ℓ} where
  unfoldable pub lookup : String → List (String × V) → Option V
  lookup key [] = none
  lookup key ((k, v) ∷ m) = if str_eq k key then some v else lookup key m

  unfoldable pub insert : String → V → List (String × V) → List (String × V)
  insert key value [] = (key, value) ∷ []
  insert key value ((k, v) ∷ m) =
      let rest = insert key value m in if str_eq k key then (key, value) ∷ m else (k, v) ∷ rest

  unfoldable pub remove : String → List (String × V) → List (String × V)
  remove key [] = []
  remove key ((k, v) ∷ m) = let rest = remove key m in if str_eq k key then rest else (k, v) ∷ rest

  abbrev pub keys : List (String × V) → List String
  keys [] = []
  keys ((k, v) ∷ m) = k ∷ keys m

  abbrev pub values : List (String × V) → List V
  values [] = []
  values ((k, v) ∷ m) = v ∷ values m

  pub keys-remove :
      (key : String) (m : List (String × V)) → keys (remove key m) ≡ drop_key key (keys m)
  unfolding remove drop_key
  keys-remove key [] = refl
  keys-remove key ((k, v) ∷ m) = ground (arith, keys-remove key m)

  pub keys-insert :
      (key : String) (value : V) (m : List (String × V))
      → IsAbsent key (keys m)
      → keys (insert key value m) ≡ keys m ++ key ∷ []
  unfolding insert
  keys-insert key value [] h = refl
  keys-insert key value ((k, v) ∷ m) (h, hs) =
      ground (arith, eq_iff k key, keys-insert key value m hs)

  pub insert-absent :
      (key : String) (value : V) (m : List (String × V))
      → IsAbsent key (keys m)
      → insert key value m ≡ m ++ (key, value) ∷ []
  unfolding insert
  insert-absent key value [] h = refl
  insert-absent key value ((k, v) ∷ m) (h, hs) =
      ground (arith, eq_iff k key, insert-absent key value m hs)

  pub keys-append : (m n : List (String × V)) → keys (m ++ n) ≡ keys m ++ keys n
  keys-append [] n = refl
  keys-append ((k, v) ∷ m) n = ap (λ ks. k ∷ ks) (keys-append m n)

  pub values-append : (m n : List (String × V)) → values (m ++ n) ≡ values m ++ values n
  values-append [] n = refl
  values-append ((k, v) ∷ m) n = ap (λ vs. v ∷ vs) (values-append m n)

  pub keys-insert_present :
      (key : String) (old value : V) (m : List (String × V))
      → lookup key m ≡ some old
      → keys (insert key value m) ≡ keys m
  unfolding insert lookup
  keys-insert_present key old value [] h = ground arith
  keys-insert_present key old value ((k, v) ∷ m) h =
      ground (arith, eq_iff k key, keys-insert_present key old value m)

  pub lookup-insert_same :
      (key : String) (value : V) (m : List (String × V))
      → lookup key (insert key value m) ≡ some value
  unfolding insert lookup
  lookup-insert_same key value [] = ground (arith, eq_refl key)
  lookup-insert_same key value ((k, v) ∷ m) =
      ground (arith, eq_refl key, eq_iff k key, lookup-insert_same key value m)

  pub lookup-insert_other :
      (key other : String) (value : V) (m : List (String × V))
      → other ≢ key
      → lookup other (insert key value m) ≡ lookup other m
  unfolding insert lookup
  lookup-insert_other key other value [] h = ground (arith, eq_iff key other)
  lookup-insert_other key other value ((k, v) ∷ m) h = ground (
    arith,
    eq_iff key other,
    eq_iff k key,
    eq_iff k other,
    lookup-insert_other key other value m h,
  )

  pub lookup-IsAbsent :
      (key : String) (m : List (String × V)) → lookup key m ≡ none → IsAbsent key (keys m)
  unfolding lookup
  lookup-IsAbsent key [] h = tt
  lookup-IsAbsent key ((k, v) ∷ m) h =
      (ground (arith, eq_iff k key), lookup-IsAbsent key m (ground (arith, eq_iff k key)))

-- Lemmas on lists of keys.
pub drop_key-append :
    (key : String) (ks ls : List String)
    → drop_key key (ks ++ ls) ≡ drop_key key ks ++ drop_key key ls
unfolding drop_key
drop_key-append key [] ls = refl
drop_key-append key (k ∷ ks) ls = ground (arith, drop_key-append key ks ls)

pub drop_key-absent : (key : String) (ks : List String) → IsAbsent key ks → drop_key key ks ≡ ks
unfolding drop_key
drop_key-absent key [] h = refl
drop_key-absent key (k ∷ ks) (h, hs) = ground (arith, eq_iff k key, drop_key-absent key ks hs)

pub drop_key-first :
    (key : String) (ks : List String) → IsAbsent key ks → drop_key key (key ∷ ks) ≡ ks
unfolding drop_key
drop_key-first key ks h = ground (arith, eq_refl key, drop_key-absent key ks h)

pub drop_key-All {κ} :
    (P : String → Type κ) (key : String) (ks : List String) → All P ks → All P (drop_key key ks)
unfolding drop_key
drop_key-All P key [] h = tt
drop_key-All P key (k ∷ ks) (h, hs) =
    let rest = drop_key-All P key ks hs in
    elim (str_eq k key) as (λ b. All P (if b then drop_key key ks else k ∷ drop_key key ks)) [
      | true ↦ rest
      | false ↦ (h, rest)
    ]

pub drop_key-IsUnique : (key : String) (ks : List String) → IsUnique ks → IsUnique (drop_key key ks)
unfolding drop_key
drop_key-IsUnique key [] h = tt
drop_key-IsUnique key (k ∷ ks) (h, hs) =
    let rest = drop_key-IsUnique key ks hs in
    elim (str_eq k key) as (λ b. IsUnique (if b then drop_key key ks else k ∷ drop_key key ks)) [
      | true ↦ rest
      | false ↦ (drop_key-All (λ l. l ≢ k) key ks h, rest)
    ]

pub IsUnique-append_end :
    (ks : List String) (key : String) → IsUnique ks → IsAbsent key ks → IsUnique (ks ++ key ∷ [])
IsUnique-append_end [] key h a = (tt, tt)
IsUnique-append_end (k ∷ ks) key (h, hs) (a, rest) = (
  All-append (λ l. l ≢ k) ks (key ∷ []) h ((λ e. a (sym e)), tt),
  IsUnique-append_end ks key hs rest,
)

-- What stands behind a key in a list without repetition is another key, and so is what stands before.
pub IsUnique-tail : (ks ls : List String) → IsUnique (ks ++ ls) → IsUnique ls
IsUnique-tail [] ls h = h
IsUnique-tail (k ∷ ks) ls (h, hs) = IsUnique-tail ks ls hs

pub IsUnique-before :
    (ks : List String) (key : String) (ls : List String)
    → IsUnique (ks ++ key ∷ ls)
    → IsAbsent key ks
IsUnique-before [] key ls h = tt
IsUnique-before (k ∷ ks) key ls (h, hs) =
    ((λ e. (All-right (λ l. l ≢ k) ks (key ∷ ls) h).0 (sym e)), IsUnique-before ks key ls hs)

pub IsUnique-apart : (ks ls : List String) → IsUnique (ks ++ ls) → All (λ k. IsAbsent k ls) ks
IsUnique-apart [] ls h = tt
IsUnique-apart (k ∷ ks) ls (h, hs) = (All-right (λ l. l ≢ k) ks ls h, IsUnique-apart ks ls hs)

pub All-lookup {ℓ κ} :
    {V : Type ℓ} (P : String → Type κ) (key : String) (m : List (String × V)) (value : V)
    → All P (keys m)
    → lookup key m ≡ some value
    → P key
unfolding lookup
All-lookup P key [] value h e = ground arith
All-lookup P key ((k, v) ∷ m) value (h, hs) e = elim (Bool-cases (str_eq k key)) [
  | inl f ↦ subst P ((eq_iff k key).0 f) h
  | inr f ↦ All-lookup P key m value hs (ground arith)
]
