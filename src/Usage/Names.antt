-- ===== src/Usage/Names.antt =====
-- The set of the workers' names holds each of them once.
use Prim.Native.String.{String}
use text.Mathlib.Text.{◌==◌ as str_eq}
use text.Mathlib.TextEquality.{eq_iff}
use text.Mathlib.TextPositions.{eq_refl}
use agents_ensemble.Base.{
  ◌≡◌, true, false, Option, none, some, List, [], ◌∷◌, ◌++◌, All, any, if_intro, arith,
}
use agents_ensemble.Base.StringMap.{IsAbsent, IsUnique, IsUnique-append_end}
use agents_ensemble.Usage.Rounds.{SessionUsageAgentKind, conductor, worker, SessionUsageRound}
use agents_ensemble.Usage.Summary.{name_of, add_to_set, add_each, names_from}

-- A worker's round has a name that is not empty.
abbrev pub HasName : SessionUsageAgentKind → Option String → Type 0
HasName conductor name = Unit
HasName worker none = ⊥
HasName worker (some name) = str_eq name "" ≡ false

abbrev pub IsNamed : SessionUsageRound → Type 0
IsNamed round = HasName round.agent_kind round.agent_name

any-IsAbsent :
    (name : String) (names : List String)
    → any (λ n. str_eq n name) names ≡ false
    → IsAbsent name names
any-IsAbsent name [] e = tt
any-IsAbsent name (n ∷ names) e =
    (ground (arith, eq_iff n name), any-IsAbsent name names (ground arith))

add_to_set-IsUnique :
    (name : String) (names : List String) → IsUnique names → IsUnique (add_to_set name names)
unfolding add_to_set
add_to_set-IsUnique name names h =
    if_intro IsUnique (any (λ n. str_eq n name) names) (λ e. h)
      (λ e. IsUnique-append_end names name h (any-IsAbsent name names e))

abbrev pub IsIn : String → List String → Type 0
IsIn name names = any (λ n. str_eq name n) names ≡ true

IsIn-append :
    (name : String) (names more : List String) → IsIn name names → IsIn name (names ++ more)
IsIn-append name [] more h = ground arith
IsIn-append name (n ∷ names) more h = ground (arith, IsIn-append name names more)

IsIn-append_end : (name : String) (names : List String) → IsIn name (names ++ name ∷ [])
IsIn-append_end name [] = ground (arith, eq_refl name)
IsIn-append_end name (n ∷ names) = ground (arith, IsIn-append_end name names)

IsIn-sym :
    (name : String) (names : List String) → any (λ n. str_eq n name) names ≡ true → IsIn name names
IsIn-sym name [] e = ground arith
IsIn-sym name (n ∷ names) e = ground (arith, eq_iff n name, eq_iff name n, IsIn-sym name names)

add_to_set-IsIn_new : (name : String) (names : List String) → IsIn name (add_to_set name names)
unfolding add_to_set
add_to_set-IsIn_new name names =
    if_intro (IsIn name) (any (λ n. str_eq n name) names) (λ e. IsIn-sym name names e)
      (λ e. IsIn-append_end name names)

add_to_set-IsIn_old :
    (name other : String) (names : List String)
    → IsIn other names
    → IsIn other (add_to_set name names)
unfolding add_to_set
add_to_set-IsIn_old name other names h =
    if_intro (IsIn other) (any (λ n. str_eq n name) names) (λ e. h)
      (λ e. IsIn-append other names (name ∷ []) h)

add_each-IsUnique : (more names : List String) → IsUnique names → IsUnique (add_each more names)
add_each-IsUnique [] names h = h
add_each-IsUnique (n ∷ more) names h =
    add_each-IsUnique more (add_to_set n names) (add_to_set-IsUnique n names h)

add_each-IsIn_old :
    (more : List String) (other : String) (names : List String)
    → IsIn other names
    → IsIn other (add_each more names)
add_each-IsIn_old [] other names h = h
add_each-IsIn_old (n ∷ more) other names h =
    add_each-IsIn_old more other (add_to_set n names) (add_to_set-IsIn_old n other names h)

pub names_from-IsUnique :
    (rounds : List SessionUsageRound) (names : List String)
    → IsUnique names
    → IsUnique (names_from rounds names)
unfolding names_from
names_from-IsUnique [] names h = h
names_from-IsUnique (round ∷ rounds) names h =
    names_from-IsUnique rounds _
      (add_each-IsUnique (name_of round.agent_kind round.agent_name) names h)

names_from-IsIn_old :
    (rounds : List SessionUsageRound) (other : String) (names : List String)
    → IsIn other names
    → IsIn other (names_from rounds names)
unfolding names_from
names_from-IsIn_old [] other names h = h
names_from-IsIn_old (round ∷ rounds) other names h =
    names_from-IsIn_old rounds other _
      (add_each-IsIn_old (name_of round.agent_kind round.agent_name) other names h)

-- A conductor's round, or one of a worker whose name is in the list.
abbrev pub HasListed : List String → SessionUsageAgentKind → Option String → Type 0
HasListed names conductor name = Unit
HasListed names worker none = ⊥
HasListed names worker (some name) = IsIn name names

add_each-HasListed :
    (kind : SessionUsageAgentKind) (name : Option String) (names : List String)
    → HasName kind name
    → HasListed (add_each (name_of kind name) names) kind name
add_each-HasListed conductor name names h = tt
add_each-HasListed worker none names h = h
add_each-HasListed worker (some name) names h = rw h (add_to_set-IsIn_new name names)

names_from-HasListed :
    (rounds : List SessionUsageRound) (kind : SessionUsageAgentKind) (name : Option String)
    (names : List String)
    → HasListed names kind name
    → HasListed (names_from rounds names) kind name
names_from-HasListed rounds conductor name names h = tt
names_from-HasListed rounds worker none names h = h
names_from-HasListed rounds worker (some name) names h = names_from-IsIn_old rounds name names h

pub names_from-All :
    (rounds : List SessionUsageRound) (names : List String)
    → All IsNamed rounds
    → All (λ r. HasListed (names_from rounds names) r.agent_kind r.agent_name) rounds
unfolding names_from
names_from-All [] names h = tt
names_from-All (round ∷ rounds) names (h, hs) = (
  names_from-HasListed rounds round.agent_kind round.agent_name _
      (add_each-HasListed round.agent_kind round.agent_name names h),
  names_from-All rounds _ hs,
)
