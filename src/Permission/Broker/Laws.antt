-- ===== src/Permission/Broker/Laws.antt =====
-- Which option permission-broker.ts selects.
use Prim.Native.String.{String}
use text.Mathlib.Text.{◌==◌ as str_eq}
use text.Mathlib.TextEquality.{eq_iff}
use mathlib.Core.Path.{subst}
use agents_ensemble.Base.{
  ◌≡◌, ◌≢◌, inl, inr, Bool-cases, Option, none, some, Option-cases, List, [], ◌∷◌, find, All, arith,
}
use agents_ensemble.Permission.Policy.{PermissionOption}
use agents_ensemble.Permission.Broker.{
  to_allow, to_deny, preferred_kinds, find_of_kind, select_of_kinds, select_permission_option_id,
}

-- The first option of a kind among those offered.
pub data IsFirstOfKind (kind : String) (option : PermissionOption)
    : List PermissionOption → Type 0 where
  here :
      {rest : List PermissionOption}
      → option.kind ≡ kind
      → IsFirstOfKind kind option (option ∷ rest)
  later :
      {other : PermissionOption} {rest : List PermissionOption}
      → other.kind ≢ kind
      → IsFirstOfKind kind option rest
      → IsFirstOfKind kind option (other ∷ rest)

abbrev pub HasNone : String → List PermissionOption → Type 0
HasNone kind options = All (λ option. option.kind ≢ kind) options

-- The option that serves an intent: its `…_once` option and, where there is none, its `…_always`
-- option; nothing where neither is offered.
pub data IsSelection (options : List PermissionOption) (once always : String)
    : Option String → Type 0 where
  by_once :
      (option : PermissionOption)
      → IsFirstOfKind once option options
      → IsSelection options once always (some option.option_id)
  by_always :
      (option : PermissionOption)
      → HasNone once options
      → IsFirstOfKind always option options
      → IsSelection options once always (some option.option_id)
  by_nothing : HasNone once options → HasNone always options → IsSelection options once always none

first_here :
    {kind : String} {option other : PermissionOption} {rest : List PermissionOption}
    → other.kind ≡ kind
    → other ≡ option
    → IsFirstOfKind kind option (other ∷ rest)
first_here {kind} {option} {other} {rest} k e =
    subst (λ o. IsFirstOfKind kind o (other ∷ rest)) e (here k)

find_kind_some :
    (kind : String) (option : PermissionOption) (options : List PermissionOption)
    → find (λ candidate. str_eq candidate.kind kind) options ≡ some option
    → IsFirstOfKind kind option options
find_kind_some kind option [] h = ground arith
find_kind_some kind option (o ∷ options) h = elim (Bool-cases (str_eq o.kind kind)) [
  | inl e ↦ first_here (ground (arith, eq_iff o.kind kind)) (ground arith)
  | inr e ↦
      later (ground (arith, eq_iff o.kind kind)) (find_kind_some kind option options (ground arith))
]

find_kind_none :
    (kind : String) (options : List PermissionOption)
    → find (λ candidate. str_eq candidate.kind kind) options ≡ none
    → HasNone kind options
find_kind_none kind [] h = tt
find_kind_none kind (o ∷ options) h = (
  ground (arith, eq_iff o.kind kind),
  find_kind_none kind options (ground (arith, eq_iff o.kind kind)),
)

-- `none` stands for the missing list, which offers nothing.
abbrev pub offered : Option (List PermissionOption) → List PermissionOption
offered none = []
offered (some options) = options

find_of_kind-some :
    (kind : String) (options : Option (List PermissionOption)) (option : PermissionOption)
    → find_of_kind kind options ≡ some option
    → IsFirstOfKind kind option (offered options)
unfolding find_of_kind
find_of_kind-some kind none option h = ground arith
find_of_kind-some kind (some options) option h = find_kind_some kind option options h

find_of_kind-none :
    (kind : String) (options : Option (List PermissionOption))
    → find_of_kind kind options ≡ none
    → HasNone kind (offered options)
unfolding find_of_kind
find_of_kind-none kind none h = tt
find_of_kind-none kind (some options) h = find_kind_none kind options h

select_of_kinds-IsSelection :
    (once always : String) (options : Option (List PermissionOption))
    → IsSelection (offered options) once always (select_of_kinds (once ∷ always ∷ []) options)
unfolding select_of_kinds
select_of_kinds-IsSelection once always options = elim (Option-cases (find_of_kind once options)) [
  | inr (option, e) ↦ rw e (by_once option (find_of_kind-some once options option e))
  | inl e ↦
      let no_once = find_of_kind-none once options e in
      elim (Option-cases (find_of_kind always options)) [
        | inr (option, f) ↦
            rw (e, f) (by_always option no_once (find_of_kind-some always options option f))
        | inl f ↦ rw (e, f) (by_nothing no_once (find_of_kind-none always options f))
      ]
]

-- The option selected for an intent has a kind that serves it: to allow, the first `allow_once` and
-- else the first `allow_always`; to deny, the first `reject_once` and else the first
-- `reject_always`. Nothing is selected just where neither kind is offered.
pub select_permission_option_id-IsSelection :
    (options : Option (List PermissionOption))
    → IsSelection
        (offered options)
        "allow_once"
        "allow_always"
        (select_permission_option_id options to_allow)
      × IsSelection
          (offered options)
          "reject_once"
          "reject_always"
          (select_permission_option_id options to_deny)
unfolding select_permission_option_id preferred_kinds
select_permission_option_id-IsSelection options = (
  select_of_kinds-IsSelection "allow_once" "allow_always" options,
  select_of_kinds-IsSelection "reject_once" "reject_always" options,
)
