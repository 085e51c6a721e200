-- ===== src/Permission/Policy/Laws.antt =====
-- What permission-policy.ts grants.
use Prim.Native.String.{String}
use text.Mathlib.Text.{◌==◌ as str_eq}
use text.Mathlib.TextEquality.{eq_iff}
use agents_ensemble.Base.{
  ◌≡◌, ◌≢◌, ◌↔◌, ◌⊎◌, Bool, true, false, Option, none, some, List, [], ◌∷◌, any, arith,
}
use agents_ensemble.Permission.Policy.{
  PermissionRequest, allow, deny, PermissionPolicyRules, default_read_only_tools, is_not_false,
  normalize_tool_name, matches_list, judge_allowed, evaluate_permission_policy,
}

module _ (trim lower : String → String) where
  -- The tool has the name of an entry, but for its case and the spaces around it.
  abbrev pub IsListed : String → List String → Type 0
  IsListed tool_name [] = ⊥
  IsListed tool_name (entry ∷ entries) =
      (normalize_tool_name trim lower entry ≡ normalize_tool_name trim lower tool_name)
      ⊎ IsListed tool_name entries

  abbrev pub IsListedIn : String → Option (List String) → Type 0
  IsListedIn tool_name none = ⊥
  IsListedIn tool_name (some entries) = IsListed tool_name entries

  abbrev pub IsReadOnly : String → List String → Type 0
  IsReadOnly tool_name [] = ⊥
  IsReadOnly tool_name (entry ∷ entries) =
      (entry ≡ normalize_tool_name trim lower tool_name) ⊎ IsReadOnly tool_name entries

  any-IsListed :
      (tool_name : String) (entries : List String)
      → (any
            (λ e.
              str_eq (normalize_tool_name trim lower e) (normalize_tool_name trim lower tool_name))
            entries
          ≡ true)
        ↔ IsListed tool_name entries
  any-IsListed tool_name [] = ((λ h. cc), (λ h. absurd h))
  any-IsListed tool_name (e ∷ entries) = ground (
    arith,
    eq_iff (normalize_tool_name trim lower e) (normalize_tool_name trim lower tool_name),
    any-IsListed tool_name entries,
  )

  matches_list_iff :
      (tool_name : String) (list : Option (List String))
      → (matches_list trim lower tool_name list ≡ true) ↔ IsListedIn tool_name list
  unfolding matches_list
  matches_list_iff tool_name none = ((λ h. cc), (λ h. absurd h))
  matches_list_iff tool_name (some []) = ((λ h. cc), (λ h. absurd h))
  matches_list_iff tool_name (some (e ∷ entries)) = any-IsListed tool_name (e ∷ entries)

  any-IsReadOnly :
      (tool_name : String) (entries : List String)
      → (any (λ e. str_eq e (normalize_tool_name trim lower tool_name)) entries ≡ true)
        ↔ IsReadOnly tool_name entries
  any-IsReadOnly tool_name [] = ((λ h. cc), (λ h. absurd h))
  any-IsReadOnly tool_name (e ∷ entries) =
      ground (
        arith,
        eq_iff e (normalize_tool_name trim lower tool_name),
        any-IsReadOnly tool_name entries,
      )

  -- The names by which a request is granted: the allowed tools, and where the rules name none,
  -- those that only read, unless the rules refuse them.
  abbrev pub IsGranted : String → Option (List String) → Option Bool → Type 0
  IsGranted tool_name (some tools) read_only = IsListed tool_name tools
  IsGranted tool_name none read_only =
      (read_only ≢ some false) × IsReadOnly tool_name default_read_only_tools

  is_not_false_iff :
      (read_only : Option Bool) → (is_not_false read_only ≡ true) ↔ (read_only ≢ some false)
  is_not_false_iff none = ground arith
  is_not_false_iff (some true) = ground arith
  is_not_false_iff (some false) = ground arith

  judge_allowed_iff :
      (tool_name : String) (tools : Option (List String)) (read_only : Option Bool)
      → (judge_allowed trim lower tool_name tools read_only ≡ allow)
        ↔ IsGranted tool_name tools read_only
  unfolding judge_allowed
  judge_allowed_iff tool_name (some tools) read_only =
      ground (arith, matches_list_iff tool_name (some tools))
  judge_allowed_iff tool_name none read_only =
      let by_name = any-IsReadOnly tool_name default_read_only_tools in
      ground (arith, is_not_false_iff read_only, by_name)

  judge_allowed-never_deny :
      (tool_name : String) (tools : Option (List String)) (read_only : Option Bool)
      → judge_allowed trim lower tool_name tools read_only ≢ deny
  unfolding judge_allowed
  judge_allowed-never_deny tool_name (some tools) read_only = ground arith
  judge_allowed-never_deny tool_name none read_only = ground arith

  -- The verdict is `deny` exactly where the tool is listed as denied, whatever else the rules say, and
  -- `allow` exactly where it is not and the rules grant it.
  pub evaluate_permission_policy_iff :
      (request : PermissionRequest) (rules : PermissionPolicyRules)
      → ((evaluate_permission_policy trim lower request rules ≡ deny)
          ↔ IsListedIn request.tool_name rules.deny_tools)
        × ((evaluate_permission_policy trim lower request rules ≡ allow) ↔ (
            (¬ IsListedIn request.tool_name rules.deny_tools)
            × IsGranted request.tool_name rules.allow_tools rules.allow_read_only_tools))
  unfolding evaluate_permission_policy
  evaluate_permission_policy_iff request rules = ground (
    arith,
    matches_list_iff request.tool_name rules.deny_tools,
    judge_allowed_iff request.tool_name rules.allow_tools rules.allow_read_only_tools,
    judge_allowed-never_deny request.tool_name rules.allow_tools rules.allow_read_only_tools,
  )
