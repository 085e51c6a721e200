-- ===== src/Permission/Policy.antt =====
-- packages/core/src/permission/permission-policy.ts: the verdict on a request by the names of
-- tools. `trim` and `lower` are JavaScript's `String.prototype.trim` and `toLowerCase`, which go by
-- the Unicode tables.
pub mod Laws
use Prim.Native.String.{String}
use text.Mathlib.Text.{◌==◌ as str_eq}
use agents_ensemble.Base.{Bool, true, false, Option, none, some, List, [], ◌∷◌, any, if◌then◌else◌}

-- The parts of a request that the session reads; `raw` is left out.
pub record PermissionOption : Type 0 where
  pub option_id : String
  pub kind : String
  pub name : Option String

pub record PermissionRequest : Type 0 where
  pub session_id : Option String
  pub tool_name : String
  pub options : Option (List PermissionOption)

pub data PermissionVerdict : Type 0 where
  allow deny ask : PermissionVerdict

pub record PermissionPolicyRules : Type 0 where
  pub allow_tools : Option (List String)
  pub deny_tools : Option (List String)
  pub allow_read_only_tools : Option Bool

abbrev pub default_read_only_tools : List String
default_read_only_tools =
    "read" ∷ "grep" ∷ "glob" ∷ "semanticsearch" ∷ "listmcpresources" ∷ "fetchmcpresource" ∷ []

-- `allowReadOnlyTools !== false`
abbrev pub is_not_false : Option Bool → Bool
is_not_false (some false) = false
is_not_false _ = true

module _ (trim lower : String → String) where
  unfoldable pub normalize_tool_name : String → String
  normalize_tool_name tool_name = lower (trim tool_name)

  -- `list.some(…)`, and false on no list; the code's test for an empty list changes nothing.
  unfoldable pub matches_list : String → Option (List String) → Bool
  matches_list tool_name none = false
  matches_list tool_name (some []) = false
  matches_list tool_name (some (entry ∷ entries)) =
      any (λ e. str_eq (normalize_tool_name e) (normalize_tool_name tool_name)) (entry ∷ entries)

  -- The code behind the test of the denied tools.
  judge_allowed : String → Option (List String) → Option Bool → PermissionVerdict
  judge_allowed tool_name (some tools) read_only =
      if matches_list tool_name (some tools) then allow else ask
  judge_allowed tool_name none read_only =
      if is_not_false read_only
      then if any (λ e. str_eq e (normalize_tool_name tool_name)) default_read_only_tools
        then allow
        else ask
      else ask

  unfoldable pub evaluate_permission_policy :
      PermissionRequest → PermissionPolicyRules → PermissionVerdict
  unfolding judge_allowed
  evaluate_permission_policy request rules =
      if matches_list request.tool_name rules.deny_tools
      then deny
      else judge_allowed request.tool_name rules.allow_tools rules.allow_read_only_tools
