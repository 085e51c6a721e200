-- ===== src/Permission/Handle.antt =====
-- The class `PermissionBroker` of packages/core/src/permission/permission-broker.ts: one request, from
-- the parsed parameters to the decision. `on_ask` is the handler of the options.
pub mod Laws
use Prim.Native.String.{String}
use agents_ensemble.Base.{Option, none, some, get_or_else}
use agents_ensemble.Permission.Policy.{
  PermissionRequest, PermissionVerdict, allow, deny, ask, PermissionPolicyRules,
  evaluate_permission_policy,
}
use agents_ensemble.Permission.Broker.{allow_once, deny_request}

pub record PermissionBrokerOptions : Type 0 where
  pub policy : Option PermissionPolicyRules
  pub on_ask : Option (PermissionRequest → String)
  pub session_label : Option String

-- The default `{}` of the rules.
abbrev pub no_rules : PermissionPolicyRules
no_rules = record { allow_tools = none; deny_tools = none; allow_read_only_tools = none }

unfoldable pub default_allow_once_ask_handler : PermissionRequest → String
unfolding allow_once
default_allow_once_ask_handler request = allow_once request.options

-- `a ?? b` on values that may be missing.
abbrev pub first_given : Option String → Option String → Option String
first_given none other = other
first_given (some s) other = some s

unfoldable pub verdict_to_decision :
    PermissionBrokerOptions → PermissionVerdict → PermissionRequest → Option String → String
unfolding default_allow_once_ask_handler
verdict_to_decision options allow request label = allow_once request.options
verdict_to_decision options deny request label = deny_request request.options
verdict_to_decision options ask request label =
    get_or_else options.on_ask default_allow_once_ask_handler
      (record request { session_id = first_given request.session_id label })

module _ (trim lower : String → String) where
  unfoldable pub handle : PermissionBrokerOptions → PermissionRequest → Option String → String
  unfolding verdict_to_decision
  handle options request label =
      verdict_to_decision options
        (evaluate_permission_policy trim lower request (get_or_else options.policy no_rules))
        request label

  -- The handler that `createHandler` makes.
  unfoldable pub handler_of : PermissionBrokerOptions → Option String → PermissionRequest → String
  unfolding handle
  handler_of options label request =
      handle options request (first_given label options.session_label)
