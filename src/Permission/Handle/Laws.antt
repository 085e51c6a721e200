-- ===== src/Permission/Handle/Laws.antt =====
-- What a broker answers by the names of tools.
use Prim.Native.String.{String}
use agents_ensemble.Base.{◌≡◌, ◌≢◌, refl, Option, none, get_or_else}
use agents_ensemble.Permission.Policy.{PermissionRequest, PermissionVerdict, allow, deny, ask}
use agents_ensemble.Permission.Policy.Laws.{IsListedIn, evaluate_permission_policy_iff}
use agents_ensemble.Permission.Broker.{allow_once, deny_request}
use agents_ensemble.Permission.Handle.{
  PermissionBrokerOptions, no_rules, default_allow_once_ask_handler, verdict_to_decision, handle,
  handler_of,
}

not_denied :
    (options : PermissionBrokerOptions) (verdict : PermissionVerdict) (request : PermissionRequest)
    (label : Option String)
    → options.on_ask ≡ none
    → verdict ≢ deny
    → verdict_to_decision options verdict request label ≡ allow_once request.options
unfolding verdict_to_decision default_allow_once_ask_handler
not_denied options allow request label e h = refl
not_denied options deny request label e h = absurd (h refl)
not_denied options ask request label e h = rw e refl

module _ (trim lower : String → String) where
  -- A tool that the rules deny is refused: its request never reaches the handler for open cases,
  -- whatever that would answer, and whatever tools the rules allow.
  pub handler_of-denied :
      (options : PermissionBrokerOptions) (label : Option String) (request : PermissionRequest)
      → IsListedIn trim lower request.tool_name (get_or_else options.policy no_rules).deny_tools
      → handler_of trim lower options label request ≡ deny_request request.options
  unfolding handler_of handle verdict_to_decision
  handler_of-denied options label request h =
      let verdict =
        (evaluate_permission_policy_iff trim lower request
            (get_or_else options.policy no_rules)).0.1
          h in
      rw verdict refl

  -- Without a handler for open cases, every tool that the rules do not deny is allowed, also one
  -- that no list of theirs names.
  pub handler_of-undenied :
      (options : PermissionBrokerOptions) (label : Option String) (request : PermissionRequest)
      → options.on_ask ≡ none
      → ¬ IsListedIn trim lower request.tool_name (get_or_else options.policy no_rules).deny_tools
      → handler_of trim lower options label request ≡ allow_once request.options
  unfolding handler_of handle
  handler_of-undenied options label request e h = not_denied options _ request _ e (λ verdict. h (
      (evaluate_permission_policy_iff trim lower request (get_or_else options.policy no_rules)).0.0
        verdict))
