-- ===== src/Tests/Permission.antt =====
-- A permission request through policy, options and inbox; `plain` stands for `trim` and
-- `toLowerCase` on names without spaces and capitals.
use Prim.Native.String.{String}
use text.Mathlib.TextEquality.{eq_iff}
use agents_ensemble.Base.StringMap.{keys}
use agents_ensemble.Permission.Handle.{PermissionBrokerOptions, handler_of}
use agents_ensemble.Permission.Handle.Laws.{handler_of-denied, handler_of-undenied}
use agents_ensemble.Permission.Service.Drain.{drain, drain_settles}
use agents_ensemble.Base.{
  is_empty, refl, inl, inr, false≢true, ◌≡◌, ◌↔◌, true, none, some, List, [], ◌∷◌,
}
use agents_ensemble.Permission.Policy.{
  normalize_tool_name, PermissionOption, PermissionRequest, PermissionPolicyRules, allow, deny,
  evaluate_permission_policy,
}
use agents_ensemble.Permission.Policy.Laws.{IsListedIn, IsGranted, evaluate_permission_policy_iff}
use agents_ensemble.Permission.Broker.{
  allow_once, deny_request, to_allow, to_deny, select_permission_option_id,
}
use agents_ensemble.Permission.Broker.Laws.{IsSelection, select_permission_option_id-IsSelection}
use agents_ensemble.Permission.Inbox.Idle.{
  empty_inbox, start as inbox_start, asks, fulfills, waits, IsIdleResolved, InboxRun-IsIdleResolved,
}
use agents_ensemble.Permission.Inbox.{
  ConductorInbox, fulfill_permission, wait_for_permissions_idle, request_permission,
}
use agents_ensemble.Permission.Pipeline.{resolve_and_fulfill}
use agents_ensemble.Permission.Service.{PermissionService, notify}
use agents_ensemble.Permission.Service.Laws.{IsTracked}
use agents_ensemble.Permission.Service.Run.{
  empty_service, start as service_start, request, process, resolve, Run-IsTracked,
}

abbrev plain : String → String
plain s = s

abbrev two_options : List PermissionOption
two_options =
    record { option_id = "1"; kind = "allow_always"; name = none }
    ∷ record { option_id = "2"; kind = "reject_once"; name = none }
    ∷ []

abbrev shell_request : PermissionRequest
shell_request = record { session_id = none; tool_name = "shell"; options = some two_options }

abbrev careful_rules : PermissionPolicyRules
careful_rules = record {
  allow_tools = some ("grep" ∷ []);
  deny_tools = some ("delete" ∷ []);
  allow_read_only_tools = none;
}

evaluate_permission_policy_iff_example :
    ((evaluate_permission_policy plain plain shell_request careful_rules ≡ deny)
      ↔ IsListedIn plain plain "shell" (some ("delete" ∷ [])))
    × ((evaluate_permission_policy plain plain shell_request careful_rules ≡ allow) ↔ (
        (¬ IsListedIn plain plain "shell" (some ("delete" ∷ [])))
        × IsGranted plain plain "shell" (some ("grep" ∷ [])) none))
evaluate_permission_policy_iff_example =
    evaluate_permission_policy_iff plain plain shell_request careful_rules

select_permission_option_id-IsSelection_example :
    IsSelection two_options "allow_once" "allow_always"
      (select_permission_option_id (some two_options) to_allow)
    × IsSelection two_options "reject_once" "reject_always"
        (select_permission_option_id (some two_options) to_deny)
select_permission_option_id-IsSelection_example =
    select_permission_option_id-IsSelection (some two_options)

abbrev with_request : PermissionService
with_request = record empty_service {
  inbox = request_permission "r1" "w1" shell_request empty_service.inbox;
}

abbrev waiting_service : PermissionService
waiting_service = notify plain plain careful_rules 7 with_request

Run-IsTracked_example :
    IsTracked
      (resolve_and_fulfill "r1" true waiting_service.pending waiting_service.inbox).1
      (resolve_and_fulfill "r1" true waiting_service.pending waiting_service.inbox).0
Run-IsTracked_example =
    Run-IsTracked plain plain careful_rules
      (resolve "r1" true (process 7 (request "r1" "w1" shell_request tt service_start)))

drain_settles_example :
    let done = drain plain plain careful_rules (7 ∷ []) with_request in
    (done.inbox.notify_chain ≡ []) × (keys done.inbox.permission_waiters ≡ keys done.pending)
unfolding request_permission
drain_settles_example =
    drain_settles plain plain careful_rules (7 ∷ [])
      (request "r1" "w1" shell_request tt service_start) refl

abbrev trusting : PermissionBrokerOptions
trusting = record { policy = some careful_rules; on_ask = none; session_label = none }

abbrev delete_request : PermissionRequest
delete_request = record { session_id = none; tool_name = "delete"; options = some two_options }

handler_of-denied_example :
    handler_of plain plain trusting none delete_request ≡ deny_request (some two_options)
unfolding normalize_tool_name
handler_of-denied_example = handler_of-denied plain plain trusting none delete_request (inl refl)

shell_is_not_denied : ¬ IsListedIn plain plain "shell" (some ("delete" ∷ []))
unfolding normalize_tool_name
shell_is_not_denied (inl e) = false≢true ((eq_iff "delete" "shell").1 e)
shell_is_not_denied (inr never) = never

handler_of-undenied_example :
    handler_of plain plain trusting none shell_request ≡ allow_once (some two_options)
handler_of-undenied_example =
    handler_of-undenied plain plain trusting none shell_request refl shell_is_not_denied

abbrev idle_inbox : ConductorInbox
idle_inbox =
    fulfill_permission "r1" "1"
      (wait_for_permissions_idle 0 (request_permission "r1" "w1" shell_request empty_inbox)).0

idle_inbox_is_idle : is_empty idle_inbox.permission_waiters ≡ true
unfolding fulfill_permission agents_ensemble.Base.StringMap.lookup wait_for_permissions_idle
    request_permission agents_ensemble.Base.StringMap.insert agents_ensemble.Base.StringMap.remove
idle_inbox_is_idle = refl

InboxRun-IsIdleResolved_example : IsIdleResolved (0 ∷ []) idle_inbox
unfolding wait_for_permissions_idle request_permission agents_ensemble.Base.StringMap.insert
InboxRun-IsIdleResolved_example =
    InboxRun-IsIdleResolved (fulfills "r1" "1" (waits 0 (asks "r1" "w1" shell_request inbox_start)))
