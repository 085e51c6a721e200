-- ===== src/Permission/Broker.antt =====
-- packages/core/src/permission/permission-broker.ts, `allowOnce` and `deny`: the answer to a request
-- in the terms of the options that the worker's backend offers. A decision is the `optionId` of its
-- outcome `selected`.
pub mod Laws
use Prim.Native.String.{String}
use text.Mathlib.Text.{◌==◌ as str_eq}
use agents_ensemble.Base.{Bool, true, false, Option, none, some, List, [], ◌∷◌, find, if◌then◌else◌}
use agents_ensemble.Permission.Policy.{PermissionOption}

pub data Intent : Type 0 where
  to_allow to_deny : Intent

-- acp/types.ts
abbrev pub default_permission_decision : String
default_permission_decision = "allow-once"

unfoldable pub preferred_kinds : Intent → List String
preferred_kinds to_allow = "allow_once" ∷ "allow_always" ∷ []
preferred_kinds to_deny = "reject_once" ∷ "reject_always" ∷ []

-- `request?.options?.find(…)`
unfoldable pub find_of_kind : String → Option (List PermissionOption) → Option PermissionOption
find_of_kind kind none = none
find_of_kind kind (some options) = find (λ candidate. str_eq candidate.kind kind) options

-- `if (option) return option.optionId`, and the rest of the loop.
abbrev id_or : Option PermissionOption → Option String → Option String
id_or none rest = rest
id_or (some option) rest = some option.option_id

-- The loop over the kinds.
select_of_kinds : List String → Option (List PermissionOption) → Option String
select_of_kinds [] options = none
select_of_kinds (kind ∷ kinds) options =
    id_or (find_of_kind kind options) (select_of_kinds kinds options)

unfoldable pub select_permission_option_id : Option (List PermissionOption) → Intent → Option String
unfolding select_of_kinds preferred_kinds
select_permission_option_id options intent = select_of_kinds (preferred_kinds intent) options

-- The value of `optionId` where it is truthy.
unfoldable pub selected_or : String → Option String → String
selected_or fallback none = fallback
selected_or fallback (some option_id) = if str_eq option_id "" then fallback else option_id

unfoldable pub allow_once : Option (List PermissionOption) → String
unfolding selected_or select_permission_option_id
allow_once options =
    selected_or default_permission_decision (select_permission_option_id options to_allow)

unfoldable pub deny_request : Option (List PermissionOption) → String
unfolding selected_or select_permission_option_id
deny_request options = selected_or "deny" (select_permission_option_id options to_deny)
