-- ===== src/Github/Cursor.antt =====
-- packages/core/src/github/github-monitor-cursor.ts: how far the watch of GitHub has come, as it is
-- stored with a session. Objects are lists of their entries; a stored CI state may be any text, and of
-- the fields that are deprecated the names are kept.
pub mod Laws
pub mod Normal
use Prim.Native.String.{String}
use text.Mathlib.Text.{◌==◌ as str_eq}
use agents_ensemble.Base.{
  ℕ, Bool, true, false, not, ◌&&◌, ◌||◌, Option, none, some, List, [], ◌∷◌, any, filter, is_empty,
  get_or_else, if◌then◌else◌,
}

pub data GithubUpdateKind : Type 0 where
  issue_comment pr_review pr_review_comment ci_completed : GithubUpdateKind

pub data GithubCiAggregateState : Type 0 where
  running failed completed : GithubCiAggregateState
  unknown : String → GithubCiAggregateState

pub record GithubUpdateItem : Type 0 where
  pub id : String
  pub kind : GithubUpdateKind
  pub summary : String
  pub url : Option String
  pub author : Option String
  pub body_preview : Option String
  pub pr_number : Option ℕ
  pub commit_sha : Option String
  pub aggregate_state : Option GithubCiAggregateState
  pub failed_check_names : Option (List String)
  pub check_name : Option String
  pub check_conclusion : Option String

pub record PullRequestMonitorCursor : Type 0 where
  pub last_review_id : Option String
  pub last_review_comment_id : Option String
  pub last_aggregate_by_sha : Option (List (String × GithubCiAggregateState))
  pub deprecated_fields : List String
  pub ci_bootstrap_pending : Option Bool

pub record ExplicitPullRequestWatch : Type 0 where
  pub registered_at : String
  pub kinds : Option (List GithubUpdateKind)

abbrev pub default_github_watch_kinds : List GithubUpdateKind
default_github_watch_kinds = pr_review ∷ pr_review_comment ∷ ci_completed ∷ []

pub record GithubMonitorCursor : Type 0 where
  pub last_issue_comment_id : Option String
  pub pull_requests : Option (List (String × PullRequestMonitorCursor))
  pub explicit_pull_requests : Option (List (String × ExplicitPullRequestWatch))
  pub pending_updates : Option (List GithubUpdateItem)

unfoldable pub empty_github_monitor_cursor : GithubMonitorCursor
empty_github_monitor_cursor = record {
  last_issue_comment_id = none;
  pull_requests = some [];
  explicit_pull_requests = some [];
  pending_updates = none;
}

unfoldable pub is_aggregate_state : GithubCiAggregateState → Bool
is_aggregate_state (unknown text) = false
is_aggregate_state _ = true

unfoldable pub normalize_aggregate_states :
    List (String × GithubCiAggregateState) → List (String × GithubCiAggregateState)
unfolding is_aggregate_state
normalize_aggregate_states states =
    filter (λ e. not (str_eq e.0 "") && is_aggregate_state e.1) states

abbrev pub map_option {ℓ κ} : {A : Type ℓ} {B : Type κ} → (A → B) → Option A → Option B
map_option f none = none
map_option f (some a) = some (f a)

-- `pending ? { ciBootstrapPending: true } : {}`
abbrev pub only_true : Option Bool → Option Bool
only_true (some true) = some true
only_true _ = none

unfoldable pub normalize_pull_request_monitor_cursor :
    PullRequestMonitorCursor → PullRequestMonitorCursor
unfolding normalize_aggregate_states
normalize_pull_request_monitor_cursor cursor = record {
  last_review_id = cursor.last_review_id;
  last_review_comment_id = cursor.last_review_comment_id;
  last_aggregate_by_sha = map_option normalize_aggregate_states cursor.last_aggregate_by_sha;
  deprecated_fields = [];
  ci_bootstrap_pending = only_true cursor.ci_bootstrap_pending;
}

unfoldable pub map_entries {ℓ κ} :
    {A : Type ℓ} {B : Type κ} → (A → B) → List (String × A) → List (String × B)
map_entries f [] = []
map_entries f ((key, a) ∷ entries) = (key, f a) ∷ map_entries f entries

-- A list that is there and not empty.
abbrev pub only_filled {ℓ} : {A : Type ℓ} → Option (List A) → Option (List A)
only_filled (some (a ∷ rest)) = some (a ∷ rest)
only_filled _ = none

-- The watches and the updates are copied.
unfoldable pub normalize_given : GithubMonitorCursor → GithubMonitorCursor
unfolding normalize_pull_request_monitor_cursor map_entries
normalize_given cursor = record {
  last_issue_comment_id = cursor.last_issue_comment_id;
  pull_requests =
      some
        (map_entries normalize_pull_request_monitor_cursor (get_or_else cursor.pull_requests []));
  explicit_pull_requests = some (get_or_else cursor.explicit_pull_requests []);
  pending_updates = only_filled cursor.pending_updates;
}

unfoldable pub normalize_github_monitor_cursor : Option GithubMonitorCursor → GithubMonitorCursor
unfolding normalize_given
normalize_github_monitor_cursor none = normalize_given (record {
  last_issue_comment_id = none;
  pull_requests = none;
  explicit_pull_requests = none;
  pending_updates = none;
})
normalize_github_monitor_cursor (some cursor) = normalize_given cursor

-- A text that is there and not empty.
abbrev pub is_text : Option String → Bool
is_text none = false
is_text (some text) = not (str_eq text "")

abbrev pub is_filled {ℓ} : {A : Type ℓ} → Option (List A) → Bool
is_filled none = false
is_filled (some items) = not (is_empty items)

abbrev pub is_true : Option Bool → Bool
is_true (some b) = b
is_true none = false

-- Something is known of the pull request.
unfoldable pub is_started : PullRequestMonitorCursor → Bool
is_started pr =
    is_text pr.last_review_id
    || is_text pr.last_review_comment_id
    || is_filled pr.last_aggregate_by_sha
    || is_true pr.ci_bootstrap_pending

unfoldable pub is_empty_github_monitor_cursor : GithubMonitorCursor → Bool
unfolding is_started
is_empty_github_monitor_cursor cursor =
    if is_text cursor.last_issue_comment_id || is_filled cursor.pending_updates
    then false
    else not (any (λ e. is_started e.1) (get_or_else cursor.pull_requests []))
