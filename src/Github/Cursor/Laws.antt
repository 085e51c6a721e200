-- ===== src/Github/Cursor/Laws.antt =====
-- What the normalisation of a stored cursor does.
use Prim.Native.String.{String}
use mathlib.Core.Path.{ap₂}
use agents_ensemble.Base.{
  ◌≡◌, refl, ap, Bool, true, false, Option, none, some, List, [], ◌∷◌, any, get_or_else, arith,
}
use agents_ensemble.Github.Cursor.{
  GithubCiAggregateState, PullRequestMonitorCursor, GithubMonitorCursor, normalize_aggregate_states,
  map_option, only_true, normalize_pull_request_monitor_cursor, map_entries, only_filled,
  normalize_given, normalize_github_monitor_cursor, is_filled, is_true, is_started,
  is_empty_github_monitor_cursor,
}

states_twice :
    (states : List (String × GithubCiAggregateState))
    → normalize_aggregate_states (normalize_aggregate_states states)
      ≡ normalize_aggregate_states states
unfolding normalize_aggregate_states
states_twice [] = refl
states_twice (e ∷ states) = ground (arith, states_twice states)

map_states_twice :
    (states : Option (List (String × GithubCiAggregateState)))
    → map_option normalize_aggregate_states (map_option normalize_aggregate_states states)
      ≡ map_option normalize_aggregate_states states
map_states_twice none = refl
map_states_twice (some states) = ap some (states_twice states)

only_true_twice : (b : Option Bool) → only_true (only_true b) ≡ only_true b
only_true_twice none = refl
only_true_twice (some true) = refl
only_true_twice (some false) = refl

pull_request_twice :
    (pr : PullRequestMonitorCursor)
    → normalize_pull_request_monitor_cursor (normalize_pull_request_monitor_cursor pr)
      ≡ normalize_pull_request_monitor_cursor pr
unfolding normalize_pull_request_monitor_cursor
pull_request_twice pr =
    ap₂
      (λ states pending. record {
        last_review_id = pr.last_review_id;
        last_review_comment_id = pr.last_review_comment_id;
        last_aggregate_by_sha = states;
        deprecated_fields = [];
        ci_bootstrap_pending = pending;
      })
      (map_states_twice pr.last_aggregate_by_sha) (only_true_twice pr.ci_bootstrap_pending)

map_entries_twice :
    (f : PullRequestMonitorCursor → PullRequestMonitorCursor)
    (entries : List (String × PullRequestMonitorCursor))
    → ((pr : PullRequestMonitorCursor) → f (f pr) ≡ f pr)
    → map_entries f (map_entries f entries) ≡ map_entries f entries
unfolding map_entries
map_entries_twice f [] h = refl
map_entries_twice f ((key, pr) ∷ entries) h =
    ap₂ (λ q rest. (key, q) ∷ rest) (h pr) (map_entries_twice f entries h)

only_filled_twice {ℓ} :
    {A : Type ℓ} (items : Option (List A)) → only_filled (only_filled items) ≡ only_filled items
only_filled_twice none = refl
only_filled_twice (some []) = refl
only_filled_twice (some (a ∷ rest)) = refl

-- The normalisation of what was normalised changes nothing.
pub normalize_given_twice :
    (cursor : GithubMonitorCursor)
    → normalize_given (normalize_given cursor) ≡ normalize_given cursor
unfolding normalize_given
normalize_given_twice cursor =
    ap₂
      (λ prs updates. record {
        last_issue_comment_id = cursor.last_issue_comment_id;
        pull_requests = some prs;
        explicit_pull_requests = some (get_or_else cursor.explicit_pull_requests []);
        pending_updates = updates;
      })
      (map_entries_twice normalize_pull_request_monitor_cursor (get_or_else cursor.pull_requests [])
        pull_request_twice)
      (only_filled_twice cursor.pending_updates)

-- The states that are left are not more.
is_filled_states :
    (states : Option (List (String × GithubCiAggregateState)))
    → is_filled states ≡ false
    → is_filled (map_option normalize_aggregate_states states) ≡ false
unfolding normalize_aggregate_states
is_filled_states none e = refl
is_filled_states (some []) e = refl
is_filled_states (some (s ∷ states)) e = ground arith

is_true_only : (b : Option Bool) → is_true (only_true b) ≡ is_true b
is_true_only none = refl
is_true_only (some true) = refl
is_true_only (some false) = refl

pull_request-is_started :
    (pr : PullRequestMonitorCursor)
    → is_started pr ≡ false
    → is_started (normalize_pull_request_monitor_cursor pr) ≡ false
unfolding normalize_pull_request_monitor_cursor is_started
pull_request-is_started pr e = ground (
  arith,
  is_filled_states pr.last_aggregate_by_sha (ground arith),
  is_true_only pr.ci_bootstrap_pending,
)

any_started :
    (entries : List (String × PullRequestMonitorCursor))
    → any (λ e. is_started e.1) entries ≡ false
    → any (λ e. is_started e.1) (map_entries normalize_pull_request_monitor_cursor entries) ≡ false
unfolding map_entries
any_started [] e = refl
any_started ((key, pr) ∷ entries) e =
    ground (arith, pull_request-is_started pr (ground arith), any_started entries (ground arith))

only_filled-is_filled {ℓ} :
    {A : Type ℓ} (items : Option (List A)) → is_filled (only_filled items) ≡ is_filled items
only_filled-is_filled none = refl
only_filled-is_filled (some []) = refl
only_filled-is_filled (some (a ∷ rest)) = refl

normalize_given-is_empty :
    (cursor : GithubMonitorCursor)
    → is_empty_github_monitor_cursor cursor ≡ true
    → is_empty_github_monitor_cursor (normalize_given cursor) ≡ true
unfolding normalize_given is_empty_github_monitor_cursor
normalize_given-is_empty cursor e = ground (
  arith,
  only_filled-is_filled cursor.pending_updates,
  any_started (get_or_else cursor.pull_requests []) (ground arith),
)

-- A cursor that knows of nothing stays one when it is normalised, so that the first poll of its session
-- still only sets the cursor.
pub normalize_github_monitor_cursor-is_empty :
    (cursor : GithubMonitorCursor)
    → is_empty_github_monitor_cursor cursor ≡ true
    → is_empty_github_monitor_cursor (normalize_github_monitor_cursor (some cursor)) ≡ true
unfolding normalize_github_monitor_cursor
normalize_github_monitor_cursor-is_empty cursor e = normalize_given-is_empty cursor e
