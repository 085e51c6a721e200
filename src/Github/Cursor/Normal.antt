-- ===== src/Github/Cursor/Normal.antt =====
-- What the normalisation of a stored cursor keeps and what it drops.
use Prim.Native.String.{String}
use text.Mathlib.Text.{◌==◌ as str_eq}
use text.Mathlib.TextEquality.{eq_iff}
use agents_ensemble.Base.{
  ◌≡◌, ◌≢◌, ◌⊎◌, inl, inr, refl, Bool, true, false, not, ◌&&◌, Bool-cases, Option, none, some, List,
  [], ◌∷◌, get_or_else, arith,
}
use agents_ensemble.Github.Cursor.{
  GithubCiAggregateState, running, failed, completed, unknown, PullRequestMonitorCursor,
  GithubMonitorCursor, normalize_aggregate_states, is_aggregate_state, map_option, only_true,
  normalize_pull_request_monitor_cursor, map_entries, only_filled, normalize_given,
  normalize_github_monitor_cursor,
}
use agents_ensemble.Github.Cursor.Laws.{normalize_given_twice}

-- A state that the type of the code has.
abbrev pub IsCiState : GithubCiAggregateState → Type 0
IsCiState state = (state ≡ running) ⊎ (state ≡ failed) ⊎ (state ≡ completed)

-- A stored state that the code knows, of a commit that has a name.
abbrev pub IsKnown : String × GithubCiAggregateState → Type 0
IsKnown (sha, state) = (sha ≢ "") × ((state ≡ running) ⊎ (state ≡ failed) ⊎ (state ≡ completed))

-- The second list has the entries of the first that are known, in their order.
pub data KnownOf
    : List (String × GithubCiAggregateState) → List (String × GithubCiAggregateState) → Type 0 where
  no_states : KnownOf [] []
  keeps :
      {stored kept : List (String × GithubCiAggregateState)}
      (entry : String × GithubCiAggregateState)
      → IsKnown entry
      → KnownOf stored kept
      → KnownOf (entry ∷ stored) (entry ∷ kept)
  drops :
      {stored kept : List (String × GithubCiAggregateState)}
      (entry : String × GithubCiAggregateState)
      → ¬ IsKnown entry
      → KnownOf stored kept
      → KnownOf (entry ∷ stored) kept

pub data StatesOf
    : Option (List (String × GithubCiAggregateState))
      → Option (List (String × GithubCiAggregateState))
      → Type 0 where
  no_map : StatesOf none none
  a_map :
      {stored kept : List (String × GithubCiAggregateState)}
      → KnownOf stored kept
      → StatesOf (some stored) (some kept)

-- Nothing is kept of the deprecated fields, and the mark of a missing first look only if it is set.
pub record PullRequestOf (stored kept : PullRequestMonitorCursor) : Type 0 where
  pub review : kept.last_review_id ≡ stored.last_review_id
  pub review_comment : kept.last_review_comment_id ≡ stored.last_review_comment_id
  pub states : StatesOf stored.last_aggregate_by_sha kept.last_aggregate_by_sha
  pub deprecated : kept.deprecated_fields ≡ []
  pub bootstrap :
      ((stored.ci_bootstrap_pending ≡ some true) × (kept.ci_bootstrap_pending ≡ some true))
      ⊎ ((stored.ci_bootstrap_pending ≢ some true) × (kept.ci_bootstrap_pending ≡ none))

pub data EntriesOf
    : List (String × PullRequestMonitorCursor)
      → List (String × PullRequestMonitorCursor)
      → Type 0 where
  no_entries : EntriesOf [] []
  an_entry :
      {stored kept : List (String × PullRequestMonitorCursor)} (number : String)
      (pr q : PullRequestMonitorCursor)
      → PullRequestOf pr q
      → EntriesOf stored kept
      → EntriesOf ((number, pr) ∷ stored) ((number, q) ∷ kept)

pub record IsNormalOf (stored kept : GithubMonitorCursor) : Type 0 where
  pub issue_comment : kept.last_issue_comment_id ≡ stored.last_issue_comment_id
  pub has_pull_requests : kept.pull_requests ≢ none
  pub pull_requests :
      EntriesOf (get_or_else stored.pull_requests []) (get_or_else kept.pull_requests [])
  pub watches : kept.explicit_pull_requests ≡ some (get_or_else stored.explicit_pull_requests [])
  pub updates : get_or_else kept.pending_updates [] ≡ get_or_else stored.pending_updates []
  pub updates_filled : kept.pending_updates ≢ some []

is_aggregate_state-true :
    (state : GithubCiAggregateState) → is_aggregate_state state ≡ true → IsCiState state
unfolding is_aggregate_state
is_aggregate_state-true running e = inl refl
is_aggregate_state-true failed e = inr (inl refl)
is_aggregate_state-true completed e = inr (inr refl)
is_aggregate_state-true (unknown text) e = ground arith

is_aggregate_state-IsCiState :
    (state : GithubCiAggregateState) → IsCiState state → is_aggregate_state state ≡ true
unfolding is_aggregate_state
is_aggregate_state-IsCiState running h = refl
is_aggregate_state-IsCiState failed h = refl
is_aggregate_state-IsCiState completed h = refl
is_aggregate_state-IsCiState (unknown text) (inl e) = cc
is_aggregate_state-IsCiState (unknown text) (inr (inl e)) = cc
is_aggregate_state-IsCiState (unknown text) (inr (inr e)) = cc

normalize_aggregate_states-KnownOf :
    (states : List (String × GithubCiAggregateState))
    → KnownOf states (normalize_aggregate_states states)
unfolding normalize_aggregate_states
normalize_aggregate_states-KnownOf [] = no_states
normalize_aggregate_states-KnownOf ((sha, state) ∷ states) =
    elim (Bool-cases (not (str_eq sha "") && is_aggregate_state state)) [
      | inl e ↦ rw e (
          keeps (sha, state)
            ((λ f. ground (arith, eq_iff sha "")), is_aggregate_state-true state (ground arith))
            (normalize_aggregate_states-KnownOf states))
      | inr e ↦ rw e (
          drops (sha, state)
            (λ (f, h). ground (arith, eq_iff sha "", is_aggregate_state-IsCiState state h))
            (normalize_aggregate_states-KnownOf states))
    ]

normalize_states-StatesOf :
    (states : Option (List (String × GithubCiAggregateState)))
    → StatesOf states (map_option normalize_aggregate_states states)
normalize_states-StatesOf none = no_map
normalize_states-StatesOf (some states) = a_map (normalize_aggregate_states-KnownOf states)

only_true-cases :
    (pending : Option Bool)
    → ((pending ≡ some true) × (only_true pending ≡ some true))
      ⊎ ((pending ≢ some true) × (only_true pending ≡ none))
only_true-cases none = inr ((λ e. cc), refl)
only_true-cases (some true) = inl (refl, refl)
only_true-cases (some false) = inr ((λ e. cc), refl)

normalize_entries-EntriesOf :
    (entries : List (String × PullRequestMonitorCursor))
    → EntriesOf entries (map_entries normalize_pull_request_monitor_cursor entries)
unfolding map_entries normalize_pull_request_monitor_cursor
normalize_entries-EntriesOf [] = no_entries
normalize_entries-EntriesOf ((number, pr) ∷ entries) =
    an_entry number pr _
      (record {
        review = refl;
        review_comment = refl;
        states = normalize_states-StatesOf pr.last_aggregate_by_sha;
        deprecated = refl;
        bootstrap = only_true-cases pr.ci_bootstrap_pending;
      })
      (normalize_entries-EntriesOf entries)

only_filled-items {ℓ} :
    {A : Type ℓ} (items : Option (List A))
    → (get_or_else (only_filled items) [] ≡ get_or_else items []) × (only_filled items ≢ some [])
only_filled-items none = (refl, λ e. cc)
only_filled-items (some []) = (refl, λ e. cc)
only_filled-items (some (a ∷ rest)) = (refl, λ e. cc)

-- The normalisation keeps of a stored cursor the comment, the reviews, the watches and the updates,
-- and every pull request in its order, of its CI states exactly those that are known, the mark of
-- a missing first look only where it is set, and nothing of the deprecated fields; and to normalise it again, as a resumed session does with what it has stored,
-- changes nothing.
pub normalize_github_monitor_cursor-IsNormalOf :
    (cursor : GithubMonitorCursor)
    → IsNormalOf cursor (normalize_github_monitor_cursor (some cursor))
      × (normalize_github_monitor_cursor (some (normalize_github_monitor_cursor (some cursor)))
          ≡ normalize_github_monitor_cursor (some cursor))
unfolding normalize_github_monitor_cursor normalize_given
normalize_github_monitor_cursor-IsNormalOf cursor =
    let updates = only_filled-items cursor.pending_updates in
    (
      record {
        issue_comment = refl;
        has_pull_requests = λ e. cc;
        pull_requests = normalize_entries-EntriesOf (get_or_else cursor.pull_requests []);
        watches = refl;
        updates = updates.0;
        updates_filled = updates.1;
      },
      normalize_given_twice cursor,
    )
