-- ===== src/Tests/Github.antt =====
-- Two updates in a row that are handed on together, and stored cursors.
use agents_ensemble.Base.{ℕ, ◌≡◌, refl, none, some, true, false, [], ◌∷◌}
use agents_ensemble.Github.Cursor.{
  running, unknown, GithubMonitorCursor, normalize_github_monitor_cursor,
  is_empty_github_monitor_cursor, is_started,
}
use agents_ensemble.Github.Cursor.Laws.{normalize_github_monitor_cursor-is_empty}
use agents_ensemble.Github.Cursor.Normal.{IsNormalOf, normalize_github_monitor_cursor-IsNormalOf}
use agents_ensemble.Github.Debounce.{
  DebounceBuffer, new_buffer, push, push_many, schedule_flush, timer_flush, flush,
}
use agents_ensemble.Github.Debounce.Laws.{
  BufferRun, begins, pushes, pushes_many, fires, IsKept, BufferRun-IsKept,
}

abbrev two_pushed : DebounceBuffer ℕ
two_pushed = push_many 50 20 (8 ∷ []) (push 50 10 7 new_buffer)

two_run : BufferRun 50 (7 ∷ 8 ∷ []) two_pushed
unfolding new_buffer push
two_run = pushes_many 20 (8 ∷ []) (pushes 10 7 begins)

due_at : two_pushed.timer ≡ some 70
unfolding new_buffer push push_many schedule_flush
due_at = refl

handed_on : (timer_flush two_pushed).flushed ≡ (7 ∷ 8 ∷ []) ∷ []
unfolding new_buffer push push_many schedule_flush timer_flush flush
handed_on = refl

BufferRun-IsKept_example : IsKept 50 (7 ∷ 8 ∷ []) (timer_flush two_pushed)
BufferRun-IsKept_example =
    BufferRun-IsKept 50 (7 ∷ 8 ∷ []) (timer_flush two_pushed) (fires 70 due_at two_run)

-- A cursor with a state that is none, and a field of an older form.
abbrev old_cursor : GithubMonitorCursor
old_cursor = record {
  last_issue_comment_id = some "12";
  pull_requests = some (
      (
        "7",
        record {
          last_review_id = none;
          last_review_comment_id = none;
          last_aggregate_by_sha = some (("ab", running) ∷ ("cd", unknown "green") ∷ []);
          deprecated_fields = "ciChecks" ∷ [];
          ci_bootstrap_pending = some false;
        },
      )
      ∷ []);
  explicit_pull_requests = none;
  pending_updates = some [];
}

-- A cursor of a session that knows of a pull request only that it is there.
abbrev fresh_cursor : GithubMonitorCursor
fresh_cursor = record old_cursor {
  last_issue_comment_id = none;
  pull_requests = some (
      (
        "7",
        record {
          last_review_id = none;
          last_review_comment_id = none;
          last_aggregate_by_sha = some [];
          deprecated_fields = [];
          ci_bootstrap_pending = none;
        },
      )
      ∷ []);
}

normalize_github_monitor_cursor-IsNormalOf_example :
    IsNormalOf old_cursor (normalize_github_monitor_cursor (some old_cursor))
    × (normalize_github_monitor_cursor (some (normalize_github_monitor_cursor (some old_cursor)))
        ≡ normalize_github_monitor_cursor (some old_cursor))
normalize_github_monitor_cursor-IsNormalOf_example =
    normalize_github_monitor_cursor-IsNormalOf old_cursor

fresh_is_empty : is_empty_github_monitor_cursor fresh_cursor ≡ true
unfolding is_empty_github_monitor_cursor is_started
fresh_is_empty = refl

normalize_github_monitor_cursor-is_empty_example :
    is_empty_github_monitor_cursor (normalize_github_monitor_cursor (some fresh_cursor)) ≡ true
normalize_github_monitor_cursor-is_empty_example =
    normalize_github_monitor_cursor-is_empty fresh_cursor fresh_is_empty
