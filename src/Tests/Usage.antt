-- ===== src/Tests/Usage.antt =====
-- The totals of a session with two workers.
use agents_ensemble.Base.{◌≡◌, refl, false, none, some, [], ◌∷◌, All}
use agents_ensemble.Usage.Rounds.{
  LlmTokenCounts, SessionUsageTracker, new_tracker, record_conductor_round, record_worker_round,
}
use agents_ensemble.Usage.Totals.{SessionUsageAgentTotals}
use agents_ensemble.Usage.Summary.{get_session_summary, worker_names, names_from}
use agents_ensemble.Usage.Names.{IsNamed}
use agents_ensemble.Usage.Split.{IsSplit, tokens_of, get_session_summary-IsSplit}

abbrev three_tokens : LlmTokenCounts
three_tokens = record {
  input_tokens = 2;
  output_tokens = 1;
  total_tokens = 3;
  reasoning_tokens = none;
  cache_read_tokens = none;
  cache_write_tokens = none;
}

abbrev measured : SessionUsageTracker
measured =
    let a =
      record_conductor_round "r1" "finished" (some three_tokens) none 1 0
        (new_tracker none false) in
    let b =
      record_worker_round (λ s. 8) "tester" "dev" none "test it" "done" "end_turn" none 2 a.0 a.1 in
    (record_worker_round (λ s. 8) "coder" "dev" none "write it" "done" "end_turn" none 3 b.0 b.1).1

measured-All-IsNamed : All IsNamed measured.rounds
unfolding record_worker_round record_conductor_round new_tracker
measured-All-IsNamed = (tt, (refl, (refl, tt)))

two_workers : worker_names measured.rounds ≡ "tester" ∷ "coder" ∷ []
unfolding record_worker_round record_conductor_round new_tracker worker_names
    agents_ensemble.Usage.Summary.add_to_set
two_workers = refl

get_session_summary-IsSplit_example :
    IsSplit (get_session_summary (λ a b. 0) measured) SessionUsageAgentTotals.rounds
    × IsSplit (get_session_summary (λ a b. 0) measured) SessionUsageAgentTotals.rounds_with_usage
    × IsSplit
        (get_session_summary (λ a b. 0) measured)
        (λ a. tokens_of LlmTokenCounts.input_tokens a.tokens)
    × IsSplit
        (get_session_summary (λ a b. 0) measured)
        (λ a. tokens_of LlmTokenCounts.output_tokens a.tokens)
    × IsSplit
        (get_session_summary (λ a b. 0) measured)
        (λ a. tokens_of LlmTokenCounts.total_tokens a.tokens)
get_session_summary-IsSplit_example =
    get_session_summary-IsSplit (λ a b. 0) measured measured-All-IsNamed
