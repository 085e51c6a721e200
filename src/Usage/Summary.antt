-- ===== src/Usage/Summary.antt =====
-- The queries of session-usage-tracker.ts. The object with the workers' totals is a list of its
-- entries, in the order in which the workers came first.
use Prim.Native.String.{String}
use text.Mathlib.Text.{◌==◌ as str_eq}
use agents_ensemble.Base.{
  ℕ, suc, min, Bool, true, false, ◌&&◌, not, Option, none, some, List, [], ◌∷◌, ◌++◌, any, filter,
  length, is_some, if◌then◌else◌,
}
use agents_ensemble.Base.Int.{ℤ, pos}
use agents_ensemble.Usage.Rounds.{
  SessionUsageAgentKind, conductor, worker, SessionUsageRound, SessionUsageTracker,
}
use agents_ensemble.Usage.Totals.{
  has_usage, usages, sum_usage_records, SessionUsageAgentTotals, summarize_agent, sum_input_tokens,
  SessionUsageCacheStats, summarize_cache_stats,
}

abbrev pub is_conductor : SessionUsageAgentKind → Bool
is_conductor conductor = true
is_conductor worker = false

abbrev pub is_name : String → Option String → Bool
is_name name none = false
is_name name (some n) = str_eq n name

-- A round of the worker with the name.
abbrev pub is_round_of : String → SessionUsageRound → Bool
is_round_of name round = not (is_conductor round.agent_kind) && is_name name round.agent_name

-- The name of the worker of a round, if it has one that is not empty.
abbrev pub name_of : SessionUsageAgentKind → Option String → List String
name_of worker (some name) = if str_eq name "" then [] else name ∷ []
name_of _ _ = []

-- `new Set`, whose elements are in the order in which they were added first.
unfoldable pub add_to_set : String → List String → List String
add_to_set name names = if any (λ n. str_eq n name) names then names else names ++ name ∷ []

abbrev pub add_each : List String → List String → List String
add_each [] names = names
add_each (name ∷ rest) names = add_each rest (add_to_set name names)

unfoldable pub names_from : List SessionUsageRound → List String → List String
names_from [] names = names
names_from (round ∷ rounds) names =
    names_from rounds (add_each (name_of round.agent_kind round.agent_name) names)

unfoldable pub worker_names : List SessionUsageRound → List String
unfolding names_from
worker_names rounds = names_from rounds []

unfoldable pub find_last :
    (SessionUsageRound → Bool) → List SessionUsageRound → Option SessionUsageRound
find_last p [] = none
find_last p (round ∷ rounds) =
    let rest = find_last p rounds in
    if is_some rest then rest else if p round then some round else none

-- Without a name, or with the empty one, the last round of all.
unfoldable pub get_latest_round : Option String → SessionUsageTracker → Option SessionUsageRound
unfolding find_last
get_latest_round none t = find_last (λ _. true) t.rounds
get_latest_round (some agent) t =
    if str_eq agent ""
    then find_last (λ _. true) t.rounds
    else if str_eq agent "conductor"
    then find_last (λ round. is_conductor round.agent_kind) t.rounds
    else find_last (is_round_of agent) t.rounds

abbrev pub conductor_rounds : List SessionUsageRound → List SessionUsageRound
conductor_rounds rounds = filter (λ round. is_conductor round.agent_kind) rounds

-- The entries of the object `workers`, in the order of the names; a name that an object takes for its
-- own, `__proto__`, is not left out here.
unfoldable pub worker_totals :
    List SessionUsageRound → List String → List (String × SessionUsageAgentTotals)
unfolding summarize_agent
worker_totals rounds [] = []
worker_totals rounds (name ∷ names) =
    (name, summarize_agent (filter (is_round_of name) rounds)) ∷ worker_totals rounds names

unfoldable pub worker_cache_stats :
    List SessionUsageRound → List String → List (String × Option SessionUsageCacheStats)
unfolding summarize_cache_stats
worker_cache_stats rounds [] = []
worker_cache_stats rounds (name ∷ names) =
    (name, summarize_cache_stats (filter (is_round_of name) rounds))
    ∷ worker_cache_stats rounds names

pub record SessionUsageCacheSummary : Type 0 where
  pub totals : SessionUsageCacheStats
  pub conductor : Option SessionUsageCacheStats
  pub workers : List (String × Option SessionUsageCacheStats)

cache_summary :
    List SessionUsageRound
    → List String
    → Option SessionUsageCacheStats
    → Option SessionUsageCacheSummary
unfolding worker_cache_stats
cache_summary rounds names none = none
cache_summary rounds names (some totals) = some (record {
  totals = totals;
  conductor = summarize_cache_stats (conductor_rounds rounds);
  workers = worker_cache_stats rounds names;
})

unfoldable pub build_cache_summary :
    List SessionUsageRound → List String → Option SessionUsageCacheSummary
unfolding cache_summary
build_cache_summary rounds names = cache_summary rounds names (summarize_cache_stats rounds)

pub record SessionContextUtilization : Type 0 where
  pub limit : Option ℕ
  pub used_input_tokens : ℕ
  pub percent : Option ℕ

utilization : (ℕ → ℕ → ℕ) → Option ℤ → ℕ → SessionContextUtilization
utilization rounded_percent (some (pos (suc n))) used = record {
  limit = some (suc n);
  used_input_tokens = used;
  percent = some (min 100 (rounded_percent used (suc n)));
}
utilization rounded_percent _ used = record {
  limit = none;
  used_input_tokens = used;
  percent = none;
}

pub record SessionUsageSummary : Type 0 where
  pub totals : SessionUsageAgentTotals
  pub conductor : SessionUsageAgentTotals
  pub workers : List (String × SessionUsageAgentTotals)
  pub context : SessionContextUtilization
  pub latest_round : Option SessionUsageRound
  pub cache_stats : Option SessionUsageCacheSummary
  pub compaction_count : Option ℕ

-- `rounded_percent used limit` is `Math.round((used / limit) * 100)` in floating point.
module _ (rounded_percent : ℕ → ℕ → ℕ) where
  unfoldable pub build_context_utilization : SessionUsageTracker → SessionContextUtilization
  unfolding utilization sum_input_tokens
  build_context_utilization t =
      utilization rounded_percent t.context_limit_tokens (sum_input_tokens t.rounds)

  unfoldable pub get_session_summary : SessionUsageTracker → SessionUsageSummary
  unfolding worker_names summarize_agent worker_totals build_context_utilization get_latest_round
      build_cache_summary
  get_session_summary t =
      let names = worker_names t.rounds in
      record {
        totals = record {
          rounds = length t.rounds;
          rounds_with_usage = length (filter has_usage t.rounds);
          tokens = sum_usage_records (usages t.rounds);
        };
        conductor = summarize_agent (conductor_rounds t.rounds);
        workers = worker_totals t.rounds names;
        context = build_context_utilization t;
        latest_round = get_latest_round none t;
        cache_stats = build_cache_summary t.rounds names;
        compaction_count = if t.track_compactions then some t.compaction_count else none;
      }
