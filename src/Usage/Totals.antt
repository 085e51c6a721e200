-- ===== src/Usage/Totals.antt =====
-- The sums of session-usage-tracker.ts. `cacheHitRate` is its numerator and its denominator.
use agents_ensemble.Base.{
  ℕ, ◌+◌, ltb, Bool, true, false, ◌&&◌, ◌||◌, not, Option, none, some, List, [], ◌∷◌, filter,
  is_empty, is_some, length, get_or_else, if◌then◌else◌,
}
use agents_ensemble.Usage.Rounds.{LlmTokenCounts, LlmUsageRecord, SessionUsageRound}

-- The variables of the loop of `sumUsageRecords`.
pub record Sums : Type 0 where
  pub input_tokens : ℕ
  pub output_tokens : ℕ
  pub total_tokens : ℕ
  pub reasoning_tokens : ℕ
  pub cache_read_tokens : ℕ
  pub cache_write_tokens : ℕ
  pub has_reasoning : Bool
  pub has_cache_read : Bool
  pub has_cache_write : Bool

unfoldable pub no_sums : Sums
no_sums = record {
  input_tokens = 0;
  output_tokens = 0;
  total_tokens = 0;
  reasoning_tokens = 0;
  cache_read_tokens = 0;
  cache_write_tokens = 0;
  has_reasoning = false;
  has_cache_read = false;
  has_cache_write = false;
}

unfoldable pub add_record : Sums → LlmTokenCounts → Sums
add_record sums counts = record {
  input_tokens = sums.input_tokens + counts.input_tokens;
  output_tokens = sums.output_tokens + counts.output_tokens;
  total_tokens = sums.total_tokens + counts.total_tokens;
  reasoning_tokens = sums.reasoning_tokens + get_or_else counts.reasoning_tokens 0;
  cache_read_tokens = sums.cache_read_tokens + get_or_else counts.cache_read_tokens 0;
  cache_write_tokens = sums.cache_write_tokens + get_or_else counts.cache_write_tokens 0;
  has_reasoning = sums.has_reasoning || is_some counts.reasoning_tokens;
  has_cache_read = sums.has_cache_read || is_some counts.cache_read_tokens;
  has_cache_write = sums.has_cache_write || is_some counts.cache_write_tokens;
}

unfoldable pub sum_loop : Sums → List LlmUsageRecord → Sums
unfolding add_record
sum_loop sums [] = sums
sum_loop sums (r ∷ rs) = sum_loop (add_record sums r.counts) rs

abbrev pub given : Bool → ℕ → Option ℕ
given true n = some n
given false n = none

unfoldable pub sum_usage_records : List LlmUsageRecord → Option LlmTokenCounts
unfolding sum_loop no_sums
sum_usage_records [] = none
sum_usage_records (r ∷ rs) =
    let sums = sum_loop no_sums (r ∷ rs) in
    some (record {
      input_tokens = sums.input_tokens;
      output_tokens = sums.output_tokens;
      total_tokens = sums.total_tokens;
      reasoning_tokens = given sums.has_reasoning sums.reasoning_tokens;
      cache_read_tokens = given sums.has_cache_read sums.cache_read_tokens;
      cache_write_tokens = given sums.has_cache_write sums.cache_write_tokens;
    })

abbrev pub has_usage : SessionUsageRound → Bool
has_usage round = is_some round.usage

abbrev add_usage : Option LlmUsageRecord → List LlmUsageRecord → List LlmUsageRecord
add_usage none records = records
add_usage (some usage) records = usage ∷ records

-- The usages of the rounds that have one.
abbrev pub usages : List SessionUsageRound → List LlmUsageRecord
usages [] = []
usages (round ∷ rounds) = add_usage round.usage (usages rounds)

pub record SessionUsageAgentTotals : Type 0 where
  pub rounds : ℕ
  pub rounds_with_usage : ℕ
  pub tokens : Option LlmTokenCounts

unfoldable pub summarize_agent : List SessionUsageRound → SessionUsageAgentTotals
summarize_agent rounds = record {
  rounds = length rounds;
  rounds_with_usage = length (filter has_usage rounds);
  tokens = sum_usage_records (usages rounds);
}

abbrev input_of : Option LlmUsageRecord → ℕ
input_of none = 0
input_of (some usage) = usage.counts.input_tokens

unfoldable pub sum_input_tokens : List SessionUsageRound → ℕ
sum_input_tokens [] = 0
sum_input_tokens (round ∷ rounds) = input_of round.usage + sum_input_tokens rounds

pub record SessionUsageCacheStats : Type 0 where
  pub cache_hit_rate : Option (ℕ × ℕ)
  pub cache_read_tokens : Option ℕ
  pub cache_write_tokens : Option ℕ

abbrev sum_of : (LlmUsageRecord → ℕ) → List LlmUsageRecord → ℕ
sum_of f [] = 0
sum_of f (r ∷ rs) = f r + sum_of f rs

unfoldable pub summarize_cache_stats : List SessionUsageRound → Option SessionUsageCacheStats
summarize_cache_stats rounds =
    let with_read = filter (λ r. is_some r.counts.cache_read_tokens) (usages rounds) in
    let with_write = filter (λ r. is_some r.counts.cache_write_tokens) (usages rounds) in
    let read = sum_of (λ r. get_or_else r.counts.cache_read_tokens 0) with_read in
    let write = sum_of (λ r. get_or_else r.counts.cache_write_tokens 0) with_write in
    let denominator = sum_of (λ r. r.counts.input_tokens) with_read + read in
    if is_empty with_read && is_empty with_write
    then none
    else some (record {
      cache_hit_rate =
          if not (is_empty with_read) && ltb 0 denominator then some (read, denominator) else none;
      cache_read_tokens = given (not (is_empty with_read)) read;
      cache_write_tokens = given (not (is_empty with_write)) write;
    })
