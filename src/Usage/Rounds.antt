-- ===== src/Usage/Rounds.antt =====
-- packages/core/src/usage/types.ts, estimate-token-usage.ts, and the recording half of
-- session-usage-tracker.ts. `roundCounter`, which all trackers share, is an argument and a result, and
-- so is the time; the number of the round stands for its id.
use Prim.Native.String.{String}
use Prim.Native.Nat.{◌/◌}
use text.Mathlib.Text.{◌==◌ as str_eq}
use agents_ensemble.Base.{
  ℕ, suc, ◌+◌, Bool, Option, none, some, List, [], ◌∷◌, ◌++◌, if◌then◌else◌, get_or_else,
}
use agents_ensemble.Base.Int.{ℤ}
use agents_ensemble.Worker.State.{WorkerPromptSource}

pub record LlmTokenCounts : Type 0 where
  pub input_tokens : ℕ
  pub output_tokens : ℕ
  pub total_tokens : ℕ
  pub reasoning_tokens : Option ℕ
  pub cache_read_tokens : Option ℕ
  pub cache_write_tokens : Option ℕ

pub data LlmUsageSource : Type 0 where
  sdk acp estimated : LlmUsageSource

pub record LlmUsageRecord : Type 0 where
  pub source : LlmUsageSource
  pub counts : LlmTokenCounts

pub data SessionUsageAgentKind : Type 0 where
  conductor worker : SessionUsageAgentKind

pub record SessionUsageRound : Type 0 where
  pub round_id : ℕ
  pub agent_kind : SessionUsageAgentKind
  pub agent_name : Option String
  pub worker_kind : Option String
  pub source : Option WorkerPromptSource
  pub run_id : Option String
  pub model_id : Option String
  pub stop_reason : Option String
  pub usage : Option LlmUsageRecord
  pub recorded_at : ℕ

pub record SessionUsageTracker : Type 0 where
  pub rounds : List SessionUsageRound
  pub context_limit_tokens : Option ℤ
  pub track_compactions : Bool
  pub compaction_count : ℕ

unfoldable pub new_tracker : Option ℤ → Bool → SessionUsageTracker
new_tracker limit track = record {
  rounds = [];
  context_limit_tokens = limit;
  track_compactions = track;
  compaction_count = 0;
}

unfoldable pub record_context_compaction : SessionUsageTracker → SessionUsageTracker
record_context_compaction t =
    if t.track_compactions then record t { compaction_count = suc t.compaction_count } else t

-- The usage of an agent's result; `total_tokens` may be missing in that of a worker.
pub record PromptUsage : Type 0 where
  pub input_tokens : ℕ
  pub output_tokens : ℕ
  pub total_tokens : Option ℕ
  pub reasoning_tokens : Option ℕ
  pub cache_read_tokens : Option ℕ
  pub cache_write_tokens : Option ℕ

unfoldable pub from_conductor_token_usage : LlmTokenCounts → LlmUsageRecord
from_conductor_token_usage usage = record { source = sdk; counts = usage }

unfoldable pub from_acp_usage : PromptUsage → LlmUsageRecord
from_acp_usage usage = record {
  source = acp;
  counts = record {
    input_tokens = usage.input_tokens;
    output_tokens = usage.output_tokens;
    total_tokens = get_or_else usage.total_tokens (usage.input_tokens + usage.output_tokens);
    reasoning_tokens = usage.reasoning_tokens;
    cache_read_tokens = usage.cache_read_tokens;
    cache_write_tokens = usage.cache_write_tokens;
  };
}

abbrev record_round : SessionUsageRound → SessionUsageTracker → SessionUsageTracker
record_round round t = record t { rounds = t.rounds ++ round ∷ [] }

abbrev pub conductor_usage : Option LlmTokenCounts → Option LlmUsageRecord
unfolding from_conductor_token_usage
conductor_usage none = none
conductor_usage (some usage) = some (from_conductor_token_usage usage)

-- The new counter and the tracker.
unfoldable pub record_conductor_round :
    String
    → String
    → Option LlmTokenCounts
    → Option String
    → ℕ
    → ℕ
    → SessionUsageTracker
    → ℕ × SessionUsageTracker
unfolding conductor_usage
record_conductor_round run_id status usage model_id now counter t = (
  suc counter,
  record_round
      (record {
        round_id = suc counter;
        agent_kind = conductor;
        agent_name = none;
        worker_kind = none;
        source = none;
        run_id = some run_id;
        model_id = model_id;
        stop_reason = some status;
        usage = conductor_usage usage;
        recorded_at = now;
      })
      t,
)

-- `byte_length` is `Buffer.byteLength` in UTF-8.
module _ (byte_length : String → ℕ) where
  unfoldable pub estimate_tokens : String → ℕ
  estimate_tokens text = if str_eq text "" then 0 else (byte_length text + 3) / 4

  unfoldable pub estimate_token_usage_from_text : String → String → LlmUsageRecord
  unfolding estimate_tokens
  estimate_token_usage_from_text prompt_text response_text =
      let input = estimate_tokens prompt_text in
      let output = estimate_tokens response_text in
      record {
        source = estimated;
        counts = record {
          input_tokens = input;
          output_tokens = output;
          total_tokens = input + output;
          reasoning_tokens = none;
          cache_read_tokens = none;
          cache_write_tokens = none;
        };
      }

  unfoldable pub worker_usage : String → String → Option PromptUsage → LlmUsageRecord
  unfolding estimate_token_usage_from_text from_acp_usage
  worker_usage prompt response (some usage) = from_acp_usage usage
  worker_usage prompt response none = estimate_token_usage_from_text prompt response

  unfoldable pub record_worker_round :
      String
      → String
      → Option WorkerPromptSource
      → String
      → String
      → String
      → Option PromptUsage
      → ℕ
      → ℕ
      → SessionUsageTracker
      → ℕ × SessionUsageTracker
  unfolding worker_usage
  record_worker_round name kind source prompt response stop_reason usage now counter t = (
    suc counter,
    record_round
        (record {
          round_id = suc counter;
          agent_kind = worker;
          agent_name = some name;
          worker_kind = some kind;
          source = source;
          run_id = none;
          model_id = none;
          stop_reason = some stop_reason;
          usage = some (worker_usage prompt response usage);
          recorded_at = now;
        })
        t,
  )
