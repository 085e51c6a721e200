-- ===== src/Usage/Split.antt =====
-- How the totals of a session split over the agents.
use Prim.Native.String.{String}
use text.Mathlib.Text.{◌==◌ as str_eq}
use text.Mathlib.TextEquality.{eq_iff}
use mathlib.Core.Path.{subst, ap₂}
use agents_ensemble.Base.{
  ℕ, ◌+◌, ◌≡◌, refl, sym, ◌∙◌, Bool, false, Bool-cases, inl, inr, ◌&&◌, not, Option, none, some,
  List, [], ◌∷◌, All, filter, length, if◌then◌else◌, arith,
}
use agents_ensemble.Base.StringMap.{IsAbsent, IsUnique}
use agents_ensemble.Usage.Rounds.{
  LlmTokenCounts, LlmUsageRecord, SessionUsageAgentKind, conductor, worker, SessionUsageRound,
  SessionUsageTracker,
}
use agents_ensemble.Usage.Totals.{
  Sums, no_sums, add_record, sum_loop, sum_usage_records, has_usage, usages,
  SessionUsageAgentTotals, summarize_agent,
}
use agents_ensemble.Usage.Summary.{
  is_conductor, is_name, is_round_of, names_from, worker_names, conductor_rounds, worker_totals,
  SessionUsageSummary, get_session_summary,
}
use agents_ensemble.Usage.Names.{IsNamed, IsIn, HasListed, names_from-IsUnique, names_from-All}

abbrev sum_by : (SessionUsageRound → ℕ) → List SessionUsageRound → ℕ
sum_by f [] = 0
sum_by f (round ∷ rounds) = f round + sum_by f rounds

-- The sum over the rounds of each worker of a list, one after the other.
abbrev sum_workers : (SessionUsageRound → ℕ) → List SessionUsageRound → List String → ℕ
sum_workers f rounds [] = 0
sum_workers f rounds (name ∷ names) =
    sum_by f (filter (is_round_of name) rounds) + sum_workers f rounds names

-- How often a round counts.
abbrev hits : (String → Bool) → ℕ → List String → ℕ
hits p n [] = 0
hits p n (name ∷ names) = (if p name then n else 0) + hits p n names

sum_by-filter_cons :
    (f : SessionUsageRound → ℕ) (p : SessionUsageRound → Bool) (round : SessionUsageRound)
    (rounds : List SessionUsageRound)
    → sum_by f (filter p (round ∷ rounds))
      ≡ (if p round then f round else 0) + sum_by f (filter p rounds)
sum_by-filter_cons f p round rounds = ground arith

sum_workers-cons :
    (f : SessionUsageRound → ℕ) (round : SessionUsageRound) (rounds : List SessionUsageRound)
    (names : List String)
    → sum_workers f (round ∷ rounds) names
      ≡ hits (λ name. is_round_of name round) (f round) names + sum_workers f rounds names
sum_workers-cons f round rounds [] = refl
sum_workers-cons f round rounds (name ∷ names) = omega (
  arith,
  sum_by-filter_cons f (is_round_of name) round rounds,
  sum_workers-cons f round rounds names,
)

hits_never : (n : ℕ) (names : List String) → hits (λ _. false) n names ≡ 0
hits_never n [] = refl
hits_never n (name ∷ names) = omega (arith, hits_never n names)

hits-IsAbsent :
    (name : String) (n : ℕ) (names : List String)
    → IsAbsent name names
    → hits (str_eq name) n names ≡ 0
hits-IsAbsent name n [] h = refl
hits-IsAbsent name n (m ∷ names) (h, hs) =
    ground (arith, eq_iff name m, hits-IsAbsent name n names hs)

hits_once :
    (name : String) (n : ℕ) (names : List String)
    → IsUnique names
    → IsIn name names
    → hits (str_eq name) n names ≡ n
hits_once name n [] u h = ground arith
hits_once name n (m ∷ names) (a, u) h = elim (Bool-cases (str_eq name m)) [
  | inl e ↦
      let same : m ≡ name = sym ((eq_iff name m).0 e) in
      rw e (omega (arith, hits-IsAbsent name n names (subst (λ k. IsAbsent k names) same a)))
  | inr e ↦ rw e (omega (arith, hits_once name n names u (ground arith)))
]

-- A worker's round counts once, and one of the conductor not.
hits_of_round :
    (kind : SessionUsageAgentKind) (agent : Option String) (n : ℕ) (names : List String)
    → IsUnique names
    → HasListed names kind agent
    → hits (λ name. not (is_conductor kind) && is_name name agent) n names
        + (if is_conductor kind then n else 0)
      ≡ n
hits_of_round conductor agent n names u h = omega (arith, hits_never n names)
hits_of_round worker none n names u h = absurd h
hits_of_round worker (some name) n names u h = omega (arith, hits_once name n names u h)

sum_split :
    (f : SessionUsageRound → ℕ) (rounds : List SessionUsageRound) (names : List String)
    → IsUnique names
    → All (λ r. HasListed names r.agent_kind r.agent_name) rounds
    → sum_by f rounds ≡ sum_by f (conductor_rounds rounds) + sum_workers f rounds names
sum_split f [] names u h = omega (arith, sum_workers_nil names)
  where
    sum_workers_nil : (ns : List String) → 0 ≡ sum_workers f [] ns
    sum_workers_nil [] = refl
    sum_workers_nil (n ∷ ns) = omega (arith, sum_workers_nil ns)
sum_split f (round ∷ rounds) names u (h, hs) = omega (
  arith,
  sum_split f rounds names u hs,
  sum_workers-cons f round rounds names,
  sum_by-filter_cons f (λ r. is_conductor r.agent_kind) round rounds,
  hits_of_round round.agent_kind round.agent_name (f round) names u h,
)

abbrev total_of : (LlmTokenCounts → ℕ) → List LlmUsageRecord → ℕ
total_of g [] = 0
total_of g (r ∷ rs) = g r.counts + total_of g rs

sum_loop_totals :
    (sums : Sums) (rs : List LlmUsageRecord)
    → ((sum_loop sums rs).input_tokens
        ≡ sums.input_tokens + total_of LlmTokenCounts.input_tokens rs)
      × ((sum_loop sums rs).output_tokens
          ≡ sums.output_tokens + total_of LlmTokenCounts.output_tokens rs)
      × ((sum_loop sums rs).total_tokens
          ≡ sums.total_tokens + total_of LlmTokenCounts.total_tokens rs)
unfolding sum_loop add_record
sum_loop_totals sums [] = (omega arith, omega arith, omega arith)
sum_loop_totals sums (r ∷ rs) =
    let (a, b, c) = sum_loop_totals (add_record sums r.counts) rs in
    (omega (arith, a), omega (arith, b), omega (arith, c))

-- A count of the tokens, which is 0 where no usage was recorded.
abbrev pub tokens_of : (LlmTokenCounts → ℕ) → Option LlmTokenCounts → ℕ
tokens_of g none = 0
tokens_of g (some counts) = g counts

sum_usage_records_totals :
    (rs : List LlmUsageRecord)
    → (tokens_of LlmTokenCounts.input_tokens (sum_usage_records rs)
        ≡ total_of LlmTokenCounts.input_tokens rs)
      × (tokens_of LlmTokenCounts.output_tokens (sum_usage_records rs)
          ≡ total_of LlmTokenCounts.output_tokens rs)
      × (tokens_of LlmTokenCounts.total_tokens (sum_usage_records rs)
          ≡ total_of LlmTokenCounts.total_tokens rs)
unfolding sum_usage_records no_sums
sum_usage_records_totals [] = (refl, refl, refl)
sum_usage_records_totals (r ∷ rs) =
    let (a, b, c) = sum_loop_totals no_sums (r ∷ rs) in
    (omega (arith, a), omega (arith, b), omega (arith, c))

abbrev usage_of : (LlmTokenCounts → ℕ) → Option LlmUsageRecord → ℕ
usage_of g none = 0
usage_of g (some usage) = g usage.counts

total_of-usages :
    (g : LlmTokenCounts → ℕ) (rounds : List SessionUsageRound)
    → total_of g (usages rounds) ≡ sum_by (λ r. usage_of g r.usage) rounds
total_of-usages g [] = refl
total_of-usages g (round ∷ rounds) = ground (arith, total_of-usages g rounds)

length_sum : (rounds : List SessionUsageRound) → length rounds ≡ sum_by (λ r. 1) rounds
length_sum [] = refl
length_sum (round ∷ rounds) = omega (arith, length_sum rounds)

length-filter_sum :
    (p : SessionUsageRound → Bool) (rounds : List SessionUsageRound)
    → length (filter p rounds) ≡ sum_by (λ r. if p r then 1 else 0) rounds
length-filter_sum p [] = refl
length-filter_sum p (round ∷ rounds) = ground (arith, length-filter_sum p rounds)

abbrev pub sum_totals : (SessionUsageAgentTotals → ℕ) → List (String × SessionUsageAgentTotals) → ℕ
sum_totals m [] = 0
sum_totals m ((name, totals) ∷ rest) = m totals + sum_totals m rest

-- A figure of the whole session is that of the conductor and those of the workers together.
abbrev pub IsSplit : SessionUsageSummary → (SessionUsageAgentTotals → ℕ) → Type 0
IsSplit s m = m s.totals ≡ m s.conductor + sum_totals m s.workers

sum_totals-worker_totals :
    (m : SessionUsageAgentTotals → ℕ) (f : SessionUsageRound → ℕ) (rounds : List SessionUsageRound)
    (names : List String)
    → ((rs : List SessionUsageRound) → m (summarize_agent rs) ≡ sum_by f rs)
    → sum_totals m (worker_totals rounds names) ≡ sum_workers f rounds names
unfolding worker_totals
sum_totals-worker_totals m f rounds [] h = refl
sum_totals-worker_totals m f rounds (name ∷ names) h =
    ap₂ (λ a b. a + b) (h (filter (is_round_of name) rounds))
      (sum_totals-worker_totals m f rounds names h)

summary-IsSplit :
    (rounded_percent : ℕ → ℕ → ℕ) (t : SessionUsageTracker) (m : SessionUsageAgentTotals → ℕ)
    (f : SessionUsageRound → ℕ)
    → All IsNamed t.rounds
    → ((rs : List SessionUsageRound) → m (summarize_agent rs) ≡ sum_by f rs)
    → IsSplit (get_session_summary rounded_percent t) m
unfolding get_session_summary summarize_agent worker_names
summary-IsSplit rounded_percent t m f named h =
    let names = names_from t.rounds [] in
    h t.rounds
    ∙ sum_split f t.rounds names (names_from-IsUnique t.rounds [] tt)
        (names_from-All t.rounds [] named)
    ∙ ap₂ (λ a b. a + b) (sym (h (conductor_rounds t.rounds)))
        (sym (sum_totals-worker_totals m f t.rounds names h))

-- Where every worker has a name that is not empty, the figures of a session's summary split over its
-- agents with nothing missing and nothing counted twice: its rounds, its rounds with usage, and its
-- input, output and total tokens are those of the conductor and of the workers together.
pub get_session_summary-IsSplit :
    (rounded_percent : ℕ → ℕ → ℕ) (t : SessionUsageTracker)
    → All IsNamed t.rounds
    → IsSplit (get_session_summary rounded_percent t) SessionUsageAgentTotals.rounds
      × IsSplit (get_session_summary rounded_percent t) SessionUsageAgentTotals.rounds_with_usage
      × IsSplit
          (get_session_summary rounded_percent t)
          (λ a. tokens_of LlmTokenCounts.input_tokens a.tokens)
      × IsSplit
          (get_session_summary rounded_percent t)
          (λ a. tokens_of LlmTokenCounts.output_tokens a.tokens)
      × IsSplit
          (get_session_summary rounded_percent t)
          (λ a. tokens_of LlmTokenCounts.total_tokens a.tokens)
unfolding summarize_agent
get_session_summary-IsSplit rounded_percent t named =
    let sums : (g : LlmTokenCounts → ℕ) (rs : List SessionUsageRound)
        → total_of g (usages rs) ≡ sum_by (λ r. usage_of g r.usage) rs =
      total_of-usages in
    (
      summary-IsSplit rounded_percent t SessionUsageAgentTotals.rounds (λ r. 1) named length_sum,
      summary-IsSplit rounded_percent t SessionUsageAgentTotals.rounds_with_usage
          (λ r. if has_usage r then 1 else 0) named (length-filter_sum has_usage),
      summary-IsSplit rounded_percent t (λ a. tokens_of LlmTokenCounts.input_tokens a.tokens)
          (λ r. usage_of LlmTokenCounts.input_tokens r.usage) named
          (λ rs. (sum_usage_records_totals (usages rs)).0 ∙ sums LlmTokenCounts.input_tokens rs),
      summary-IsSplit rounded_percent t (λ a. tokens_of LlmTokenCounts.output_tokens a.tokens)
          (λ r. usage_of LlmTokenCounts.output_tokens r.usage) named
          (λ rs. (sum_usage_records_totals (usages rs)).1 ∙ sums LlmTokenCounts.output_tokens rs),
      summary-IsSplit rounded_percent t (λ a. tokens_of LlmTokenCounts.total_tokens a.tokens)
          (λ r. usage_of LlmTokenCounts.total_tokens r.usage) named
          (λ rs. (sum_usage_records_totals (usages rs)).2 ∙ sums LlmTokenCounts.total_tokens rs),
    )
