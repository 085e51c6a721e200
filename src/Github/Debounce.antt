-- ===== src/Github/Debounce.antt =====
-- packages/core/src/github/debounce-buffer.ts: updates that come in a row are handed on together.
-- `timer` has the time at which the scheduled flush is due, `flushed` the calls of `onFlush`, the last
-- one first. The abort signal is a flush.
pub mod Laws
use agents_ensemble.Base.{
  ℕ, ◌+◌, Bool, true, false, ◌||◌, Option, none, some, List, [], ◌∷◌, ◌++◌, is_empty, length,
  if◌then◌else◌,
}

pub record DebounceBuffer {ℓ} (T : Type ℓ) : Type ℓ where
  pub items : List T
  pub timer : Option ℕ
  pub stopped : Bool
  pub flushed : List (List T)

module _ {ℓ} {T : Type ℓ} where
  unfoldable pub new_buffer : DebounceBuffer T
  new_buffer = record { items = []; timer = none; stopped = false; flushed = [] }

  -- A timer that runs is replaced.
  unfoldable pub schedule_flush : ℕ → ℕ → DebounceBuffer T → DebounceBuffer T
  schedule_flush debounce_ms now b = record b { timer = some (now + debounce_ms) }

  unfoldable pub push : ℕ → ℕ → T → DebounceBuffer T → DebounceBuffer T
  unfolding schedule_flush
  push debounce_ms now item b =
      if b.stopped
      then b
      else schedule_flush debounce_ms now (record b { items = b.items ++ item ∷ [] })

  unfoldable pub push_many : ℕ → ℕ → List T → DebounceBuffer T → DebounceBuffer T
  unfolding schedule_flush
  push_many debounce_ms now items b =
      if b.stopped || is_empty items
      then b
      else schedule_flush debounce_ms now (record b { items = b.items ++ items })

  unfoldable pub flush : DebounceBuffer T → DebounceBuffer T
  flush b =
      if is_empty b.items
      then record b { timer = none }
      else record b { items = []; timer = none; flushed = b.items ∷ b.flushed }

  unfoldable pub stop : DebounceBuffer T → DebounceBuffer T
  unfolding flush
  stop b = record (flush (record b { stopped = true })) { timer = none }

  -- The callback of the timer.
  unfoldable pub timer_flush : DebounceBuffer T → DebounceBuffer T
  unfolding flush
  timer_flush b = flush (record b { timer = none })

  unfoldable pub pending_count : DebounceBuffer T → ℕ
  pending_count b = length b.items
