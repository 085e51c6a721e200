-- ===== src/Github/Debounce/Laws.antt =====
-- What a buffer does with what is pushed.
use mathlib.Core.List.{append-nil, append_assoc}
use mathlib.Core.Path.{subst}
use agents_ensemble.Base.{
  ℕ, ◌≡◌, refl, sym, ap, ◌∙◌, Bool, true, false, ◌||◌, none, some, is_some, List, [], ◌∷◌, ◌++◌,
  is_empty, if_intro, arith,
}
use agents_ensemble.Github.Debounce.{
  DebounceBuffer, new_buffer, schedule_flush, push, push_many, flush, stop, timer_flush,
}

-- What has been handed on, in order.
abbrev pub flat {ℓ} : {T : Type ℓ} → List (List T) → List T
flat [] = []
flat (batch ∷ batches) = flat batches ++ batch

-- What a push takes in.
abbrev pub taken {ℓ} : {T : Type ℓ} → Bool → List T → List T
taken true items = []
taken false items = items

or_true : (b : Bool) → (b || true) ≡ true
or_true b = ground arith

taken_nil {ℓ} :
    {T : Type ℓ} (stopped : Bool) (items : List T)
    → (stopped || is_empty items) ≡ true
    → taken stopped items ≡ []
taken_nil true items e = refl
taken_nil false [] e = refl
taken_nil false (item ∷ items) e = ground arith

taken_all {ℓ} :
    {T : Type ℓ} (stopped : Bool) (items : List T)
    → (stopped || is_empty items) ≡ false
    → taken stopped items ≡ items
taken_all true items e = ground arith
taken_all false items e = refl

module _ {ℓ} {T : Type ℓ} (debounce_ms : ℕ) where
  -- The items that were taken in, and the buffer; the abort signal and callers flush at any time.
  pub data BufferRun : List T → DebounceBuffer T → Type ℓ where
    begins : BufferRun [] new_buffer
    pushes :
        (now : ℕ) (item : T) {pushed : List T} {b : DebounceBuffer T}
        → BufferRun pushed b
        → BufferRun (pushed ++ taken b.stopped (item ∷ [])) (push debounce_ms now item b)
    pushes_many :
        (now : ℕ) (items : List T) {pushed : List T} {b : DebounceBuffer T}
        → BufferRun pushed b
        → BufferRun (pushed ++ taken b.stopped items) (push_many debounce_ms now items b)
    flushes :
        {pushed : List T} {b : DebounceBuffer T} → BufferRun pushed b → BufferRun pushed (flush b)
    stops :
        {pushed : List T} {b : DebounceBuffer T} → BufferRun pushed b → BufferRun pushed (stop b)
    fires :
        (due : ℕ) {pushed : List T} {b : DebounceBuffer T}
        → b.timer ≡ some due
        → BufferRun pushed b
        → BufferRun pushed (timer_flush b)

  abbrev pub IsKept : List T → DebounceBuffer T → Type ℓ
  IsKept pushed b =
      (flat b.flushed ++ b.items ≡ pushed) × ((is_empty b.items || is_some b.timer) ≡ true)

  take-IsKept :
      (now : ℕ) (items pushed : List T) (b : DebounceBuffer T)
      → IsKept pushed b
      → IsKept
          (pushed ++ items)
          (schedule_flush debounce_ms now (record b { items = b.items ++ items }))
  unfolding schedule_flush
  take-IsKept now items pushed b (h, k) = (
    sym (append_assoc (flat b.flushed) b.items items) ∙ ap (λ xs. xs ++ items) h,
    or_true (is_empty (b.items ++ items)),
  )

  flush-IsKept :
      (pushed : List T) (b : DebounceBuffer T)
      → flat b.flushed ++ b.items ≡ pushed
      → IsKept pushed (flush b)
  unfolding flush
  flush-IsKept pushed b h =
      if_intro (IsKept pushed) (is_empty b.items) (λ e. (h, ground arith))
        (λ e. (append-nil (flat b.flushed ++ b.items) ∙ h, refl))

  -- A push that is refused, and one that is taken.
  refuse-IsKept :
      (stopped : Bool) (items pushed : List T) (b : DebounceBuffer T)
      → (stopped || is_empty items) ≡ true
      → IsKept pushed b
      → IsKept (pushed ++ taken stopped items) b
  refuse-IsKept stopped items pushed b e h =
      subst (λ xs. IsKept (pushed ++ xs) b) (sym (taken_nil stopped items e))
        (h.0 ∙ sym (append-nil pushed), h.1)

  accept-IsKept :
      (now : ℕ) (stopped : Bool) (items pushed : List T) (b : DebounceBuffer T)
      → (stopped || is_empty items) ≡ false
      → IsKept pushed b
      → IsKept
          (pushed ++ taken stopped items)
          (schedule_flush debounce_ms now (record b { items = b.items ++ items }))
  accept-IsKept now stopped items pushed b e h =
      subst
        (λ xs.
          IsKept (pushed ++ xs)
            (schedule_flush debounce_ms now (record b { items = b.items ++ items })))
        (sym (taken_all stopped items e)) (take-IsKept now items pushed b h)

  push-IsKept :
      (now : ℕ) (item : T) (pushed : List T) (b : DebounceBuffer T)
      → IsKept pushed b
      → IsKept (pushed ++ taken b.stopped (item ∷ [])) (push debounce_ms now item b)
  unfolding push
  push-IsKept now item pushed b h =
      if_intro (IsKept (pushed ++ taken b.stopped (item ∷ []))) b.stopped
        (λ e. refuse-IsKept b.stopped (item ∷ []) pushed b (ap (λ s. s || false) e) h)
        (λ e. accept-IsKept now b.stopped (item ∷ []) pushed b (ap (λ s. s || false) e) h)

  push_many-IsKept :
      (now : ℕ) (items pushed : List T) (b : DebounceBuffer T)
      → IsKept pushed b
      → IsKept (pushed ++ taken b.stopped items) (push_many debounce_ms now items b)
  unfolding push_many
  push_many-IsKept now items pushed b h =
      if_intro (IsKept (pushed ++ taken b.stopped items)) (b.stopped || is_empty items)
        (λ e. refuse-IsKept b.stopped items pushed b e h)
        (λ e. accept-IsKept now b.stopped items pushed b e h)

  stop-IsKept :
      (pushed : List T) (b : DebounceBuffer T)
      → flat b.flushed ++ b.items ≡ pushed
      → IsKept pushed (stop b)
  unfolding stop flush
  stop-IsKept pushed b h =
      if_intro (λ c. IsKept pushed (record c { timer = none })) (is_empty b.items)
        (λ e. (h, ground arith)) (λ e. (append-nil (flat b.flushed ++ b.items) ∙ h, refl))

  -- In every run of the buffer the items that were handed on, batch after batch, and those that are
  -- still buffered are together the items that were pushed before the stop, in their order, each once;
  -- and as long as one is buffered a flush is scheduled.
  pub BufferRun-IsKept :
      (pushed : List T) (b : DebounceBuffer T) → BufferRun pushed b → IsKept pushed b
  unfolding new_buffer stop timer_flush
  BufferRun-IsKept _ _ begins = (refl, refl)
  BufferRun-IsKept _ _ (pushes now item {pushed = pushed} {b = b} run) =
      push-IsKept now item pushed b (BufferRun-IsKept pushed b run)
  BufferRun-IsKept _ _ (pushes_many now items {pushed = pushed} {b = b} run) =
      push_many-IsKept now items pushed b (BufferRun-IsKept pushed b run)
  BufferRun-IsKept _ _ (flushes {pushed = pushed} {b = b} run) =
      flush-IsKept pushed b (BufferRun-IsKept pushed b run).0
  BufferRun-IsKept _ _ (stops {pushed = pushed} {b = b} run) =
      stop-IsKept pushed b (BufferRun-IsKept pushed b run).0
  BufferRun-IsKept _ _ (fires due {pushed = pushed} {b = b} e run) =
      flush-IsKept pushed (record b { timer = none }) (BufferRun-IsKept pushed b run).0
