-- ===== src/Worker/Run/Sound.antt =====
-- The invariant of the worker runtime.
use Prim.Native.String.{String}
use text.Mathlib.Text.{◌==◌ as str_eq}
use mathlib.Core.Path.{subst, ap₂}
use agents_ensemble.Base.{
  ℕ, ◌+◌, ◌-◌, ◌≡◌, refl, ◌∙◌, inl, inr, ◌&&◌, ◌||◌, not, Bool, true, false, Bool-cases, Option,
  none, some, is_some, List, [], ◌∷◌, ◌++◌, All, if◌then◌else◌, arith,
}
use agents_ensemble.Base.StringMap.{lookup, insert}
use agents_ensemble.Worker.State.{
  is_busy, ResidentWorker, Task, attaching_task, late_close_task, round_task, close_task, Worker,
  Effect, WorkerRuntime, bit, put, is_ready, resolve_idle_waiters, resolve_idle_if_ready,
}
use agents_ensemble.Worker.Round.{end_attach, return_to}
use agents_ensemble.Worker.Run.{Awaits}

abbrev pub IsBusy : Option ResidentWorker → Type 0
IsBusy none = ⊥
IsBusy (some r) = r.state ≡ is_busy

-- What a worker is while it awaits one task, or none. A lazy init is awaited by `attachAndInit`.
abbrev pub IsTasked : List Task → Worker → Type 0
IsTasked [] w = (w.is_processing ≡ false) × ((w.is_resident && w.is_sleeping) ≡ false)
IsTasked (attaching_task first ∷ []) w =
    (w.is_processing ≡ false) × (w.is_sleeping ≡ false) × (w.is_resident ≡ false)
IsTasked (late_close_task ∷ []) w =
    (w.is_processing ≡ false) × (w.is_sleeping ≡ false) × (w.is_resident ≡ false)
IsTasked (round_task source is_lazy_init in_attach ∷ []) w =
    (w.is_processing ≡ true)
    × (w.is_sleeping ≡ false)
    × IsBusy w.resident
    × ((not is_lazy_init || in_attach) ≡ true)
IsTasked (close_task in_attach ∷ []) w =
    (w.is_processing ≡ false)
    × (w.is_sleeping ≡ false)
    × (is_some w.failed_entry ≡ true)
    × (in_attach ≡ true)
IsTasked (_ ∷ _ ∷ _) w = ⊥

-- How many calls of `attachAndInit` the tasks belong to.
abbrev pub attach_bit : Task → ℕ
attach_bit (attaching_task first) = 1
attach_bit late_close_task = 1
attach_bit (round_task source is_lazy_init in_attach) = bit in_attach
attach_bit (close_task in_attach) = bit in_attach

abbrev pub attach_bits : List Task → ℕ
attach_bits [] = 0
attach_bits (task ∷ tasks) = attach_bit task + attach_bits tasks

abbrev pub attach_total : List (String × Worker) → ℕ
attach_total [] = 0
attach_total ((name, w) ∷ m) = attach_bits w.tasks + attach_total m

abbrev pub IsFormed : Worker → Type 0
IsFormed w = IsTasked w.tasks w

-- The workers are formed, and the counter is that of the calls that the tasks belong to, with `extra`
-- calls that are between two tasks.
pub record IsSound (extra : ℕ) (s : WorkerRuntime) : Type 0 where
  pub formed : All (λ e. IsFormed e.1) s.workers
  pub counted : s.attach_in_flight ≡ attach_total s.workers + extra

pub All-insert :
    (P : Worker → Type 0) (name : String) (w : Worker) (m : List (String × Worker))
    → P w
    → All (λ e. P e.1) m
    → All (λ e. P e.1) (insert name w m)
unfolding insert
All-insert P name w [] h k = (h, tt)
All-insert P name w ((n, v) ∷ m) h (k, ks) =
    let rest = All-insert P name w m h ks in
    elim (str_eq n name)
      as (λ b. All (λ e. P e.1) (if b then (name, w) ∷ m else (n, v) ∷ insert name w m)) [
        | true ↦ (h, ks)
        | false ↦ (k, rest)
      ]

none_is_no_worker : (w : Worker) → ¬ (none ≡ some w)
none_is_no_worker w = ground arith

pub All-at :
    (P : Worker → Type 0) (name : String) (w : Worker) (m : List (String × Worker))
    → All (λ e. P e.1) m
    → lookup name m ≡ some w
    → P w
unfolding lookup
All-at P name w [] k e = absurd (none_is_no_worker w e)
All-at P name w ((n, v) ∷ m) (k, ks) e = elim (Bool-cases (str_eq n name)) [
  | inl f ↦ subst P (ground arith) k
  | inr f ↦ All-at P name w m ks (ground arith)
]

pub attach_total-insert :
    (name : String) (old new : Worker) (m : List (String × Worker))
    → lookup name m ≡ some old
    → attach_total (insert name new m) + attach_bits old.tasks
      ≡ attach_total m + attach_bits new.tasks
unfolding insert lookup
attach_total-insert name old new [] e = ground arith
attach_total-insert name old new ((n, v) ∷ m) e = ground (arith, attach_total-insert name old new m)

pub attach_total-insert_new :
    (name : String) (new : Worker) (m : List (String × Worker))
    → lookup name m ≡ none
    → attach_total (insert name new m) ≡ attach_total m + attach_bits new.tasks
unfolding insert lookup
attach_total-insert_new name new [] e = ground arith
attach_total-insert_new name new ((n, v) ∷ m) e = ground (arith, attach_total-insert_new name new m)

pub put-IsSound :
    (name : String) (old new : Worker) (extra rest : ℕ) (s : WorkerRuntime)
    → lookup name s.workers ≡ some old
    → IsFormed new
    → extra + attach_bits old.tasks ≡ rest + attach_bits new.tasks
    → IsSound extra s
    → IsSound rest (put name new s)
put-IsSound name old new extra rest s e f c sound =
    let total = attach_total-insert name old new s.workers e in
    let counted = sound.counted in
    record {
      formed = All-insert IsFormed name new s.workers f sound.formed;
      counted = omega (arith, total, counted, c);
    }

pub log-IsSound :
    (effects : List Effect) (extra : ℕ) (s : WorkerRuntime)
    → IsSound extra s
    → IsSound extra (record s { effects = effects })
log-IsSound effects extra s h = record { formed = h.formed; counted = h.counted }

pub resolve_idle-IsSound :
    (extra : ℕ) (s : WorkerRuntime) → IsSound extra s → IsSound extra (resolve_idle_if_ready s)
unfolding resolve_idle_if_ready resolve_idle_waiters
resolve_idle-IsSound extra s h = elim (Bool-cases (is_ready s)) [
  | inl e ↦ rw e (record { formed = h.formed; counted = h.counted })
  | inr e ↦ rw e h
]

pub resolve_idle-workers : (s : WorkerRuntime) → (resolve_idle_if_ready s).workers ≡ s.workers
unfolding resolve_idle_if_ready resolve_idle_waiters
resolve_idle-workers s = ground arith

pub return_to-IsSound :
    (in_attach : Bool) (s : WorkerRuntime)
    → IsSound (bit in_attach) s
    → IsSound 0 (return_to in_attach s)
unfolding end_attach
return_to-IsSound true s h =
    let counted = h.counted in
    resolve_idle-IsSound 0 (record s { attach_in_flight = s.attach_in_flight - 1 })
      (record { formed = h.formed; counted = omega (arith, counted) })
return_to-IsSound false s h = h

-- A formed worker awaits a task alone.
single_task :
    (before : List Task) (task : Task) (after : List Task) (w : Worker)
    → IsTasked (before ++ task ∷ after) w
    → (before ≡ []) × (after ≡ [])
single_task [] task [] w h = (refl, refl)
single_task [] (attaching_task f) (_ ∷ _) w h = absurd h
single_task [] late_close_task (_ ∷ _) w h = absurd h
single_task [] (round_task x y z) (_ ∷ _) w h = absurd h
single_task [] (close_task x) (_ ∷ _) w h = absurd h
single_task (attaching_task f ∷ []) task after w h = absurd h
single_task (late_close_task ∷ []) task after w h = absurd h
single_task (round_task x y z ∷ []) task after w h = absurd h
single_task (close_task x ∷ []) task after w h = absurd h
single_task (attaching_task f ∷ _ ∷ _) task after w h = absurd h
single_task (late_close_task ∷ _ ∷ _) task after w h = absurd h
single_task (round_task x y z ∷ _ ∷ _) task after w h = absurd h
single_task (close_task x ∷ _ ∷ _) task after w h = absurd h

-- The worker that awaits a task in a sound runtime, and the one that is left of it.
pub awaited_alone :
    (s : WorkerRuntime) (name : String) (task : Task) (left : Worker) (extra : ℕ)
    → IsSound extra s
    → Awaits s name task left
    → (w : Worker) × (lookup name s.workers ≡ some w)
      × (w.tasks ≡ task ∷ [])
      × IsTasked (task ∷ []) w
      × (left ≡ record w { tasks = [] })
awaited_alone s name task left extra sound a =
    let w = a.worker in
    let formed = All-at IsFormed name w s.workers sound.formed a.found in
    let none_else =
      single_task a.before task a.after w (subst (λ ts. IsTasked ts w) a.split formed) in
    let alone : w.tasks ≡ task ∷ [] =
      a.split ∙ ap₂ (λ xs ys. xs ++ task ∷ ys) none_else.0 none_else.1 in
    (
      w,
      a.found,
      alone,
      subst (λ ts. IsTasked ts w) alone formed,
      a.taken ∙ ap₂ (λ xs ys. record w { tasks = xs ++ ys }) none_else.0 none_else.1,
    )
