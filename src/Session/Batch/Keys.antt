-- ===== src/Session/Batch/Keys.antt =====
-- The source keys of select-dispatch-batch.ts: the test on two keys, and the strings that they
-- stand for.
use Prim.Native.String.{String}
use Prim.Native.String as Text
use text.Mathlib.Text.{◌==◌ as str_eq}
use Prim.Native.Char.{code}
use text.Mathlib.TextEquality.{eq_iff}
use text.Mathlib.TextLemmas.{append_cancel_left, cons-append}
use agents_ensemble.Base.{ℕ, ◌≡◌, ◌≢◌, refl, sym, ◌∙◌, ◌↔◌, true, false, ap, arith}
use agents_ensemble.Session.Batch.{
  DispatchSourceKey, operator, reconnect, permission, stall, github, dispatch_hold, worker,
  spelling, same_key,
}

pub same_key_refl : (a : DispatchSourceKey) → same_key a a ≡ true
unfolding same_key
same_key_refl (worker a) = (eq_iff a a).1 refl
same_key_refl operator = refl
same_key_refl reconnect = refl
same_key_refl permission = refl
same_key_refl stall = refl
same_key_refl github = refl
same_key_refl dispatch_hold = refl

pub eq_of_same_key : (a b : DispatchSourceKey) → same_key a b ≡ true → a ≡ b
unfolding same_key
eq_of_same_key (worker a) (worker b) h = ap worker ((eq_iff a b).0 h)
eq_of_same_key operator operator h = refl
eq_of_same_key reconnect reconnect h = refl
eq_of_same_key permission permission h = refl
eq_of_same_key stall stall h = refl
eq_of_same_key github github h = refl
eq_of_same_key dispatch_hold dispatch_hold h = refl
eq_of_same_key _ _ h = cc

pub same_key_sym : (a b : DispatchSourceKey) → same_key a b ≡ true → same_key b a ≡ true
same_key_sym a b h = rw (eq_of_same_key a b h) (same_key_refl b)

abbrev first_code : String → ℕ
first_code String.[] = 0
first_code (String.◌∷◌ c s) = code c

code-worker_append : (a : String) → first_code (Text.◌++◌ "worker:" a) ≡ b'w'
code-worker_append a = rw cons-append

abbrev IsNever : Type 0 → Type 0
IsNever P = P ↔ (false ≡ true)

worker_never : (a t : String) → first_code t ≢ b'w' → IsNever (Text.◌++◌ "worker:" a ≡ t)
worker_never a t h = ((λ e. absurd (h (ap first_code (sym e) ∙ code-worker_append a))), (λ e. cc))

never_worker : (a t : String) → first_code t ≢ b'w' → IsNever (t ≡ Text.◌++◌ "worker:" a)
never_worker a t h = ((λ e. absurd (h (ap first_code e ∙ code-worker_append a))), (λ e. cc))

literals_never : (s t : String) → str_eq s t ≡ false → IsNever (s ≡ t)
literals_never s t h = ((λ e. sym h ∙ (eq_iff s t).1 e), (λ e. cc))

-- Two keys are the same string exactly when they come from the same source: no worker's name makes
-- its key that of another worker, of the operator, of a permission, of GitHub or of a hold.
pub spelling_injective :
    (a b : DispatchSourceKey) → (spelling a ≡ spelling b) ↔ (same_key a b ≡ true)
unfolding spelling same_key
spelling_injective (worker a) (worker b) =
    ((λ e. (eq_iff a b).1 (append_cancel_left "worker:" a b e)), (λ e. rw ((eq_iff a b).0 e)))
spelling_injective operator operator = ((λ e. refl), (λ e. refl))
spelling_injective reconnect reconnect = ((λ e. refl), (λ e. refl))
spelling_injective permission permission = ((λ e. refl), (λ e. refl))
spelling_injective stall stall = ((λ e. refl), (λ e. refl))
spelling_injective github github = ((λ e. refl), (λ e. refl))
spelling_injective dispatch_hold dispatch_hold = ((λ e. refl), (λ e. refl))
spelling_injective (worker a) _ = worker_never a _ (omega arith)
spelling_injective _ (worker b) = never_worker b _ (omega arith)
spelling_injective _ _ = literals_never _ _ refl
