-- ===== src/Base/Int.antt =====
-- Integers over the native numbers, as far as the source orders them.
use Prim.Native.Nat.{ℕ}
use mathlib.Core.Bool.{Bool, true, false, not, ◌&&◌, ◌||◌}
use mathlib.Core.Logic.{◌⊎◌}
use mathlib.Core.Path.{◌≡◌}
use native.Mathlib.Omega.{arith}
use agents_ensemble.Base.Tests.{ltb, ◌==◌, if◌then◌else◌}

-- `negsuc n` is -(n + 1).
pub data ℤ : Type 0 where
  pos : ℕ → ℤ
  negsuc : ℕ → ℤ

abbrev pub lt_int : ℤ → ℤ → Bool
lt_int (pos a) (pos b) = ltb a b
lt_int (pos _) (negsuc _) = false
lt_int (negsuc _) (pos _) = true
lt_int (negsuc a) (negsuc b) = ltb b a

abbrev pub eq_int : ℤ → ℤ → Bool
eq_int (pos a) (pos b) = a == b
eq_int (pos _) (negsuc _) = false
eq_int (negsuc _) (pos _) = false
eq_int (negsuc a) (negsuc b) = a == b

-- `Math.min`
abbrev pub min_int : ℤ → ℤ → ℤ
min_int a b = if lt_int b a then b else a

-- `a` is at most `b`.
infix 50 ◌≤ℤ◌
abbrev pub ◌≤ℤ◌ : ℤ → ℤ → Type 0
a ≤ℤ b = lt_int b a ≡ false

pub ≤ℤ_refl : (a : ℤ) → a ≤ℤ a
≤ℤ_refl (pos a) = ground arith
≤ℤ_refl (negsuc a) = ground arith

pub ≤ℤ_trans : (a b c : ℤ) → a ≤ℤ b → b ≤ℤ c → a ≤ℤ c
≤ℤ_trans (pos a) (pos b) (pos c) h k = ground arith
≤ℤ_trans (pos a) (negsuc b) c h k = ground arith
≤ℤ_trans (pos a) (pos b) (negsuc c) h k = ground arith
≤ℤ_trans (negsuc a) (pos b) (pos c) h k = ground arith
≤ℤ_trans (negsuc a) (pos b) (negsuc c) h k = ground arith
≤ℤ_trans (negsuc a) (negsuc b) (pos c) h k = ground arith
≤ℤ_trans (negsuc a) (negsuc b) (negsuc c) h k = ground arith

pub ≤ℤ_of_lt : (a b : ℤ) → lt_int a b ≡ true → a ≤ℤ b
≤ℤ_of_lt (pos a) (pos b) h = ground arith
≤ℤ_of_lt (pos a) (negsuc b) h = ground arith
≤ℤ_of_lt (negsuc a) (pos b) h = ground arith
≤ℤ_of_lt (negsuc a) (negsuc b) h = ground arith

pub eq_of_eq_int : (a b : ℤ) → eq_int a b ≡ true → a ≡ b
eq_of_eq_int (pos a) (pos b) h = ground arith
eq_of_eq_int (pos a) (negsuc b) h = ground arith
eq_of_eq_int (negsuc a) (pos b) h = ground arith
eq_of_eq_int (negsuc a) (negsuc b) h = ground arith

pub min_int-le_left : (a b : ℤ) → min_int a b ≤ℤ a
min_int-le_left a b = ground (arith, ≤ℤ_of_lt b a, ≤ℤ_refl a)

pub min_int-le_right : (a b : ℤ) → min_int a b ≤ℤ b
min_int-le_right a b = ground (arith, ≤ℤ_refl b)

pub eq_int_refl : (a : ℤ) → eq_int a a ≡ true
eq_int_refl (pos a) = ground arith
eq_int_refl (negsuc a) = ground arith

pub lt_int_trans : (a b c : ℤ) → lt_int a b ≡ true → lt_int b c ≡ true → lt_int a c ≡ true
lt_int_trans (pos a) (pos b) (pos c) h k = ground arith
lt_int_trans (pos a) (negsuc b) c h k = ground arith
lt_int_trans (pos a) (pos b) (negsuc c) h k = ground arith
lt_int_trans (negsuc a) (pos b) (pos c) h k = ground arith
lt_int_trans (negsuc a) (pos b) (negsuc c) h k = ground arith
lt_int_trans (negsuc a) (negsuc b) (pos c) h k = ground arith
lt_int_trans (negsuc a) (negsuc b) (negsuc c) h k = ground arith

pub ≤ℤ_cases : (a b : ℤ) → a ≤ℤ b → (lt_int a b ≡ true) ⊎ (a ≡ b)
≤ℤ_cases (pos a) (pos b) h = ground arith
≤ℤ_cases (pos a) (negsuc b) h = ground arith
≤ℤ_cases (negsuc a) (pos b) h = ground arith
≤ℤ_cases (negsuc a) (negsuc b) h = ground arith

-- The pair `(p, i)` is at most `(q, j)` in the lexicographic order.
abbrev pub lex_le : ℤ → ℤ → ℤ → ℤ → Bool
lex_le p i q j = lt_int p q || eq_int p q && not (lt_int j i)

pub lex_le_refl : (p i : ℤ) → lex_le p i p i ≡ true
lex_le_refl p i = ground (arith, eq_int_refl p, ≤ℤ_refl i)

pub lex_le_trans :
    (p i q j r k : ℤ) → lex_le p i q j ≡ true → lex_le q j r k ≡ true → lex_le p i r k ≡ true
lex_le_trans p i q j r k h h' =
    ground
      (arith, lt_int_trans p q r, eq_of_eq_int p q, eq_of_eq_int q r, eq_int_refl r, ≤ℤ_trans i j k)

-- A pair that is not less is the other way round.
pub lex_le_of_not_less :
    (p i q j : ℤ) → (lt_int p q || eq_int p q && lt_int i j) ≡ false → lex_le q j p i ≡ true
lex_le_of_not_less p i q j h = ground (arith, ≤ℤ_cases q p, eq_int_refl p)

pub lex_le_of_less :
    (p i q j : ℤ) → (lt_int p q || eq_int p q && lt_int i j) ≡ true → lex_le p i q j ≡ true
lex_le_of_less p i q j h = ground (arith, ≤ℤ_of_lt i j)

pub lex_le_of_le : (p i q j : ℤ) → p ≤ℤ q → i ≤ℤ j → lex_le p i q j ≡ true
lex_le_of_le p i q j h k = ground (arith, ≤ℤ_cases p q, eq_int_refl q)
