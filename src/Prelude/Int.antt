-- ===== src/Prelude/Int.antt =====
-- Python's integers where the code may see a negative one: timers that `steps` computes from a
-- float, and the sums and tests that the code makes of them.
use Prim.Native.Nat.{ℕ, zero, suc, ◌+◌, ◌-◌, ◌<◌}
use mathlib.Core.Path.{◌≡◌, refl, ap}
use mathlib.Core.Bool.{Bool, true, false}
use native.Mathlib.Omega.{arith}
use alzendor.Prelude.Tests.{ltb, leb, ◌==◌, if◌then◌else◌}

-- `negsuc n` is -(n + 1).
pub data ℤ : Type 0 where
  pos : ℕ → ℤ
  negsuc : ℕ → ℤ

abbrev pub pos_part : ℤ → ℕ
pos_part (pos n) = n
pos_part (negsuc n) = 0

abbrev pub neg_part : ℤ → ℕ
neg_part (pos n) = 0
neg_part (negsuc n) = suc n

-- a - b, as an integer.
abbrev pub sub_ℕ : ℕ → ℕ → ℤ
sub_ℕ a b = if leb b a then pos (a - b) else negsuc (b - a - 1)

abbrev pub neg_ℤ : ℤ → ℤ
neg_ℤ a = sub_ℕ (neg_part a) (pos_part a)

abbrev pub leb_ℤ : ℤ → ℤ → Bool
leb_ℤ a b = leb (pos_part a + neg_part b) (pos_part b + neg_part a)

abbrev pub ltb_ℤ : ℤ → ℤ → Bool
ltb_ℤ a b = ltb (pos_part a + neg_part b) (pos_part b + neg_part a)

-- max(a, b): Python keeps the first of two equal values.
abbrev pub max_ℤ : ℤ → ℤ → ℤ
max_ℤ a b = if ltb_ℤ a b then b else a

-- t > 0
abbrev pub is_positive : ℤ → Bool
is_positive (pos n) = ltb 0 n
is_positive (negsuc n) = false

-- t == 0
abbrev pub is_zero : ℤ → Bool
is_zero (pos n) = n == 0
is_zero (negsuc n) = false

-- `if t > 0: t -= 1`
abbrev pub count_down : ℤ → ℤ
count_down (pos n) = pos (n - 1)
count_down (negsuc n) = negsuc n

-- t - 1
abbrev pub pred_ℤ : ℤ → ℤ
pred_ℤ (pos zero) = negsuc 0
pred_ℤ (pos (suc n)) = pos n
pred_ℤ (negsuc n) = negsuc (suc n)

-- max(1, t)
abbrev pub at_least_one : ℤ → ℕ
at_least_one (pos n) = if n == 0 then 1 else n
at_least_one (negsuc n) = 1

pub at_least_one-pos : (t : ℤ) → 0 < at_least_one t
at_least_one-pos (pos n) = ground arith
at_least_one-pos (negsuc n) = omega arith

-- A count that has run out is not running.
pub pos_part-count_down : (t : ℤ) → pos_part (count_down t) ≡ pos_part t - 1
pos_part-count_down (pos n) = refl
pos_part-count_down (negsuc n) = omega arith

pub count_down-suc : (n : ℕ) → count_down (pos (suc n)) ≡ pos n
count_down-suc n = ap pos (omega arith)

pub is_zero-suc : (n : ℕ) → is_zero (pos (suc n)) ≡ false
is_zero-suc n = ground arith

pub is_positive-suc : (n : ℕ) → is_positive (pos (suc n)) ≡ true
is_positive-suc n = ground arith

pub is_positive_iff_pos_part : (t : ℤ) → is_positive t ≡ ltb 0 (pos_part t)
is_positive_iff_pos_part (pos n) = refl
is_positive_iff_pos_part (negsuc n) = refl

pub pos_part_of_idle : (t : ℤ) → is_positive t ≡ false → pos_part t ≡ 0
pos_part_of_idle t h = ground (arith, is_positive_iff_pos_part t)
