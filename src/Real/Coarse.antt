-- ===== src/Real/Coarse.antt =====
-- A coarse stand-in for floats, on which the code runs in tests: thousandths, rounded toward zero.
-- The waves are those of a square: cos is 1 and sin 0, and exp is 1 + x.
use alzendor.Prelude.{ℕ, ◌+◌, ◌*◌, ◌/◌, ◌%◌, zero, suc, leb, if◌then◌else◌}
use alzendor.Prelude.Int.{ℤ, pos, pos_part, neg_part, sub_ℕ, leb_ℤ, ltb_ℤ}
use alzendor.Real.{Real}

abbrev times : ℤ → ℤ → ℤ
times a b =
    sub_ℕ ((pos_part a * pos_part b + neg_part a * neg_part b) / 1000)
      ((pos_part a * neg_part b + neg_part a * pos_part b) / 1000)

abbrev over : ℤ → ℤ → ℤ
over a b =
    sub_ℕ (pos_part a * 1000 / pos_part b + neg_part a * 1000 / neg_part b)
      (pos_part a * 1000 / neg_part b + neg_part a * 1000 / pos_part b)

-- The whole square root of n, by counting up to it.
abbrev root_from : ℕ → ℕ → ℕ → ℕ
root_from zero n k = k
root_from (suc fuel) n k = root_from fuel n (if leb ((k + 1) * (k + 1)) n then k + 1 else k)

instance abbrev pub thousandths : Real ℤ
thousandths = record {
  add = λ a b. sub_ℕ (pos_part a + pos_part b) (neg_part a + neg_part b);
  sub = λ a b. sub_ℕ (pos_part a + neg_part b) (neg_part a + pos_part b);
  mul = times;
  div = over;
  neg = λ a. sub_ℕ (neg_part a) (pos_part a);
  fmod = λ a b. pos (pos_part a % pos_part b);
  le = leb_ℤ;
  lt = ltb_ℤ;
  sqrt = λ a. pos (root_from 1500 (pos_part a * 1000) 0);
  cos = λ a. pos 1000;
  sin = λ a. pos 0;
  exp = λ a. sub_ℕ (1000 + pos_part a) (neg_part a);
  atan2 = λ a b. pos 0;
  floor = λ a. sub_ℕ (pos_part a / 1000) ((neg_part a + 999) / 1000);
  of_int = λ a. sub_ℕ (pos_part a * 1000) (neg_part a * 1000);
  pi = pos 3142;
}
