-- ===== src/Real.antt =====
-- Python's floats: the type and the operations that balance.py uses of them.
--
-- The arithmetic of IEEE doubles and of `math` is not modelled: what is proved holds for every
-- type with these operations, whatever their rounding, NaN included.
pub mod Coarse
use alzendor.Prelude.{ℕ, Bool, if◌then◌else◌}
use alzendor.Prelude.Int.{ℤ, pos}

pub record Real (F : Type 0) : Type 0 where
  pub add : F → F → F
  pub sub : F → F → F
  pub mul : F → F → F
  pub div : F → F → F
  pub neg : F → F
  -- a % b
  pub fmod : F → F → F
  pub le : F → F → Bool
  pub lt : F → F → Bool
  pub sqrt : F → F
  pub cos : F → F
  pub sin : F → F
  pub exp : F → F
  pub atan2 : F → F → F
  pub floor : F → ℤ
  pub of_int : ℤ → F
  pub pi : F

module _ {F : Type 0} ⦃r : Real F⦄ where
  infixl 65 ◌+F◌ ◌-F◌
  infixl 70 ◌*F◌ ◌/F◌
  infix 50 ◌≤F◌ ◌<F◌
  abbrev pub ◌+F◌ : F → F → F
  a +F b = r.add a b

  abbrev pub ◌-F◌ : F → F → F
  a -F b = r.sub a b

  abbrev pub ◌*F◌ : F → F → F
  a *F b = r.mul a b

  abbrev pub ◌/F◌ : F → F → F
  a /F b = r.div a b

  abbrev pub ◌≤F◌ : F → F → Bool
  a ≤F b = r.le a b

  abbrev pub ◌<F◌ : F → F → Bool
  a <F b = r.lt a b

  -- An integer where a float is wanted.
  abbrev pub int : ℕ → F
  int n = r.of_int (pos n)

  -- The literal that is the double nearest to n / d, such as `dec 3 10` for 0.3.
  abbrev pub dec : ℕ → ℕ → F
  dec n d = int n /F int d

  -- max(a, b) and min(a, b) keep the first of two equal values.
  abbrev pub max_F : F → F → F
  max_F a b = if a <F b then b else a

  abbrev pub min_F : F → F → F
  min_F a b = if b <F a then b else a
