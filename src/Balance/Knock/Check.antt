-- ===== src/Balance/Knock/Check.antt =====
-- When a strike can happen.
use alzendor.Prelude.{ℕ, ◌≡◌, false, none, some, Option-cases, inl, inr, arith}
use alzendor.Prelude.Int.{is_positive}
use alzendor.Real.{Real, ◌<F◌}
use alzendor.Balance.Dot.{Gear, Dot, dist, core, is_staggered}
use alzendor.Balance.Knock.{strike_check}

-- On its feet, not blocking, not outside the core, and the slot holds gear that has cooled down.
pub record Ready {F : Type 0} ⦃r : Real F⦄ (d : Dot F) (slot : ℕ) : Type 0 where
  pub steady : is_staggered d ≡ false
  pub open_guard : d.blocking ≡ false
  pub central : (core d <F dist d) ≡ false
  pub cooled : is_positive (d.cool slot) ≡ false
  pub gear : Gear F
  pub armed : d.slots slot ≡ some gear

module _ {F : Type 0} ⦃r : Real F⦄ where
  pub Ready-strike_check : (d : Dot F) (slot : ℕ) → strike_check d slot ≡ none → Ready d slot
  unfolding strike_check
  Ready-strike_check d slot e = elim (Option-cases (d.slots slot)) [
    | inl gone ↦ absurd (ground arith)
    | inr (gear, there) ↦ record {
      steady = ground arith;
      open_guard = ground arith;
      central = ground arith;
      cooled = ground arith;
      gear = gear;
      armed = there;
    }
  ]

  pub strike_check-eq-none : (d : Dot F) (slot : ℕ) → Ready d slot → strike_check d slot ≡ none
  unfolding strike_check
  strike_check-eq-none d slot h = ground arith
