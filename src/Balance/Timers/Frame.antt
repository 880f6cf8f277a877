-- ===== src/Balance/Timers/Frame.antt =====
-- The timers, the draws and the well leave the dot's kit but its stream, its volleys and its guard
-- alone.
use alzendor.Prelude.{ℕ, ◌≡◌, refl, false, arith}
use alzendor.Prelude.Int.{count_down}
use alzendor.Real.{Real}
use alzendor.Balance.Rng
use alzendor.Balance.Dot.{Dot, is_staggered}
use alzendor.Balance.Same.{arms, stance}
use alzendor.Balance.Events.{landing, count, first_strikes, staggers}
use alzendor.Balance.Timers.{ends, timers, draw, well}

module _ {F : Type 0} ⦃r : Real F⦄ where
  -- Four draws, and every cooldown a step down.
  pub arms-well-draw-timers :
      (d : Dot F)
      → arms (well (draw (timers d).0))
        ≡ arms (record d { rng = Rng.advance 4 d.rng; cool = λ k. count_down (d.cool k) })
  unfolding well draw timers Rng.advance
  arms-well-draw-timers d = refl

  pub first_strikes-timers : (slot : ℕ) (d : Dot F) → first_strikes slot (timers d).1 ≡ 0
  unfolding timers
  first_strikes-timers slot d = ground arith

  -- A dot that is up stays up, and its immunity counts down.
  pub stance-well-draw-timers :
      (d : Dot F)
      → is_staggered d ≡ false
      → (stance (well (draw (timers d).0))
          ≡ record { stagger = count_down d.stagger; immune = count_down d.immune })
        × (staggers (timers d).1 ≡ 0)
  unfolding well draw timers
  stance-well-draw-timers d up =
      let on : ends d.stagger ≡ false = ground arith in rw on (refl, refl)

  pub landing-timers : (d : Dot F) → count landing (timers d).1 ≡ 0
  unfolding timers
  landing-timers d = ground arith
