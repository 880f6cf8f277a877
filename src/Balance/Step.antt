-- ===== src/Balance/Step.antt =====
-- `step` of balance.py, and runs of it.
pub mod Safe
pub mod Runs
pub mod Immune
pub mod Landing
use alzendor.Prelude.{ℕ, suc, List, [], ◌∷◌, ◌++◌, Option, some, ◌>>=◌}
use alzendor.Real.{Real}
use alzendor.Balance.Dot.{Blow, Dot, Act, Event}
use alzendor.Balance.Timers.{timers, draw, well}
use alzendor.Balance.Strikes.{act_all, fire, volleys}
use alzendor.Balance.Blows.{land}
use alzendor.Balance.Physics.{physics}

-- What a step is given: the held keys, the acts and the blows that land.
pub record Input (F : Type 0) : Type 0 where
  pub keys : ℕ
  pub acts : List Act
  pub blows : List (Blow F)

module _ {F : Type 0} ⦃r : Real F⦄ where
  -- What comes before the acts.
  unfoldable pub prepare : Dot F → Dot F × List Event
  unfolding timers draw well
  prepare d = let (d1, events) = timers (record d { n = suc d.n }) in (well (draw d1), events)

  -- `none` is a KeyError that escapes.
  unfoldable pub step : Dot F → Input F → Option (Dot F × List Event)
  unfolding prepare act_all fire volleys land physics
  step d i = do
    let (d1, e1) = prepare d
    let (d2, e2) = act_all d1 i.acts
    (d3, e3) ← fire d2
    (d4, e4) ← volleys d3
    let (d5, e5) = land d4 i.blows
    let (d6, e6) = physics d5 i.keys
    some (d6, e1 ++ e2 ++ e3 ++ e4 ++ e5 ++ e6)

  -- Steps one after another, and all that they reported.
  unfoldable pub run : Dot F → List (Input F) → Option (Dot F × List Event)
  unfolding step
  run d [] = some (d, [])
  run d (i ∷ is) = do (d1, e1) ← step d i; (d2, e2) ← run d1 is; some (d2, e1 ++ e2)
