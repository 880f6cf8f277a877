-- ===== src/Balance/Step/Landing.antt =====
-- A step reports one result for each blow.
use alzendor.Prelude.{suc, ◌≡◌, List, ◌++◌, arith, length, Ensures, Ensures-some, Ensures-bind}
use alzendor.Real.{Real}
use alzendor.Balance.Dot.{Dot, Event}
use alzendor.Balance.Events.{landing, count, count-append}
use alzendor.Balance.Timers.Frame.{landing-timers}
use alzendor.Balance.Strikes.{act_all, fire, volleys}
use alzendor.Balance.Strikes.Calm.{count-act_all, count-fire, count-volleys}
use alzendor.Balance.Blows.{land}
use alzendor.Balance.Blows.Quiet.{landing-land}
use alzendor.Balance.Physics.{physics}
use alzendor.Balance.Physics.Quiet.{landing-physics}
use alzendor.Balance.Step.{Input, prepare, step}

module _ {F : Type 0} ⦃r : Real F⦄ where
  landing-prepare : (d : Dot F) → count landing (prepare d).1 ≡ 0
  unfolding prepare
  landing-prepare d = landing-timers (record d { n = suc d.n })

  pub landing-step :
      (d : Dot F) (i : Input F)
      → Ensures (λ (x : Dot F × List Event). count landing x.1 ≡ length i.blows) (step d i)
  unfolding step
  landing-step d i =
      let d1 = (prepare d).0 in
      let (d2, e2) = act_all d1 i.acts in
      Ensures-bind (fire d2) _ (count-fire landing d2) λ (d3, e3) none3.
        Ensures-bind (volleys d3) _ (count-volleys landing d3) λ (d4, e4) none4.
          let (d5, e5) = land d4 i.blows in
          let e6 = (physics d5 i.keys).1 in
          Ensures-some _ (
            omega (
              arith,
              count-append landing ((prepare d).1 ++ e2 ++ e3 ++ e4 ++ e5) e6,
              count-append landing ((prepare d).1 ++ e2 ++ e3 ++ e4) e5,
              count-append landing ((prepare d).1 ++ e2 ++ e3) e4,
              count-append landing ((prepare d).1 ++ e2) e3,
              count-append landing (prepare d).1 e2,
              landing-prepare d,
              count-act_all landing d1 i.acts,
              none3,
              none4,
              landing-land d4 i.blows,
              landing-physics d5 i.keys,
            ))
