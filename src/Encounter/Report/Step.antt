-- ===== src/Encounter/Report/Step.antt =====
-- What the owner reports of a step that it simulates.
use alzendor.Prelude.{◌+◌, ◌≡◌, ◌∙◌, Bool, List, some, length, Succeeds-Ensures}
use alzendor.Real.{Real}
use alzendor.Balance.Dot.{Dot, Event}
use alzendor.Balance.Step.{Input, step}
use alzendor.Balance.Step.Safe.{IsArmed, Stepped-step}
use alzendor.Balance.Step.Landing.{landing-step}
use alzendor.Encounter.Data.{Incoming}
use alzendor.Encounter.Report.{Reporter, Report, reportable}
use alzendor.Encounter.Report.Total.{
  is_seal, calls_of, seals_left, each, blow_of, how_of, results, attacks_on, Reported-reportable,
}

module _ {F : Type 0} ⦃r : Real F⦄ where
  -- A step of a dot whose volleys are armed, over any inputs, and with as many attacks as blows: it
  -- raises nothing, and is reported without an IndexError. The blows in the report are of just these
  -- attacks, one after another, each on the player, and their results are those of the step's
  -- blows in their order; there is at most one seal, and none where the slot is sealed already.
  pub step_reported :
      (who : Reporter) (sealed : Bool) (d : Dot F) (i : Input F) (mine : List (Incoming F))
      → IsArmed d
      → length i.blows ≡ length mine
      → (x : Dot F × List Event) × (step d i ≡ some x)
        × ((report : Report) × (reportable who sealed x.1 mine ≡ some report)
            × (each blow_of report.calls ≡ attacks_on who.pid mine)
            × (each how_of report.calls ≡ results x.1)
            × (calls_of is_seal report.calls + seals_left who report.sealed
                ≡ seals_left who sealed))
  step_reported who sealed d i mine armed same =
      let s = Succeeds-Ensures (Stepped-step d i armed) (landing-step d i) in
      let t = Reported-reportable who sealed s.value.1 mine (s.holds.1 ∙ same) in
      (
        s.value,
        s.succeeds,
        (t.value, t.succeeds, t.holds.blows, t.holds.with_results, t.holds.one_seal),
      )
