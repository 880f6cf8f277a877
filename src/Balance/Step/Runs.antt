-- ===== src/Balance/Step/Runs.antt =====
-- Runs of steps: their random stream, and the time between two strikes with one slot.
use alzendor.Prelude.{
  ℕ, suc, ◌+◌, ◌*◌, ◌%◌, ◌<◌, ◌≡◌, refl, ap, List, [], ◌∷◌, ◌++◌, some, arith, length, Succeeds,
  Succeeds-at, Succeeds-some, Succeeds-bind,
}
use alzendor.Prelude.Int.{pos_part}
use alzendor.Real.{Real}
use alzendor.Balance.Rng
use alzendor.Balance.Rules.{steps}
use alzendor.Balance.Dot.{Gear, Dot, Event}
use alzendor.Balance.Same.{Kit}
use alzendor.Balance.Events.{first_strikes, first_strikes-append}
use alzendor.Balance.Step.{Input, step, run}
use alzendor.Balance.Step.Safe.{IsArmed, Stepped, Stepped-step}

module _ {F : Type 0} ⦃r : Real F⦄ where
  -- What a run of n steps comes to.
  pub record Ran (n : ℕ) (d : Dot F) (x : Dot F × List Event) : Type 0 where
    armed : IsArmed x.0
    clock : x.0.n ≡ d.n + n
    rng : d.rng < Rng.word → x.0.rng ≡ (d.rng + 4 * n * Rng.stride) % Rng.word
    quiet : (k : ℕ) → n < pos_part (d.cool k) → first_strikes k x.1 ≡ 0

  -- Nothing strikes from a slot in a step, and in the steps after it, while it cools down.
  quiet_on :
      (d : Dot F) (x y : Dot F × List Event) (n k : ℕ)
      → Stepped d x
      → Ran n x.0 y
      → suc n < pos_part (d.cool k)
      → first_strikes k (x.1 ++ y.1) ≡ 0
  quiet_on d x y n k s t h =
      grind (arith, first_strikes-append k x.1 y.1, s.ready k, s.cool k, t.quiet k)

  pub Ran-run :
      (d : Dot F) (is : List (Input F)) → IsArmed d → Succeeds (Ran (length is) d) (run d is)
  unfolding run
  Ran-run d [] a =
      Succeeds-some _
        (record { armed = a; clock = omega arith; rng = λ h. omega arith; quiet = λ k h. refl })
  Ran-run d (i ∷ is) a = Succeeds-bind (step d i) _ (Stepped-step d i a) λ (d1, e1) s.
      Succeeds-bind (run d1 is) _ (Ran-run d1 is s.armed) λ (d2, e2) t. Succeeds-some _ (record {
        armed = t.armed;
        clock = omega (arith, t.clock, ap (λ (k : Kit F). k.n) s.kit_next);
        rng = λ h.
            omega
              (arith, t.rng, ap (λ (k : Kit F). k.rng) s.kit_next, Rng.advance-eq-add 4 d.rng h);
        quiet = λ k h. quiet_on d (d1, e1) (d2, e2) (length is) k s t h;
      })

  -- From a dot whose volleys are armed, a run over any inputs raises no KeyError, counts one step
  -- for each input, and leaves the random stream exactly four draws on for each input, whatever
  -- the inputs are.
  pub run_random :
      (d : Dot F) (is : List (Input F))
      → IsArmed d
      → d.rng < Rng.word
      → (x : Dot F × List Event) × (run d is ≡ some x)
        × (x.0.n ≡ d.n + length is)
        × (x.0.rng ≡ (d.rng + 4 * length is * Rng.stride) % Rng.word)
  run_random d is a h =
      let s = Ran-run d is a in (s.value, s.succeeds, s.holds.clock, s.holds.rng h)

  -- From a dot whose volleys are armed, after a step in which the gear of a slot struck for the
  -- first time, no run shorter than that gear's cooldown, over any inputs, strikes with that slot
  -- again but for the hits of volleys.
  pub strike_waits :
      (d : Dot F) (i : Input F) (x : Dot F × List Event) (is : List (Input F))
      (y : Dot F × List Event) (k : ℕ) (gear : Gear F)
      → IsArmed d
      → step d i ≡ some x
      → 0 < first_strikes k x.1
      → d.slots k ≡ some gear
      → run x.0 is ≡ some y
      → length is < pos_part (steps gear.cooldown)
      → first_strikes k y.1 ≡ 0
  strike_waits d i x is y k gear a stepped struck found ran short =
      let s = Succeeds-at (Stepped-step d i a) stepped in
      let t = Succeeds-at (Ran-run x.0 is s.armed) ran in
      t.quiet k (omega (arith, s.waits k gear struck found))
