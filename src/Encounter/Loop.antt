-- ===== src/Encounter/Loop.antt =====
-- How a tick of `Owner._loop` of encounter.py catches up with the time: steps, up to MAX_CATCH_UP of
-- them, and then `_skip_to`.
pub mod Reach
use alzendor.Prelude.{
  ℕ, zero, suc, Bool, true, false, Option, none, some, List, [], ◌++◌, ltb, if◌then◌else◌, ◌>>=◌,
}
use alzendor.Real.{Real}
use alzendor.Encounter.Data.{Call}
use alzendor.Encounter.Clock.{skip_npcs}
use alzendor.Encounter.Turn.{Fight, run_step}

-- MAX_CATCH_UP
abbrev pub max_catch_up : ℕ
max_catch_up = 120

-- The fight, the calls of its steps, and whether all the steps that a tick may run were run.
pub record Caught (F : Type 0) : Type 0 where
  pub fight : Fight F
  pub calls : List Call
  pub spent : Bool

abbrev pub after_calls : {F : Type 0} → List Call → Caught F → Caught F
after_calls calls c = record c { calls = calls ++ c.calls }

module _ {F : Type 0} ⦃r : Real F⦄ where
  -- The loop of steps, of which k are left.
  unfoldable pub steps_to : (ℕ → F) → ℕ → Fight F → ℕ → Option (Caught F)
  unfolding run_step
  steps_to rolls zero f target = some (record { fight = f; calls = []; spent = true })
  steps_to rolls (suc k) f target =
      let more =
        run_step rolls f
        >>= (λ (f', calls). steps_to rolls k f' target >>= (λ c. some (after_calls calls c))) in
      if ltb f.step target then more else some (record { fight = f; calls = []; spent = false })

  -- `_skip_to`
  abbrev pub skip_to : ℕ → Fight F → Fight F
  skip_to target f = record f { step = target; npcs = skip_npcs target f.npcs }

  abbrev pub skipped : ℕ → Caught F → Caught F
  skipped target c = record c { fight = if c.spent then skip_to target c.fight else c.fight }

  unfoldable pub catch_up : (ℕ → F) → Fight F → ℕ → Option (Caught F)
  unfolding steps_to
  catch_up rolls f target = do c ← steps_to rolls max_catch_up f target; some (skipped target c)
