-- ===== src/Balance/Snapshot/Resume.antt =====
-- A restored dot carries on as the one that was snapshot would.
use alzendor.Prelude.{ℕ, ◌≡◌, refl, ◌∙◌, ap, fun_ext, List, ◌∷◌, arith}
use alzendor.Prelude.Int.{ℤ, neg_part}
use alzendor.Real.{Real}
use alzendor.Balance.Dot.{Dot}
use alzendor.Balance.Knock.{add_debuff}
use alzendor.Balance.Timers.{timers, draw}
use alzendor.Balance.Step.{Input, prepare, step, run}
use alzendor.Balance.Snapshot.{snapshot, restore, running}

-- The same player's dot: its rules, gear, shield and perks.
pub record SameKit {F : Type 0} (a b : Dot F) : Type 0 where
  pub rules : a.rules ≡ b.rules
  pub slots : a.slots ≡ b.slots
  pub shield : a.shield ≡ b.shield
  pub perks : a.perks ≡ b.perks

running_lem : (t : ℤ) → neg_part t ≡ 0 → running t ≡ t
running_lem t h = ground arith

module _ {F : Type 0} where
  restore-snapshot :
      (s d : Dot F)
      → SameKit s d
      → ((k : ℕ) → neg_part (d.cool k) ≡ 0)
      → restore s (snapshot d) ≡ record d { draws = s.draws }
  unfolding restore snapshot
  restore-snapshot s d same settled =
      let cool : (λ k. running (d.cool k)) ≡ d.cool =
        fun_ext (λ k. running_lem (d.cool k) (settled k)) in
      λ i. record d {
        rules = same.rules i;
        slots = same.slots i;
        shield = same.shield i;
        perks = same.perks i;
        cool = cool i;
        draws = s.draws;
      }

module _ {F : Type 0} ⦃r : Real F⦄ where
  -- A step draws before it reads what it drew.
  step-draws :
      (d : Dot F) (old : F × F × F × F) (i : Input F) → step (record d { draws = old }) i ≡ step d i
  unfolding step prepare timers draw add_debuff
  step-draws d old i = refl

  -- For two dots with the same rules, gear, shield and perks, and cooldowns that are not negative
  -- in the second: the first, restored from a snapshot of the second, steps on through any inputs
  -- to the same dot, events or KeyError as the second, whatever it was before.
  pub restored_run :
      (s d : Dot F) (i : Input F) (is : List (Input F))
      → SameKit s d
      → ((k : ℕ) → neg_part (d.cool k) ≡ 0)
      → run (restore s (snapshot d)) (i ∷ is) ≡ run d (i ∷ is)
  unfolding run
  restored_run s d i is same settled =
      let stepped : step (restore s (snapshot d)) i ≡ step d i =
        ap (λ e. step e i) (restore-snapshot s d same settled) ∙ step-draws d s.draws i in
      rw stepped
