-- ===== src/Balance/Tests.antt =====
-- Runs of the simulation on thousandths, and each theorem on balance.py at one of them.
use alzendor.Prelude.{
  ℕ, ◌+◌, ◌*◌, ◌%◌, ◌≡◌, refl, Bool, true, false, List, [], ◌∷◌, Option, none, some, arith, ◌==◌,
  if◌then◌else◌,
}
use alzendor.Prelude.Int.{ℤ, pos, neg_part}
use alzendor.Real.{int}
use alzendor.Real.Coarse.{thousandths}
use alzendor.Balance.Rng
use alzendor.Balance.Rules.{steps, default_rules}
use alzendor.Balance.Dot.{Gear, bump, neither, Dot, Act, Event, new_dot, is_staggered}
use alzendor.Balance.Events.{first_strikes, staggers}
use alzendor.Balance.Knock.{strike_check, apply_kick, tier, stagger}
use alzendor.Balance.Step.{Input, step, run}
use alzendor.Balance.Step.Runs.{run_random, strike_waits}
use alzendor.Balance.Step.Immune.{immune_run}
use alzendor.Balance.Snapshot.{snapshot, restore}
use alzendor.Balance.Snapshot.Resume.{restored_run}
use alzendor.Balance.Boss
use alzendor.Balance.Boss.{
  Boss, add, strike, Beat, struck, blocked, tick, ticks, beats, damage_mult,
}
use alzendor.Balance.Boss.Reel.{boss_reels}

-- A sword that cools down for half a second and hits twice.
abbrev sword : Gear ℤ
sword = record {
  cooldown = pos 500000;
  kick = pos 300;
  pattern_of = bump;
  hits = 2;
  gap = pos 50000;
  debuff = none;
}

abbrev fighter : Dot ℤ
fighter =
    new_dot default_rules 7 (λ slot. if slot == 1 then some sword else none) true (λ perk. false)

abbrev swing : Input ℤ
swing = record { keys = 0; acts = Act.strike 1 none ∷ []; blows = [] }

abbrev idle : Input ℤ
idle = record { keys = 0; acts = []; blows = [] }

-- A blow that kicks hard, and would stagger.
abbrev shove : Input ℤ
shove = record {
  keys = 0;
  acts = [];
  blows =
      record {
        kick = pos 900;
        angle = pos 0;
        defend = neither;
        stagger = true;
        debuff = none;
        parting = false;
      }
      ∷ [];
}

abbrev outcome : Option (Dot ℤ × List Event) → Dot ℤ × List Event
outcome none = (fighter, [])
outcome (some x) = x

abbrev is_some : {A : Type 0} → Option A → Bool
is_some none = false
is_some (some x) = true

some-outcome : (m : Option (Dot ℤ × List Event)) → is_some m ≡ true → m ≡ some (outcome m)
some-outcome none h = absurd (ground arith)
some-outcome (some x) h = refl

abbrev swung : Dot ℤ × List Event
swung = outcome (step fighter swing)

abbrev waited : Dot ℤ × List Event
waited = outcome (run swung.0 (swing ∷ idle ∷ shove ∷ idle ∷ []))

run_random_example :
    (x : Dot ℤ × List Event) × (run fighter (swing ∷ shove ∷ []) ≡ some x)
    × (x.0.n ≡ fighter.n + 2)
    × (x.0.rng ≡ (fighter.rng + 4 * 2 * Rng.stride) % Rng.word)
unfolding new_dot Rng.next Rng.mix Rng.imul
run_random_example = run_random fighter (swing ∷ shove ∷ []) tt (omega arith)

strike_waits_example : first_strikes 1 waited.1 ≡ 0
unfolding new_dot Rng.next Rng.mix Rng.imul step run steps strike_check apply_kick tier stagger
strike_waits_example =
    strike_waits fighter swing swung (swing ∷ idle ∷ shove ∷ idle ∷ []) waited 1 sword tt refl
      (omega arith) refl refl (omega arith)

-- The same player's dot, made anew.
abbrev newcomer : Dot ℤ
newcomer = new_dot default_rules 8 fighter.slots true (λ perk. false)

settled : (k : ℕ) → neg_part (waited.0.cool k) ≡ 0
unfolding new_dot Rng.next Rng.mix Rng.imul step run steps strike_check apply_kick tier stagger
settled k = ground arith

restored_run_example :
    run (restore newcomer (snapshot waited.0)) (swing ∷ shove ∷ [])
    ≡ run waited.0 (swing ∷ shove ∷ [])
unfolding new_dot Rng.next Rng.mix Rng.imul step run steps strike_check apply_kick tier stagger
restored_run_example =
    restored_run newcomer waited.0 swing (shove ∷ [])
      (record { rules = refl; slots = refl; shield = refl; perks = refl }) λ k. settled k

-- Up again, and immune for ten steps.
abbrev immune_fighter : Dot ℤ
immune_fighter = record fighter { immune = pos 10 }

immune_run_example :
    (x : Dot ℤ × List Event) × (run immune_fighter (shove ∷ idle ∷ shove ∷ []) ≡ some x)
    × (staggers x.1 ≡ 0)
    × (is_staggered x.0 ≡ false)
    × (x.0.immune ≡ pos 7)
unfolding new_dot Rng.next Rng.mix Rng.imul
immune_run_example = immune_run immune_fighter (shove ∷ idle ∷ shove ∷ []) 6 tt refl refl

-- Without its immunity the same blows stagger it.
staggers-fighter : staggers (outcome (run fighter (shove ∷ idle ∷ shove ∷ []))).1 ≡ 1
unfolding new_dot Rng.next Rng.mix Rng.imul run step steps stagger
staggers-fighter = refl

abbrev ogre : Boss ℤ
ogre = record { poise = pos 100000; rules = default_rules; meter = pos 95000; staggered = pos 0 }

abbrev fight : List (Beat ℤ)
fight = tick ∷ struck (pos 5000) ∷ blocked ∷ tick ∷ []

boss_reels_example :
    ((beats (strike ogre (pos 2000)).0 fight).staggered ≡ pos 238)
    × ((beats (strike ogre (pos 2000)).0 fight).meter ≡ int 0)
    × (damage_mult (beats (strike ogre (pos 2000)).0 fight) ≡ default_rules.boss_stagger_dmg)
    × (ticks fight + 1 ≡ 240
        → damage_mult (Boss.step (beats (strike ogre (pos 2000)).0 fight)) ≡ int 1)
unfolding add steps
boss_reels_example =
    boss_reels ogre (strike ogre (pos 2000)).0 (pos 20000) 240 fight refl refl (omega arith)
