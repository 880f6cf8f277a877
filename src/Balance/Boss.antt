-- ===== src/Balance/Boss.antt =====
-- A boss's stagger meter: `Boss` of balance.py.
pub mod Reel
use alzendor.Prelude.{ℕ, Bool, true, false, not, List, [], ◌∷◌, if◌then◌else◌}
use alzendor.Prelude.Int.{ℤ, pos, pred_ℤ, is_zero}
use alzendor.Real.{Real, ◌+F◌, ◌-F◌, ◌*F◌, ◌≤F◌, int, max_F}
use alzendor.Balance.Rules.{Rules, steps, dt}

pub record Boss (F : Type 0) : Type 0 where
  pub poise : F
  pub rules : Rules F
  pub meter : F
  pub staggered : ℤ

-- `if self.staggered:`
abbrev pub reels : {F : Type 0} → Boss F → Bool
reels b = not (is_zero b.staggered)

module _ {F : Type 0} ⦃r : Real F⦄ where
  -- A meter that stands at `level` now: full, or not.
  abbrev filled : Boss F → F → Boss F × Bool
  filled b level =
      if b.poise ≤F level
      then (record b { meter = int 0; staggered = steps b.rules.boss_stagger_ms }, true)
      else (record b { meter = level }, false)

  unfoldable pub add : Boss F → F → Boss F × Bool
  add b amount = if reels b then (b, false) else filled b (b.meter +F amount)

  -- `strike` and `perfect_block`
  abbrev pub strike : Boss F → F → Boss F × Bool
  strike b kick = add b (kick *F int 10)

  abbrev pub perfect_block : Boss F → Boss F × Bool
  perfect_block b = add b b.rules.perfect_block_poise

  unfoldable pub step : Boss F → Boss F
  step b =
      if reels b
      then record b { staggered = pred_ℤ b.staggered }
      else record b { meter = max_F (int 0) (b.meter -F b.rules.boss_poise_decay *F dt) }

  abbrev pub damage_mult : Boss F → F
  damage_mult b = if reels b then b.rules.boss_stagger_dmg else int 1

-- What comes to a boss in a fight.
pub data Beat (F : Type 0) : Type 0 where
  struck : F → Beat F
  blocked tick : Beat F

abbrev pub ticks : {F : Type 0} → List (Beat F) → ℕ
ticks [] = 0
ticks (tick ∷ bs) = Prim.Native.Nat.suc (ticks bs)
ticks (blocked ∷ bs) = ticks bs
ticks (struck kick ∷ bs) = ticks bs

module _ {F : Type 0} ⦃r : Real F⦄ where
  unfoldable pub beat : Boss F → Beat F → Boss F
  unfolding add step
  beat b (struck kick) = (strike b kick).0
  beat b blocked = (perfect_block b).0
  beat b tick = step b

  unfoldable pub beats : Boss F → List (Beat F) → Boss F
  unfolding beat
  beats b [] = b
  beats b (e ∷ es) = beats (beat b e) es
