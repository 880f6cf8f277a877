-- ===== src/Balance/Rules.antt =====
-- The fixed step, and the balance rules: `steps`, `Rules` and `Rules.for_player` of balance.py.
use alzendor.Prelude.Int.{ℤ}
use alzendor.Real.{Real, ◌+F◌, ◌-F◌, ◌*F◌, ◌/F◌, int, dec, max_F}

pub record Rules (F : Type 0) : Type 0 where
  pub core : F
  pub perfect_r : F
  pub clean_r : F
  pub damping : F
  pub block_damping : F
  pub push : F
  pub gravity : F
  pub gravity_falloff : F
  -- the tuple `well_radius`
  pub well_lo : F
  pub well_hi : F
  pub well_speed : F
  pub warn_ms : F
  pub buffer_ms : F
  pub stagger_ms : F
  pub stagger_dmg : F
  pub stagger_kick : F
  pub stagger_immune_ms : F
  pub dodge_ms : F
  pub dodge_cd_ms : F
  pub global_cd_ms : F
  pub wobble_ms : F
  pub block_cut : F
  pub block_kick : F
  pub perfect_block_poise : F
  pub boss_stagger_ms : F
  pub boss_stagger_dmg : F
  pub boss_poise_decay : F
  pub damage_scale : F
  pub defend_perfect_ms : F
  pub debuff_scale : F

module _ {F : Type 0} ⦃r : Real F⦄ where
  -- Milliseconds as whole simulation steps.
  unfoldable pub steps : F → ℤ
  steps ms = r.floor (ms *F int 60 /F int 1000 +F dec 1 2)

  -- DT
  abbrev pub dt : F
  dt = int 1 /F int 60

  -- TAU
  abbrev pub tau : F
  tau = int 2 *F r.pi

  -- The defaults of the class's fields.
  abbrev pub default_rules : Rules F
  default_rules = record {
    core = dec 22 100;
    perfect_r = dec 6 100;
    clean_r = dec 14 100;
    damping = dec 25 10;
    block_damping = int 10;
    push = dec 26 10;
    gravity = dec 9 10;
    gravity_falloff = dec 3 10;
    well_lo = dec 5 10;
    well_hi = dec 85 100;
    well_speed = dec 3 10;
    warn_ms = int 1500;
    buffer_ms = int 100;
    stagger_ms = int 1200;
    stagger_dmg = dec 15 10;
    stagger_kick = dec 18 10;
    stagger_immune_ms = int 3000;
    dodge_ms = int 600;
    dodge_cd_ms = int 3000;
    global_cd_ms = int 0;
    wobble_ms = int 2500;
    block_cut = dec 7 10;
    block_kick = dec 15 100;
    perfect_block_poise = int 40;
    boss_stagger_ms = int 4000;
    boss_stagger_dmg = dec 15 10;
    boss_poise_decay = int 5;
    damage_scale = int 1;
    defend_perfect_ms = int 60;
    debuff_scale = int 1;
  }

  -- `for_player` with its STAT_FACTORS.
  unfoldable pub for_player : Rules F → F → F → F → Rules F
  for_player rules poise focus resilience = record rules {
    core = rules.core *F (int 1 +F dec 4 100 *F poise);
    perfect_r = rules.perfect_r *F (int 1 +F dec 5 100 *F focus);
    debuff_scale = max_F (int 1 -F dec 5 10) (int 1 -F dec 5 100 *F resilience);
  }
