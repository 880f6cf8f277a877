-- ===== src/Balance/Snapshot.antt =====
-- `snapshot` and `restore` of balance.py. That a snapshot keys its dicts by texts of numbers, and
-- `restore` reads them back, is left out: a dict is a function of its numbers on both sides.
pub mod Resume
use alzendor.Prelude.{ℕ, String, Bool, Option, List, if◌then◌else◌}
use alzendor.Prelude.Int.{ℤ, pos, is_positive}
use alzendor.Balance.Dot.{Debuff, Pending, Volley, Dot}

-- The names in SNAPSHOT, and what `snapshot` adds to them.
pub record Snapshot (F : Type 0) : Type 0 where
  pub n : ℕ
  pub x : F
  pub y : F
  pub vx : F
  pub vy : F
  pub well_a : F
  pub well_r : F
  pub well_target : F
  pub spin : ℤ
  pub dodge_cd : ℤ
  pub invuln : ℤ
  pub wobble_after : Bool
  pub stagger : ℤ
  pub sx : F
  pub sy : F
  pub immune : ℤ
  pub blocking : Bool
  pub block_n : ℕ
  pub wobble_clock : F
  pub breath : ℤ
  pub steadied : Bool
  pub knocked : Bool
  pub inside : Bool
  pub rng : ℕ
  pub cool : ℕ → ℤ
  pub debuffs : String → Option (Debuff F)
  pub pending : Option Pending
  pub volleys : List (Volley F)

-- Only cooldowns above 0 are kept.
abbrev pub running : ℤ → ℤ
running t = if is_positive t then t else pos 0

module _ {F : Type 0} where
  unfoldable pub snapshot : Dot F → Snapshot F
  snapshot d = record {
    n = d.n;
    x = d.x;
    y = d.y;
    vx = d.vx;
    vy = d.vy;
    well_a = d.well_a;
    well_r = d.well_r;
    well_target = d.well_target;
    spin = d.spin;
    dodge_cd = d.dodge_cd;
    invuln = d.invuln;
    wobble_after = d.wobble_after;
    stagger = d.stagger;
    sx = d.sx;
    sy = d.sy;
    immune = d.immune;
    blocking = d.blocking;
    block_n = d.block_n;
    wobble_clock = d.wobble_clock;
    breath = d.breath;
    steadied = d.steadied;
    knocked = d.knocked;
    inside = d.inside;
    rng = d.rng;
    cool = λ slot. running (d.cool slot);
    debuffs = d.debuffs;
    pending = d.pending;
    volleys = d.volleys;
  }

  unfoldable pub restore : Dot F → Snapshot F → Dot F
  restore d s = record d {
    n = s.n;
    x = s.x;
    y = s.y;
    vx = s.vx;
    vy = s.vy;
    well_a = s.well_a;
    well_r = s.well_r;
    well_target = s.well_target;
    spin = s.spin;
    dodge_cd = s.dodge_cd;
    invuln = s.invuln;
    wobble_after = s.wobble_after;
    stagger = s.stagger;
    sx = s.sx;
    sy = s.sy;
    immune = s.immune;
    blocking = s.blocking;
    block_n = s.block_n;
    wobble_clock = s.wobble_clock;
    breath = s.breath;
    steadied = s.steadied;
    knocked = s.knocked;
    inside = s.inside;
    rng = s.rng;
    cool = s.cool;
    debuffs = s.debuffs;
    pending = s.pending;
    volleys = s.volleys;
  }
