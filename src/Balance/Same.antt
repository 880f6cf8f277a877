-- ===== src/Balance/Same.antt =====
-- Two views of a dot, of what a part of a step leaves alone.
use alzendor.Prelude.{ℕ, String, Bool, Option, List, []}
use alzendor.Prelude.Int.{ℤ}
use alzendor.Balance.Rules.{Rules}
use alzendor.Balance.Dot.{Gear, Volley, Dot}

-- Who the dot is, its clock and its random stream: only the first part of a step changes them.
pub record Kit (F : Type 0) : Type 0 where
  pub rules : Rules F
  pub slots : ℕ → Option (Gear F)
  pub shield : Bool
  pub perks : String → Bool
  pub n : ℕ
  pub rng : ℕ

abbrev pub kit : {F : Type 0} → Dot F → Kit F
kit d = record {
  rules = d.rules;
  slots = d.slots;
  shield = d.shield;
  perks = d.perks;
  n = d.n;
  rng = d.rng;
}

-- The kit, with what only strikes change after that.
pub record Arms (F : Type 0) : Type 0 where
  pub kit : Kit F
  pub cool : ℕ → ℤ
  pub volleys : List (Volley F)

abbrev pub arms : {F : Type 0} → Dot F → Arms F
arms d = record { kit = kit d; cool = d.cool; volleys = d.volleys }

-- The arms, with what only acts change after that.
pub record Kept (F : Type 0) : Type 0 where
  pub arms : Arms F
  pub blocking : Bool
  pub block_n : ℕ
  pub dodge_cd : ℤ
  pub invuln : ℤ
  pub wobble_after : Bool

abbrev pub kept : {F : Type 0} → Dot F → Kept F
kept d = record {
  arms = arms d;
  blocking = d.blocking;
  block_n = d.block_n;
  dodge_cd = d.dodge_cd;
  invuln = d.invuln;
  wobble_after = d.wobble_after;
}

-- The same but for the volleys.
abbrev pub hush : {F : Type 0} → Kept F → Kept F
hush k = record k { arms = record k.arms { volleys = [] } }

abbrev pub quiet : {F : Type 0} → Dot F → Kept F
quiet d = hush (kept d)

-- Whether and how long the dot is staggered, and immune to it.
pub record Stance : Type 0 where
  pub stagger : ℤ
  pub immune : ℤ

abbrev pub stance : {F : Type 0} → Dot F → Stance
stance d = record { stagger = d.stagger; immune = d.immune }
