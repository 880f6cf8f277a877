-- ===== src/Balance/Dot.antt =====
-- The data of the simulation: `Gear`, `Blow`, `Dot` of balance.py, its inputs and its events.
use alzendor.Prelude.{ℕ, String, Bool, true, false, Option, none, some, List, [], if◌then◌else◌}
use alzendor.Prelude.Int.{ℤ, pos, negsuc, is_positive}
use alzendor.Real.{Real, ◌+F◌, ◌-F◌, ◌*F◌, ◌/F◌, ◌<F◌, int, dec}
use alzendor.Balance.Rng
use alzendor.Balance.Rules.{Rules, tau}

-- `pattern`: any text but "side" and "taps" is `bump`.
pub data Pattern : Type 0 where
  bump side taps : Pattern

-- A debuff as gear and blows name it: {"kind", "strength", "ms"}.
pub record Curse (F : Type 0) : Type 0 where
  pub kind : String
  pub strength : F
  pub ms : F

pub record Gear (F : Type 0) : Type 0 where
  pub cooldown : F
  pub kick : F
  pub pattern_of : Pattern
  pub hits : ℕ
  pub gap : F
  pub debuff : Option (Curse F)

-- `defend`, what can meet a blow: "both", "block", "dodge" and "none".
pub data Defend : Type 0 where
  both only_block only_dodge neither : Defend

pub record Blow (F : Type 0) : Type 0 where
  pub kick : F
  pub angle : F
  pub defend : Defend
  pub stagger : Bool
  pub debuff : Option (Curse F)
  pub parting : Bool

-- A debuff that runs: [strength, steps left, steps in all].
pub record Debuff (F : Type 0) : Type 0 where
  pub strength : F
  pub left : ℕ
  pub total : ℕ

-- A buffered strike: [slot, target, steps left].
pub record Pending : Type 0 where
  pub slot : ℕ
  pub target : Option String
  pub left : ℤ

-- [slot, target, tier, next hit, steps to it, angle]
pub record Volley (F : Type 0) : Type 0 where
  pub slot : ℕ
  pub target : Option String
  pub tier : ℕ
  pub hit : ℕ
  pub wait : ℕ
  pub angle : F

-- The dicts `slots` and `debuffs` and the set `perks` are functions of their keys. Of `cool` the
-- code reads `.get(slot, 0)` and counts down what is above 0, so a missing slot is one at 0.
pub record Dot (F : Type 0) : Type 0 where
  pub rules : Rules F
  pub slots : ℕ → Option (Gear F)
  pub shield : Bool
  pub x : F
  pub y : F
  pub vx : F
  pub vy : F
  pub well_a : F
  pub well_r : F
  pub well_target : F
  pub spin : ℤ
  pub n : ℕ
  pub cool : ℕ → ℤ
  pub dodge_cd : ℤ
  pub invuln : ℤ
  pub wobble_after : Bool
  pub stagger : ℤ
  pub sx : F
  pub sy : F
  pub immune : ℤ
  pub debuffs : String → Option (Debuff F)
  pub blocking : Bool
  pub block_n : ℕ
  pub wobble_clock : F
  pub pending : Option Pending
  pub volleys : List (Volley F)
  pub draws : F × F × F × F
  pub rng : ℕ
  pub perks : String → Bool
  pub breath : ℤ
  pub steadied : Bool
  pub knocked : Bool
  pub inside : Bool

-- What a client asks of its dot.
pub data Act : Type 0 where
  strike : ℕ → Option String → Act
  dodge block unblock : Act

pub data Reason : Type 0 where
  staggered not_steady cooldown empty blocking no_shield : Reason

-- "act" of a refusal.
pub data Refused : Type 0 where
  strike : ℕ → Refused
  dodge block : Refused

-- `result` of a blow: "parting", "dodge", "block", "perfect_block", "staggered" and "hit".
pub data Result : Type 0 where
  parting dodged blocked perfect_block while_staggered hit : Result

pub data Event : Type 0 where
  strike : (slot : ℕ) (target : Option String) (tier hit hits : ℕ) → Event
  refused : Refused → Reason → Event
  dodge recover steadied second_wind rim_stagger blow_stagger : Event
  -- its result, and whether it staggered the dot
  blow : Result → Bool → Event

module _ {F : Type 0} ⦃r : Real F⦄ where
  -- A draw of the dot's stream, in [0, 1): the new state and the float.
  abbrev pub uniform : ℕ → ℕ × F
  uniform s = let (s', u) = Rng.next s in (s', int u /F int Rng.word)

  abbrev pub dist : Dot F → F
  dist d = r.sqrt (d.x *F d.x +F d.y *F d.y)

  -- The core's radius now: 20% larger while Long Breath lasts.
  abbrev pub core : Dot F → F
  core d = if is_positive d.breath then d.rules.core *F dec 12 10 else d.rules.core

  abbrev strength_now : Option (Debuff F) → F
  strength_now none = int 0
  strength_now (some e) = e.strength *F int e.left /F int e.total

  abbrev pub fade : Dot F → String → F
  fade d kind = strength_now (d.debuffs kind)

  -- `Dot.__init__` with its `__post_init__`.
  unfoldable pub new_dot : Rules F → ℕ → (ℕ → Option (Gear F)) → Bool → (String → Bool) → Dot F
  new_dot rules seed slots shield perks =
      let (s1, u1) = uniform (Rng.start seed) in
      let (s2, u2) = uniform s1 in
      let (s3, u3) = uniform s2 in
      let well_r = rules.well_lo +F (rules.well_hi -F rules.well_lo) *F u2 in
      record {
        rules = rules;
        slots = slots;
        shield = shield;
        x = int 0;
        y = int 0;
        vx = int 0;
        vy = int 0;
        well_a = u1 *F tau;
        well_r = well_r;
        well_target = well_r;
        spin = if u3 <F dec 1 2 then negsuc 0 else pos 1;
        n = 0;
        cool = λ slot. pos 0;
        dodge_cd = pos 0;
        invuln = pos 0;
        wobble_after = false;
        stagger = pos 0;
        sx = int 0;
        sy = int 0;
        immune = pos 0;
        debuffs = λ kind. none;
        blocking = false;
        block_n = 0;
        wobble_clock = int 0;
        pending = none;
        volleys = [];
        draws = (int 0, int 0, int 0, int 0);
        rng = s3;
        perks = perks;
        breath = pos 0;
        steadied = false;
        knocked = false;
        inside = true;
      }

  unfoldable pub make_dot :
      Rules F → List ℕ → List ℕ → (ℕ → Option (Gear F)) → Bool → (String → Bool) → Dot F
  unfolding new_dot
  make_dot rules encounter_seed pid slots shield perks =
      new_dot rules (Rng.seed_for encounter_seed pid) slots shield perks

abbrev pub is_staggered : {F : Type 0} → Dot F → Bool
is_staggered d = is_positive d.stagger
