-- ===== src/Encounter/Data.antt =====
-- What the owner of an encounter keeps: `Attack`, `Npc` and `Player` of encounter.py, and the
-- consequences that a step has for the world.
--
-- A dict that the code walks is a list in the order of its keys. Texts of JSON arrive as the
-- values they stand for; a field that the code reads with `or` and a default is an Option, none
-- where it is missing or 0.
use alzendor.Prelude.{ℕ, String, Bool, Option, List}
use alzendor.Prelude.Int.{ℤ}
use alzendor.Balance.Dot.{Curse, Defend, Blow, Dot, Act, Refused, Reason, Result}
use alzendor.Balance.Snapshot.{Snapshot}
use alzendor.Balance.Boss.{Boss}

-- `info` of an attack.
pub record AttackInfo (F : Type 0) : Type 0 where
  pub period : Option F
  pub warn : Option F
  pub kick : F
  pub defend : Defend
  pub stagger : Bool
  pub debuff : Option (Curse F)

-- An NPC joins at or after the encounter's start, so the steps that it lands on are not negative.
pub record Attack (F : Type 0) : Type 0 where
  pub n : ℕ
  pub info : AttackInfo F
  pub period : ℕ
  pub warn : ℤ
  pub land : ℕ
  pub angle : Option F
  pub target : Option String

pub record Npc (F : Type 0) : Type 0 where
  pub nid : String
  pub join : ℕ
  pub attacks : List (Attack F)
  pub boss : Option (Boss F)

-- A blow that lands in a step, with the attack that made it.
pub record Incoming (F : Type 0) : Type 0 where
  pub target : String
  pub nid : String
  pub n : ℕ
  pub blow : Blow F

-- Why the owner refuses something, beside the reasons of the dot.
pub data Denied : Type 0 where
  of_dot : Refused → Reason → Denied
  no_target : ℕ → Denied
  flee_not_steady : Denied

pub data Passive : Type 0 where
  second_wind seal : Passive

-- A consequence of a step, to carry out in Lua. "how" of a blow that no dot met is `hit`.
pub data Call : Type 0 where
  strike : (pid : String) (slot : ℕ) (target : Option String) (tier hit hits : ℕ) → Call
  blow : (nid : String) (n : ℕ) (pid : String) (how : Result) → Call
  poise : String → Call
  passive : String → Passive → Call
  note : String → Call
  flee : String → String → Call
  refused : String → Denied → Call

-- A step of the past: [global step, snapshot before it, keys, acts, blows, what it reported].
pub record Entry (F : Type 0) : Type 0 where
  pub at : ℕ
  pub snap : Snapshot F
  pub keys : ℕ
  pub acts : List Act
  pub blows : List (Blow F)
  pub reported : List Call

-- `effect` and `kick` of the gear in a slot.
pub record GearInfo (F : Type 0) : Type 0 where
  pub effect : String
  pub kick : F

-- `info` is what the code reads of it: `join_ms`, `name` and `berserk`.
pub record Player (F : Type 0) : Type 0 where
  pub pid : String
  pub join_ms : ℕ
  pub name : String
  pub berserk : Bool
  pub join : ℤ
  pub dot : Dot F
  pub gear : ℕ → Option (GearInfo F)
  pub keys : ℕ
  pub seq : ℤ
  pub acts : List Act
  pub flee : Option String
  pub sealed : Bool
  pub history : List (Entry F)
  pub scratch : Dot F
