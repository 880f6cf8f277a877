-- ===== src/Commands/Data.antt =====
-- commands.py: what a command is, what it is run with, and what running it comes to.
use alzendor.Prelude.{ℕ, String, Bool, Option, List}

-- The handlers; `fixed` is one of VERBS.
pub data Verb : Type 0 where
  look inspect inventory who weather discuss greet accept decline whatnow what give : Verb
  choose flee travel move creep disarm : Verb
  say emote describe : Verb
  fixed : (verb : String) (plain targeted : Option String) → Verb
  use_slot learn attune respec quests equip unequip gear wear hold remove dodge block unblock : Verb
  stats train get drop : Verb
  tell chat channels join leave create : Verb
  announce setweather goto setclock : Verb
  help quit logout : Verb

pub record Command : Type 0 where
  pub name : String
  pub usage : String
  pub summary : String
  pub handler : Verb
  pub aliases : List String
  pub admin : Bool
  pub hidden : Bool

-- The player: `can_tell` is whether there is a `tell`.
pub record Context : Type 0 where
  pub pid : String
  pub is_admin : Bool
  pub target : String
  pub can_tell : Bool

-- What Redis answers. An absent text is as an empty one: the code makes no difference.
pub record Around : Type 0 where
  pub encounter : String
  pub offer : String
  pub room : String
  pub is_here : String → String → Bool
  pub npc_name : String → String
  pub answer : String → List String → ℕ

-- An input to a fight.
pub data Press : Type 0 where
  strike : ℕ → String → Press
  dodge block unblock : Press

-- What a handler does.
pub data Deed : Type 0 where
  calls : String → List String → Deed
  presses : String → Press → Deed
  leaves : Bool → Deed
  idle : Deed

-- What a handler comes to: `hint` is the exception Usage, and `crash` any other.
pub data Tried (A : Type 0) : Type 0 where
  ok : A → Tried A
  hint : String → Tried A
  crash : Tried A

infixl 5 ◌>>=◌
abbrev pub ◌>>=◌ : {A B : Type 0} → Tried A → (A → Tried B) → Tried B
ok a >>= f = f a
hint why >>= f = hint why
crash >>= f = crash

-- What a command has done: a call of the game's rules, a text to the client, an input to a fight,
-- or the end of the session.
pub data Effect : Type 0 where
  called : String → List String → Effect
  told : String → Effect
  pressed : String → Press → Effect
  left : Bool → Effect
