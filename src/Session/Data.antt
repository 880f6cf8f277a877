-- ===== src/Session/Data.antt =====
-- session.py: the state of a Session, and the messages that it reads.
use alzendor.Prelude.{ℕ, String, List}
use alzendor.Prelude.Int.{ℤ}

-- A value of JSON: `real` is a float as it is written, and `other` what the code looks no further at.
pub data Json : Type 0 where
  null other : Json
  int : ℤ → Json
  real text : String → Json

-- The fields of a message: an absent one is null, as `get` has it. A message that is no object has
-- none, and the code makes no difference.
abbrev pub Message : Type 0
Message = String → Json

-- Times are in milliseconds of the monotonic clock, and the allowance is in thousandths of a message.
-- An absent encounter is an empty text.
pub record Session : Type 0 where
  pub allowance : ℕ
  pub last_command : ℕ
  pub last_ping : ℕ
  pub last_active : ℕ
  pub inputs : List ℕ
  pub encounter : String
  pub owner : String
