-- ===== src/Commands/Dispatch/Answers.antt =====
-- `dispatch` of commands.py does something about whatever is typed.
use text.Mathlib.Text.{◌==◌ as str_eq}
use alzendor.Prelude.{String, Bool, true, not, ◌||◌, ◌≡◌, Option, some}
use alzendor.Text.{is_empty}
use alzendor.Commands.Data.{Command, Around}
use alzendor.Commands.Handlers.Does.{Does, is_unblock}
use alzendor.Commands.Dispatch.Came.{Came}

abbrev named_unblock : Command → Bool
named_unblock c = not (is_unblock c.handler) || str_eq c.name "unblock"

-- UNBLOCK, where there is no fight.
abbrev pub IsLowered : Around → Option (String × String) → Type 0
IsLowered w parsed =
    (rest : String) × (parsed ≡ some ("unblock", rest)) × (is_empty w.encounter ≡ true)
