-- ===== src/Commands/Table.antt =====
-- commands.py: the registry, and the fixed verbs.
mod Rows
use Prim.Native.String.{◌++◌ as ◌joined◌}
use alzendor.Prelude.{
  String, Bool, true, false, Option, none, some, List, [], ◌∷◌, ◌++◌, map, if◌then◌else◌,
}
use alzendor.Text.{Unicode, is_one_of}
use Rows.{looking, moving, acting, describing, fighting, training, talking, ruling, leaving}
use alzendor.Commands.Data.{Verb, Command}

-- A fixed verb: its text without a target, and with one; none is a form that is not allowed.
pub record Fixed : Type 0 where
  pub verb : String
  pub plain : Option String
  pub targeted : Option String

-- VERBS
abbrev pub verbs : List Fixed
verbs =
    record {
      verb = "wave";
      plain = some "{actor} waves.";
      targeted = some "{actor} waves at {target}.";
    }
    ∷ record {
      verb = "nod";
      plain = some "{actor} nods.";
      targeted = some "{actor} nods to {target}.";
    }
    ∷ record {
      verb = "bow";
      plain = some "{actor} bows.";
      targeted = some "{actor} bows to {target}.";
    }
    ∷ record {
      verb = "smile";
      plain = some "{actor} smiles.";
      targeted = some "{actor} smiles at {target}.";
    }
    ∷ record {
      verb = "laugh";
      plain = some "{actor} laughs.";
      targeted = some "{actor} laughs at {target}.";
    }
    ∷ record {
      verb = "dance";
      plain = some "{actor} dances.";
      targeted = some "{actor} dances with {target}.";
    }
    ∷ record {
      verb = "cheer";
      plain = some "{actor} cheers.";
      targeted = some "{actor} cheers for {target}.";
    }
    ∷ record { verb = "point"; plain = none; targeted = some "{actor} points at {target}." }
    ∷ record { verb = "poke"; plain = none; targeted = some "{actor} pokes {target}." }
    ∷ record { verb = "touch"; plain = none; targeted = some "{actor} touches {target}." }
    ∷ record {
      verb = "sit";
      plain = some "{actor} sits down.";
      targeted = some "{actor} sits on {target}.";
    }
    ∷ record { verb = "stand"; plain = some "{actor} stands up."; targeted = none }
    ∷ []

abbrev fixed_usage : String → Option String → Option String → String
fixed_usage verb plain none = verb
fixed_usage verb none (some targeted) = verb joined " <thing>"
fixed_usage verb (some plain) (some targeted) = verb joined " [<thing>]"

-- The command of a fixed verb.
abbrev pub fixed_command : Unicode → Fixed → Command
fixed_command u f = record {
  name = f.verb;
  usage = fixed_usage (u.upper f.verb) f.plain f.targeted;
  summary = "Emote: " joined (f.verb joined ".");
  handler = Verb.fixed f.verb f.plain f.targeted;
  aliases = [];
  admin = false;
  hidden = false;
}

-- COMMANDS, in the order of the registrations. No two have one name.
unfoldable pub commands : Unicode → List Command
commands u =
    looking
    ++ (moving
        ++ (acting
            ++ (map (fixed_command u) verbs
                ++ (describing ++ (fighting ++ (training ++ (talking ++ (ruling ++ leaving))))))))

-- ALIASES.get: the command of an alias, the last one's that has it.
abbrev pub alias_in : String → List Command → Option String
alias_in word [] = none
alias_in word (c ∷ cs) = elim (alias_in word cs) [
  | some name ↦ some name
  | none ↦ if is_one_of word c.aliases then some c.name else none
]
