-- ===== src/Commands/Handlers/Talks.antt =====
-- commands.py: the handlers of talk, of admins, and of the session.
use Prim.Native.String.{◌++◌ as ◌joined◌}
use text.Mathlib.Text.{◌==◌ as str_eq}
use alzendor.Prelude.{
  ℕ, zero, suc, ◌-◌, String, Bool, true, false, not, ◌||◌, Option, none, some, List, [], ◌∷◌, ◌++◌,
  map, ltb, if◌then◌else◌,
}
use alzendor.Text.{
  Unicode, is_empty, chars, first_chars, strip, words_of, is_one_of, remove_prefix, join_texts,
}
use alzendor.Commands.Data.{
  Command, Context, Around, Deed, calls, leaves, Tried, ok, hint, crash, ◌>>=◌,
}
use alzendor.Commands.Table.{Fixed, verbs, commands}
use alzendor.Commands.Parse.{parse, require, split, channel}

-- The first command of a name.
abbrev pub command_in : String → List Command → Option Command
command_in name [] = none
command_in name (c ∷ cs) =
    let later = command_in name cs in if str_eq name c.name then some c else later

-- The commands that HELP may show.
abbrev pub visible_in : Bool → List Command → List Command
visible_in is_admin [] = []
visible_in is_admin (c ∷ cs) =
    let rest = visible_in is_admin cs in if is_admin || not c.admin then c ∷ rest else rest

abbrev also : Unicode → List String → String
also u [] = ""
also u (one ∷ more) = "\nAlso: " joined join_texts ", " (map u.upper (one ∷ more))

-- A command's help.
abbrev pub help_of : Unicode → String → Option Command → Tried Deed
help_of u rest none = hint ("There's no '" joined (first_chars 20 rest joined "' command."))
help_of u rest (some c) =
    ok (calls "notify" ((c.usage joined ("\n" joined (c.summary joined also u c.aliases))) ∷ []))

abbrev pub help_word : Unicode → Bool → String → Option (String × String) → Tried Deed
help_word u is_admin rest none = crash
help_word u is_admin rest (some (name, more)) =
    help_of u rest (command_in name (visible_in is_admin (commands u)))

abbrev wider : ℕ → ℕ → ℕ
wider a b = if ltb a b then b else a

abbrev width_of : List Command → ℕ
width_of [] = 0
width_of (c ∷ cs) = wider (chars c.usage) (width_of cs)

abbrev spaces : ℕ → String
spaces zero = ""
spaces (suc n) = " " joined spaces n

abbrev verb_names : List Fixed → List String
verb_names [] = []
verb_names (f ∷ fs) = f.verb ∷ verb_names fs

-- The lines of HELP.
abbrev pub help_lines : ℕ → List Command → List String
help_lines width [] = []
help_lines width (c ∷ cs) =
    let rest = help_lines width cs in
    if is_one_of c.name (verb_names verbs) || c.hidden
    then rest
    else ("  "
        joined (c.usage joined (spaces (width - chars c.usage) joined ("  " joined c.summary))))
      ∷ rest

abbrev pub help_all : Unicode → List Command → Tried Deed
help_all u cs = ok (
    calls "notify" (
      join_texts "\n" (
        "Commands:"
        ∷ (help_lines (width_of cs) cs
            ++ (("Emotes: " joined join_texts ", " (map u.upper (verb_names verbs))) ∷ [])))
      ∷ []))

module _ (u : Unicode) (ctx : Context) (w : Around) where
  abbrev pub tell : String → Tried Deed
  tell rest = do
    (target, message) ← split u rest "Usage: TELL <player> <message>"
    ok (calls "tell" (target ∷ message ∷ []))

  abbrev pub chat : String → Tried Deed
  chat rest = do
    (to, message) ← split u rest "Usage: CHAT <channel> <message>"
    name ← channel u to
    ok (calls "chat" (name ∷ message ∷ []))

  abbrev pub channels : String → Tried Deed
  channels rest = ok (calls "channels" [])

  abbrev pub join : String → Tried Deed
  join rest = do
    some_text ← require rest ""
    name ← channel u some_text
    ok (calls "join" (name ∷ []))

  abbrev pub leave : String → Tried Deed
  leave rest = do
    some_text ← require rest ""
    name ← channel u some_text
    ok (calls "leave" (name ∷ []))

  abbrev pub create : String → Tried Deed
  create rest = do
    some_text ← require (strip u.is_space (remove_prefix "channel " rest)) ""
    name ← channel u some_text
    ok (calls "create_channel" (name ∷ []))

  abbrev pub announce : String → Tried Deed
  announce rest = do
    (scope, message) ← split u rest "Usage: ANNOUNCE AREA|REGION|REALM <message>"
    (if not (is_one_of scope ("area" ∷ "region" ∷ "realm" ∷ []))
        then hint "Usage: ANNOUNCE AREA|REGION|REALM <message>"
        else ok (calls "announce" (scope ∷ message ∷ [])))

  -- "clear", or three values.
  abbrev pub weather_values : List String → Tried Deed
  weather_values (value ∷ []) =
      if str_eq value "clear"
      then ok (calls "set_weather" (value ∷ []))
      else hint
          "Usage: SETWEATHER <temperature> <energy> <precipitation> (each -1 to 1), or SETWEATHER CLEAR."
  weather_values (a ∷ (b ∷ (c ∷ []))) = ok (calls "set_weather" (a ∷ b ∷ c ∷ []))
  weather_values values =
      hint
        "Usage: SETWEATHER <temperature> <energy> <precipitation> (each -1 to 1), or SETWEATHER CLEAR."

  abbrev pub setweather : String → Tried Deed
  setweather rest = weather_values (words_of u.is_space (u.lower rest))

  abbrev pub goto : String → Tried Deed
  goto rest = do
    room ← require (u.lower (strip u.is_space rest)) "Usage: GOTO <room id>"
    ok (calls "goto" (room ∷ []))

  abbrev pub setclock : String → Tried Deed
  setclock rest =
      let value = strip u.is_space (u.lower rest) in
      if is_empty value
      then hint "Usage: SETCLOCK <hour 0-23>, or SETCLOCK CLEAR."
      else ok (calls "set_clock" (value ∷ []))

  abbrev pub help : String → Tried Deed
  help rest =
      if not (is_empty rest)
      then help_word u ctx.is_admin rest (parse u rest)
      else help_all u (visible_in ctx.is_admin (commands u))

  abbrev pub quit : String → Tried Deed
  quit rest = ok (leaves false)

  abbrev pub logout : String → Tried Deed
  logout rest = ok (leaves true)
