-- ===== src/Commands/Dispatch.antt =====
-- commands.py: `Context.call`, `waiting_on` and `dispatch`.
pub mod Came
pub mod Guards
pub mod Total
pub mod Answers
use Prim.Native.String.{◌++◌ as ◌joined◌}
use alzendor.Prelude.{
  ℕ, String, Bool, true, false, not, ◌&&◌, ◌||◌, Option, none, some, List, [], ◌∷◌, ◌==◌,
  if◌then◌else◌,
}
use alzendor.Text.{Unicode, is_empty, or_else, first_chars, is_one_of}
use alzendor.Commands.Data.{
  Verb, Command, Context, Around, Deed, calls, presses, leaves, idle, Tried, ok, hint, crash,
  Effect, called, told, pressed, left,
}
use alzendor.Commands.Table.{commands}
use alzendor.Commands.Parse.{parse}
use alzendor.Commands.Handlers.{handle, command_in}

-- OFFER_HOLDS
abbrev pub offer_holds : List String
offer_holds =
    "discuss" ∷ "greet" ∷ "give" ∷ "choose" ∷ "flee" ∷ "travel" ∷ "move" ∷ "creep" ∷ "disarm"
    ∷ "use" ∷ "learn" ∷ "attune" ∷ "respec" ∷ "equip" ∷ "unequip" ∷ "wear" ∷ "hold" ∷ "remove"
    ∷ "train" ∷ "get" ∷ "drop" ∷ []

-- `waiting_on`
unfoldable pub waiting_on : Around → Option String
waiting_on w =
    if is_empty w.offer
    then none
    else if is_empty w.room || (not (w.is_here w.room w.offer) || not (is_empty w.encounter))
    then none
    else some (or_else (w.npc_name w.offer) "Someone")

module _ (ctx : Context) (w : Around) where
  -- `Context.call`
  unfoldable pub call : String → List String → List Effect
  call function args =
      called function args
      ∷ (if w.answer function args == 0 && ctx.can_tell
          then told "You're not in the world right now." ∷ []
          else [])

  -- `Context.reply`
  abbrev pub reply : String → List Effect
  reply text = call "notify" (text ∷ [])

  unfoldable pub perform : Deed → List Effect
  unfolding call
  perform (calls function args) = call function args
  perform (presses eid press) = pressed eid press ∷ []
  perform (leaves revoke) = left revoke ∷ []
  perform idle = []

  -- What a handler came to; `none` is an exception.
  unfoldable pub finish : String → Tried Deed → Option (List Effect)
  unfolding perform
  finish usage (ok deed) = some (perform deed)
  finish usage (hint why) = some (reply (or_else why ("Usage: " joined usage)))
  finish usage crash = none

  abbrev unknown : String → Option (List Effect)
  unknown name =
      some
        (reply ("Unknown command '" joined (first_chars 20 name joined "'. Type HELP for a list.")))

  -- Who is waiting, if this command is held up by an offer.
  abbrev pub holder : String → Option String
  holder name = if is_one_of name offer_holds then waiting_on w else none

module _ (ctx : Context) (w : Around) (u : Unicode) where
  unfoldable pub run : Command → String → Option (List Effect)
  unfolding finish handle
  run c rest = finish ctx w c.usage (handle u ctx w c.handler rest)

  abbrev pub run_held : Command → String → Option String → Option (List Effect)
  run_held c rest none = run c rest
  run_held c rest (some who) =
      some (reply ctx w (who joined " is waiting for your answer: ACCEPT or DECLINE first."))

  abbrev pub run_found : String → String → Option Command → Option (List Effect)
  run_found name rest none = unknown ctx w name
  run_found name rest (some c) =
      if c.admin && not ctx.is_admin
      then unknown ctx w name
      else run_held c rest (holder ctx w name)

  abbrev pub run_parsed : Option (String × String) → Option (List Effect)
  run_parsed none = some []
  run_parsed (some (name, rest)) = run_found name rest (command_in name (commands u))

  unfoldable pub dispatch : String → Option (List Effect)
  unfolding run waiting_on
  dispatch text = run_parsed (parse u text)
