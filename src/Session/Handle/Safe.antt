-- ===== src/Session/Handle/Safe.antt =====
-- What a message of any form may do, by `_handle` of session.py.
use text.Mathlib.Text.{◌==◌ as str_eq}
use alzendor.Prelude.{
  ℕ, String, Bool, true, false, not, ◌≡◌, refl, Option, none, some, List, if◌then◌else◌,
}
use alzendor.Text.{Unicode}
use alzendor.Commands.Data.{Context, Around}
use alzendor.Commands.Parse.{target_id}
use alzendor.Commands.Parse.Tidy.{HasBlank}
use alzendor.Commands.Dispatch.{dispatch}
use alzendor.Commands.Dispatch.Guards.{every, outside, admin_functions, dispatch_admin}
use alzendor.Commands.Dispatch.Total.{dispatch-Total}
use alzendor.Session.Data.{Json, Message, Session}
use alzendor.Session.Rate.{take_allowance}
use alzendor.Session.Handle.{
  Reply, text_in, ping, input_of, answered, command, command_text, handle,
}

-- Only commands have effects, no player's command that is no admin's has an admin's, and no command
-- fails.
abbrev pub IsSafe : Bool → Reply → Type 0
IsSafe admin (Reply.effects es) = admin ≡ false → every (outside true admin_functions) es ≡ true
IsSafe admin (Reply.error why) = str_eq why "Something went wrong with that command." ≡ false
IsSafe admin Reply.nothing = Unit
IsSafe admin (Reply.pong t) = Unit
IsSafe admin (Reply.input e o fields) = Unit

-- The same, of a reply beside the session.
pub record Safe (admin : Bool) (r : Session × Reply) : Type 0 where
  pub safe : IsSafe admin r.1

module _ (admin : Bool) where
  Safe-if :
      (b : Bool) (x y : Session × Reply)
      → Safe admin x
      → Safe admin y
      → Safe admin (if b then x else y)
  Safe-if true x y h k = h
  Safe-if false x y h k = k

  Safe-nothing : (s : Session) → Safe admin (s, Reply.nothing)
  Safe-nothing s = record { safe = tt }

  Safe-pong : (s : Session) (t : Json) → Safe admin (s, Reply.pong t)
  Safe-pong s t = record { safe = tt }

  Safe-input :
      (s : Session) (e o : String) (f : List (String × Json)) → Safe admin (s, Reply.input e o f)
  Safe-input s e o f = record { safe = tt }

module _ (u : Unicode) (ctx : Context) (w : Around) (b : HasBlank u) where
  answered-Safe :
      (s : Session) (c : Context) (text : String)
      → Safe c.is_admin (s, answered (dispatch c w u text))
  answered-Safe s c text =
      let (es, e) = dispatch-Total c w u text b in
      record { safe = rw e (λ no_admin. dispatch_admin u c w text es no_admin e) }

  command-Safe :
      (s : Session) (now : ℕ) (m : Message) (text : String)
      → Safe ctx.is_admin (command u ctx w s now m text)
  unfolding command
  command-Safe s now m text =
      let (s', ok) = take_allowance (record s { last_active = now }) now in
      let c : Context = record ctx { target = target_id (text_in (m "target")) } in
      Safe-if ctx.is_admin (not ok) (s', Reply.error "Slow down a little.")
        (s', answered (dispatch c w u text)) (record { safe = refl }) (answered-Safe s' c text)

  command_text-Safe :
      (s : Session) (now : ℕ) (m : Message) (o : Option String)
      → Safe ctx.is_admin (command_text u ctx w s now m o)
  command_text-Safe s now m none = record { safe = refl }
  command_text-Safe s now m (some text) = command-Safe s now m text

  input_of-Safe :
      (pid : String) (s : Session) (now : ℕ) (m : Message)
      → Safe ctx.is_admin (input_of pid s now m)
  unfolding input_of
  input_of-Safe pid s now m = search (Safe-if, Safe-nothing, Safe-input)

  ping-Safe : (s : Session) (now : ℕ) (m : Message) → Safe ctx.is_admin (ping s now m)
  ping-Safe s now m = search (Safe-if, Safe-nothing, Safe-pong)

  pub handle-Safe :
      (s : Session) (now : ℕ) (m : Message) → Safe ctx.is_admin (handle u ctx w s now m)
  unfolding handle
  handle-Safe s now m = search (Safe-if, ping-Safe, input_of-Safe, command_text-Safe)
