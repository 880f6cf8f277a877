-- ===== src/Commands/Dispatch/Came.antt =====
-- The ways that `dispatch` of commands.py comes to an end.
use alzendor.Prelude.{
  String, false, not, ◌&&◌, ◌≡◌, refl, Option, none, some, List, [], Bool-cases, inl, inr,
}
use alzendor.Text.{Unicode}
use alzendor.Commands.Data.{Command, Context, Around, Effect}
use alzendor.Commands.Table.{commands}
use alzendor.Commands.Parse.{parse}
use alzendor.Commands.Handlers.{command_in}
use alzendor.Commands.Dispatch.{holder, reply, run, run_held, run_found, run_parsed, dispatch}

module _ (u : Unicode) (ctx : Context) (w : Around) where
  -- Nothing was typed, a reply, or a command that the player may run and that no offer holds up.
  pub data Came (parsed : Option (String × String)) (es : List Effect) : Type 0 where
    nothing : parsed ≡ none → es ≡ [] → Came parsed es
    answered : (text : String) → some (reply ctx w text) ≡ some es → Came parsed es
    ran :
        (name rest : String) (c : Command)
        → parsed ≡ some (name, rest)
        → command_in name (commands u) ≡ some c
        → (c.admin && not ctx.is_admin) ≡ false
        → holder ctx w name ≡ none
        → run ctx w u c rest ≡ some es
        → Came parsed es

  held-Came :
      (name rest : String) (c : Command) (h : Option String) (es : List Effect)
      → holder ctx w name ≡ h
      → command_in name (commands u) ≡ some c
      → (c.admin && not ctx.is_admin) ≡ false
      → run_held ctx w u c rest h ≡ some es
      → Came (some (name, rest)) es
  held-Came name rest c none es e f g r = ran name rest c refl f g e r
  held-Came name rest c (some who) es e f g r = answered _ r

  found-Came :
      (name rest : String) (found : Option Command) (es : List Effect)
      → command_in name (commands u) ≡ found
      → run_found ctx w u name rest found ≡ some es
      → Came (some (name, rest)) es
  found-Came name rest none es f r = answered _ r
  found-Came name rest (some c) es f r = elim (Bool-cases (c.admin && not ctx.is_admin)) [
    | inl no_admin ↦ answered _ (rw no_admin at r)
    | inr may ↦ held-Came name rest c _ es refl f may (rw may at r)
  ]

  pub parsed-Came :
      (parsed : Option (String × String)) (es : List Effect)
      → run_parsed ctx w u parsed ≡ some es
      → Came parsed es
  parsed-Came none es r = nothing refl (cc)
  parsed-Came (some (name, rest)) es r = found-Came name rest _ es refl r

  pub dispatch-Came :
      (text : String) (es : List Effect) → dispatch ctx w u text ≡ some es → Came (parse u text) es
  unfolding dispatch
  dispatch-Came text es r = parsed-Came (parse u text) es r
