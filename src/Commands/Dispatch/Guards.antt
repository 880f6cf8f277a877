-- ===== src/Commands/Dispatch/Guards.antt =====
-- What `dispatch` of commands.py keeps from a player: the commands of admins, and, while an offer
-- waits for an answer, the commands that it holds up.
use text.Mathlib.Text.{◌==◌ as str_eq}
use alzendor.Prelude.{
  String, Bool, true, false, not, ◌&&◌, ◌||◌, ◌≡◌, ◌∙◌, refl, ap, sym, subst, Option, none, some,
  List, [], ◌∷◌, Bool-cases, inl, inr, arith, eq_iff,
}
use alzendor.Text.{Unicode, is_empty, is_one_of}
use alzendor.Commands.Data.{
  Verb, Command, Context, Around, Deed, calls, presses, leaves, idle, Tried, ok, hint, crash,
  Effect, called, told, pressed, left,
}
use alzendor.Commands.Table.{commands}
use alzendor.Commands.Handlers.{command_in}
use alzendor.Commands.Handlers.Does.{Does, allowed, fits, handle-Does}
use alzendor.Commands.Dispatch.Came.{Came, dispatch-Came}
use alzendor.Commands.Dispatch.{
  offer_holds, waiting_on, call, reply, perform, finish, holder, run, dispatch,
}

-- Every effect passes the test.
abbrev pub every : (Effect → Bool) → List Effect → Bool
every test [] = true
every test (e ∷ es) = let rest = every test es in test e && rest

-- No call of these functions, and an input only if they are allowed.
abbrev pub outside : Bool → List String → Effect → Bool
outside press bad (called function args) = not (is_one_of function bad)
outside press bad (told text) = true
outside press bad (pressed eid p) = press
outside press bad (left revoke) = true

abbrev pub apart : List String → List String → Bool
apart [] bad = true
apart (name ∷ names) bad = let rest = apart names bad in not (is_one_of name bad) && rest

outside_of_apart :
    (names bad : List String) (f : String)
    → apart names bad ≡ true
    → is_one_of f names ≡ true
    → is_one_of f bad ≡ false
outside_of_apart [] bad f h k = cc
outside_of_apart (name ∷ names) bad f h k = elim (Bool-cases (str_eq f name)) [
  | inl e ↦ let same : f ≡ name = (eq_iff f name).0 e in rw same (ground arith)
  | inr e ↦ outside_of_apart names bad f (ground arith) (ground arith)
]

abbrev pub all_commands : (Command → Bool) → List Command → Bool
all_commands test [] = true
all_commands test (c ∷ cs) = let rest = all_commands test cs in test c && rest

-- The command that is found has the name, and passes what all pass.
pub command_in_lem :
    (test : Command → Bool) (name : String) (cs : List Command) (c : Command)
    → all_commands test cs ≡ true
    → command_in name cs ≡ some c
    → (test c ≡ true) × (c.name ≡ name)
command_in_lem test name [] c h e = cc
command_in_lem test name (d ∷ cs) c h e = elim (Bool-cases (str_eq name d.name)) [
  | inl same ↦
      let here : d ≡ c = ground (arith, e) in
      let named : name ≡ d.name = (eq_iff name d.name).0 same in
      (
        subst (λ x. test x ≡ true) here (ground arith),
        sym (named ∙ ap (λ (x : Command). x.name) here),
      )
  | inr other ↦ command_in_lem test name cs c (ground arith) (ground arith)
]

module _ (ctx : Context) (w : Around) (press : Bool) (bad : List String) where
  every-call :
      (f : String) (args : List String)
      → is_one_of f bad ≡ false
      → every (outside press bad) (call ctx w f args) ≡ true
  unfolding call
  every-call f args h = ground arith

  every-perform :
      (v : Verb) (d : Deed)
      → (press || is_empty w.encounter) ≡ true
      → apart (allowed v) bad ≡ true
      → fits v w.encounter d ≡ true
      → every (outside press bad) (perform ctx w d) ≡ true
  unfolding perform
  every-perform v (calls f args) p h k = every-call f args (outside_of_apart (allowed v) bad f h k)
  every-perform v (presses eid x) p h k = ground arith
  every-perform v (leaves revoke) p h k = refl
  every-perform v idle p h k = refl

  module _ (quiet : is_one_of "notify" bad ≡ false) where
    every-reply :
        (text : String) (es : List Effect)
        → some (reply ctx w text) ≡ some es
        → every (outside press bad) es ≡ true
    every-reply text es e =
        let same : reply ctx w text ≡ es = cc in
        subst (λ x. every (outside press bad) x ≡ true) same (every-call "notify" _ quiet)

    every-finish :
        (v : Verb) (usage : String) (t : Tried Deed) (es : List Effect)
        → (press || is_empty w.encounter) ≡ true
        → apart (allowed v) bad ≡ true
        → Does (fits v w.encounter) t
        → finish ctx w usage t ≡ some es
        → every (outside press bad) es ≡ true
    unfolding finish
    every-finish v usage (ok d) es p h k e =
        let same : perform ctx w d ≡ es = cc in
        subst (λ x. every (outside press bad) x ≡ true) same (every-perform v d p h (k.at d refl))
    every-finish v usage (hint why) es p h k e = every-reply _ es e
    every-finish v usage crash es p h k e = cc

    module _ (u : Unicode) where
      every-run :
          (c : Command) (rest : String) (es : List Effect)
          → (press || is_empty w.encounter) ≡ true
          → apart (allowed c.handler) bad ≡ true
          → run ctx w u c rest ≡ some es
          → every (outside press bad) es ≡ true
      unfolding run
      every-run c rest es p h e =
          every-finish c.handler c.usage _ es p h (handle-Does u ctx w c.handler rest) e

-- The functions that the commands of admins call.
abbrev pub admin_functions : List String
admin_functions = "announce" ∷ "set_weather" ∷ "goto" ∷ "set_clock" ∷ []

-- The functions that the commands which an offer holds up call.
abbrev pub held_functions : List String
held_functions =
    "discuss" ∷ "greet" ∷ "give" ∷ "choose" ∷ "flee" ∷ "travel" ∷ "move" ∷ "disarm" ∷ "use"
    ∷ "use_item" ∷ "learn" ∷ "attune" ∷ "respec" ∷ "equip" ∷ "unequip" ∷ "wear" ∷ "hold" ∷ "remove"
    ∷ "train" ∷ "get" ∷ "drop" ∷ []

abbrev for_all : Command → Bool
for_all c = c.admin || apart (allowed c.handler) admin_functions

admin_table : (u : Unicode) → all_commands for_all (commands u) ≡ true
unfolding commands
admin_table u = refl

abbrev unheld : Command → Bool
unheld c = is_one_of c.name offer_holds || apart (allowed c.handler) held_functions

held_table : (u : Unicode) → all_commands unheld (commands u) ≡ true
unfolding commands
held_table u = refl

waiting_no_fight :
    (w : Around) (who : String) → waiting_on w ≡ some who → is_empty w.encounter ≡ true
unfolding waiting_on
waiting_no_fight w who h = ground arith

unheld_name :
    (ctx : Context) (w : Around) (name who : String)
    → waiting_on w ≡ some who
    → holder ctx w name ≡ none
    → is_one_of name offer_holds ≡ false
unheld_name ctx w name who a h = elim (Bool-cases (is_one_of name offer_holds)) [
  | inl held ↦ let h' = (rw held at h) in cc
  | inr free ↦ free
]

module _ (u : Unicode) (ctx : Context) (w : Around) where
  admin-Came :
      {parsed : Option (String × String)} (es : List Effect)
      → ctx.is_admin ≡ false
      → Came u ctx w parsed es
      → every (outside true admin_functions) es ≡ true
  admin-Came es a (Came.nothing p e) = rw e refl
  admin-Came es a (Came.answered text e) = every-reply ctx w true admin_functions refl text es e
  admin-Came es a (Came.ran name rest c p f g h r) =
      let ok' : (for_all c ≡ true) × (c.name ≡ name) =
        command_in_lem for_all name (commands u) c (admin_table u) f in
      every-run ctx w true admin_functions refl u c rest es refl (ground (arith, ok'.0)) r

  held-Came :
      {parsed : Option (String × String)} (es : List Effect) (who : String)
      → waiting_on w ≡ some who
      → Came u ctx w parsed es
      → every (outside false held_functions) es ≡ true
  held-Came es who a (Came.nothing p e) = rw e refl
  held-Came es who a (Came.answered text e) = every-reply ctx w false held_functions refl text es e
  held-Came es who a (Came.ran name rest c p f g h r) =
      let (unheld', named) = command_in_lem unheld name (commands u) c (held_table u) f in
      every-run ctx w false held_functions refl u c rest es (waiting_no_fight w who a)
        (ground
          (arith, unheld', unheld_name ctx w name who a h, ap (λ n. is_one_of n offer_holds) named))
        r

  -- A player who is no admin never has the rules called for a function of the admins' commands,
  -- whatever is typed, with any alias, target and answers of Redis.
  pub dispatch_admin :
      (text : String) (es : List Effect)
      → ctx.is_admin ≡ false
      → dispatch ctx w u text ≡ some es
      → every (outside true admin_functions) es ≡ true
  dispatch_admin text es a e = admin-Came es a (dispatch-Came u ctx w text es e)

  -- While an NPC waits for the player's answer to an offer, no command that is typed calls one of
  -- the functions that the held commands call, nor sends an input to a fight.
  pub dispatch_held :
      (text who : String) (es : List Effect)
      → waiting_on w ≡ some who
      → dispatch ctx w u text ≡ some es
      → every (outside false held_functions) es ≡ true
  dispatch_held text who es a e = held-Came es who a (dispatch-Came u ctx w text es e)
