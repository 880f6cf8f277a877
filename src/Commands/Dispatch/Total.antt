-- ===== src/Commands/Dispatch/Total.antt =====
-- `dispatch` of commands.py raises no exception, and answers whatever is typed.
use Prim.Native.Char.{code}
use Prim.Native.String.{[] as empty_text, ◌∷◌ as ◌then◌}
use text.Mathlib.Text.{◌==◌ as str_eq}
use alzendor.Prelude.{
  String, Bool, true, false, not, ◌&&◌, ◌||◌, ◌≡◌, refl, Option, none, some, List, Bool-cases,
  Option-cases, inl, inr, if◌then◌else◌, arith, eq_iff, ◌==◌,
}
use alzendor.Text.{Unicode, is_empty}
use alzendor.Commands.Data.{Command, Context, Around, Deed, Tried, Effect}
use alzendor.Commands.Table.{commands}
use alzendor.Commands.Parse.{clean, parse, parse_clean}
use alzendor.Commands.Parse.Tidy.{HasBlank, Starts, clean-ne}
use alzendor.Commands.Parse.Resolved.{IsRest, parse-IsRest}
use alzendor.Commands.Handlers.{command_in}
use alzendor.Commands.Handlers.Returns.{Returns, returned, hinted, is_help, parses, handle-Returns}
use alzendor.Commands.Dispatch.{holder, finish, run, run_held, run_found, dispatch}
use alzendor.Commands.Dispatch.Guards.{all_commands, command_in_lem}

abbrev named_help : Command → Bool
named_help c = not (is_help c.handler) || str_eq c.name "help"

help_table : (u : Unicode) → all_commands named_help (commands u) ≡ true
unfolding commands
help_table u = refl

pub parse_clean-parses :
    (u : Unicode) (text : String) → is_empty text ≡ false → parses (parse_clean u text) ≡ true
parse_clean-parses u empty_text h = cc
parse_clean-parses u (c then text) h = elim (Bool-cases (code c == b'\'')) [
  | inl e ↦ rw e refl
  | inr e ↦ elim (Bool-cases (code c == b':')) [ inl f ↦ rw (e, f) refl | inr f ↦ rw (e, f) refl ]
]

-- A rest that starts with a word parses.
parses-rest :
    (u : Unicode) (rest : String) → Starts u rest → (is_empty rest || parses (parse u rest)) ≡ true
unfolding parse
parses-rest u rest s = elim (Bool-cases (is_empty rest)) [
  | inl e ↦ rw e refl
  | inr e ↦ rw e (parse_clean-parses u (clean u rest) (clean-ne u rest s e))
]

abbrev NeedsRest : Unicode → Command → String → Type 0
NeedsRest u c rest = (not (is_help c.handler) || (is_empty rest || parses (parse u rest))) ≡ true

help_rest : (u : Unicode) (name rest : String) → IsRest u name rest → name ≡ "help" → Starts u rest
help_rest u name rest (inl e) h = ground (arith, eq_iff "say" "help")
help_rest u name rest (inr (inl e)) h = ground (arith, eq_iff "emote" "help")
help_rest u name rest (inr (inr (inl e))) h = ground (arith, eq_iff "move" "help")
help_rest u name rest (inr (inr (inr s))) h = s

-- The command that is found has what its handler needs of the rest.
found_needs :
    (u : Unicode) (text name rest : String) (c : Command)
    → HasBlank u
    → parse u text ≡ some (name, rest)
    → command_in name (commands u) ≡ some c
    → NeedsRest u c rest
found_needs u text name rest c b p f = elim (Bool-cases (is_help c.handler)) [
  | inl e ↦
      let (helps, named) = command_in_lem named_help name (commands u) c (help_table u) f in
      let called_help : c.name ≡ "help" = (eq_iff c.name "help").0 (ground (arith, helps, e)) in
      let starts : Starts u rest =
        help_rest u name rest (parse-IsRest u text name rest b p) (cc (called_help, named)) in
      rw e (parses-rest u rest starts)
  | inr e ↦ rw e refl
]

abbrev pub Total : Option (List Effect) → Type 0
Total r = (es : List Effect) × (r ≡ some es)

module _ (ctx : Context) (w : Around) where
  finish-Total : (usage : String) {t : Tried Deed} → Returns t → Total (finish ctx w usage t)
  unfolding finish
  finish-Total usage (returned d) = (_, refl)
  finish-Total usage (hinted why) = (_, refl)

  module _ (u : Unicode) where
    held-Total :
        (c : Command) (rest : String) (h : Option String)
        → NeedsRest u c rest
        → Total (run_held ctx w u c rest h)
    unfolding run
    held-Total c rest none n = finish-Total c.usage (handle-Returns u ctx w c.handler rest n)
    held-Total c rest (some who) n = (_, refl)

    found-Total :
        (name rest : String) (found : Option Command)
        → ((c : Command) → found ≡ some c → NeedsRest u c rest)
        → Total (run_found ctx w u name rest found)
    found-Total name rest none n = (_, refl)
    found-Total name rest (some c) n = elim (Bool-cases (c.admin && not ctx.is_admin)) [
      | inl e ↦ rw e (_, refl)
      | inr e ↦ rw e (held-Total c rest (holder ctx w name) (n c refl))
    ]

    -- Whatever is typed, and whatever Redis answers, `dispatch` comes to its effects: no handler
    -- raises an exception that is not answered with a usage, HELP of what does not parse included.
    pub dispatch-Total : (text : String) → HasBlank u → Total (dispatch ctx w u text)
    unfolding dispatch
    dispatch-Total text b = elim (Option-cases (parse u text)) [
      | inl e ↦ rw e (_, refl)
      | inr ((name, rest), e) ↦ rw e (
          found-Total name rest (command_in name (commands u))
            (λ c f. found_needs u text name rest c b e f))
    ]
