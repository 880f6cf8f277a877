-- ===== src/Commands/Tests.antt =====
-- commands.py: runs of commands.
use Prim.Native.Char.{code}
use Prim.Native.String.{[] as empty_text, ◌∷◌ as ◌then◌}
use alzendor.Prelude.{
  ◌++◌, ◌≤◌, arith, String, true, false, ◌&&◌, none, some, List, [], ◌∷◌, ◌≡◌, refl, leb, ◌==◌,
  ◌||◌,
}
use alzendor.Text.{Unicode, chars, words_of, join_words}
use alzendor.Text.Words.{AllChars, AllWords, IsWord}
use alzendor.Commands.Table.{commands, alias_in}
use alzendor.Commands.Parse.{clean, parse, thing, resolve}
use alzendor.Commands.Parse.Tidy.{HasBlank, IsPrintable, Starts, IsSpaced, clean_bounds}
use alzendor.Commands.Parse.Thing.{HasCase, IsLow, IsFiller, Bare, thing_lem}
use alzendor.Commands.Parse.Resolved.{parse_resolved}
use alzendor.Commands.Dispatch.Guards.{
  every, outside, admin_functions, held_functions, dispatch_admin, dispatch_held,
}
use alzendor.Commands.Dispatch.Total.{Total, dispatch-Total}
use alzendor.Commands.Data.{Press, Context, Around, Effect, called, pressed}
use alzendor.Commands.Dispatch.{waiting_on, dispatch}

-- ASCII, all of it in lower case.
abbrev ascii : Unicode
ascii = record {
  is_printable = λ c. leb 32 (code c) && leb (code c) 126;
  is_space = λ c. code c == 32 || code c == 10;
  is_digit = λ c. leb 48 (code c) && leb (code c) 57;
  lower = λ s. s;
  upper = λ s. s;
  capitalize = λ s. s;
}

abbrev nan : Context
nan = record { pid = "nan"; is_admin = false; target = "npc:orc"; can_tell = true }

abbrev square : Around
square = record {
  encounter = "";
  offer = "";
  room = "square";
  is_here = λ r n. true;
  npc_name = λ n. "";
  answer = λ f args. 1;
}

-- An NPC here waits for an answer.
abbrev offered : Around
offered = record square { offer = "nan" }

ascii-HasBlank : HasBlank ascii
ascii-HasBlank = record { blank_space = λ c h. ground arith; blank_printable = λ c h. ground arith }

all_low : (text : String) → AllChars (λ c. true ≡ true) text
all_low empty_text = tt
all_low (c then text) = (refl, all_low text)

ascii-HasCase : HasCase ascii (λ c. true)
ascii-HasCase = record { blank_low = refl; lower_low = all_low; low_lower = λ text h. refl }

ask_about :
    dispatch nan square ascii "  talk   signet with the nan "
    ≡ some (called "discuss" ("the nan" ∷ "signet" ∷ []) ∷ [])
unfolding dispatch parse commands thing
ask_about = refl

put_on :
    dispatch nan square ascii "equip the long sword in slot 2"
    ≡ some (called "equip" ("long sword" ∷ "2" ∷ []) ∷ [])
unfolding dispatch parse commands thing
put_on = refl

hand_over :
    dispatch nan square ascii "give old signet to nan"
    ≡ some (called "give" ("old signet" ∷ "nan" ∷ []) ∷ [])
unfolding dispatch parse commands thing
hand_over = refl

slot_key :
    dispatch nan (record square { encounter = "e1" }) ascii "2"
    ≡ some (pressed "e1" (Press.strike 2 "npc:orc") ∷ [])
unfolding dispatch parse commands thing
slot_key = refl

abbrev refusal : List Effect
refusal = called "notify" ("Unknown command 'goto'. Type HELP for a list." ∷ []) ∷ []

goto_refused : dispatch nan square ascii "goto square" ≡ some refusal
unfolding dispatch parse commands
goto_refused = refl

abbrev hold_up : List Effect
hold_up = called "notify" ("Someone is waiting for your answer: ACCEPT or DECLINE first." ∷ []) ∷ []

held_up : dispatch nan offered ascii "n" ≡ some hold_up
unfolding dispatch parse commands
held_up = refl

resolved : parse ascii "  whisper nan hello" ≡ some ("tell", "nan hello")
unfolding parse commands
resolved = refl

dispatch_admin_example : every (outside true admin_functions) refusal ≡ true
dispatch_admin_example = dispatch_admin ascii nan square "goto square" refusal refl goto_refused

waits : waiting_on offered ≡ some "Someone"
unfolding waiting_on
waits = refl

dispatch_held_example : every (outside false held_functions) hold_up ≡ true
dispatch_held_example = dispatch_held ascii nan offered "n" "Someone" hold_up waits held_up

dispatch-Total_example : Total (dispatch nan square ascii "help   us")
dispatch-Total_example = dispatch-Total nan square ascii "help   us" ascii-HasBlank

clean_bounds_example :
    (chars (clean ascii " say   hello ") ≤ 500)
    × AllChars (IsPrintable ascii) (clean ascii " say   hello ")
    × Starts ascii (clean ascii " say   hello ")
    × IsSpaced ascii (clean ascii " say   hello ")
clean_bounds_example = clean_bounds ascii " say   hello " ascii-HasBlank

thing_lem_example :
    (dropped : List String) × (rest : List String) × (words_of ascii.is_space
        (ascii.lower "at the  anvil")
      ≡ dropped ++ rest)
    × AllWords IsFiller dropped
    × Bare rest
    × (rest ≡ [] → dropped ≡ [])
    × AllWords (IsWord ascii.is_space (IsLow ascii (λ c. true))) rest
    × (thing ascii "at the  anvil" ≡ join_words rest)
    × (thing ascii (thing ascii "at the  anvil") ≡ thing ascii "at the  anvil")
thing_lem_example = thing_lem ascii (λ c. true) "at the  anvil" ascii-HasBlank ascii-HasCase

parse_resolved_example : (alias_in "tell" (commands ascii) ≡ none) × (resolve ascii "tell" ≡ "tell")
parse_resolved_example =
    parse_resolved ascii "  whisper nan hello" "tell" "nan hello" ascii-HasBlank resolved
