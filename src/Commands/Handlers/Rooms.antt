-- ===== src/Commands/Handlers/Rooms.antt =====
-- commands.py: the handlers of looking around, talking to people, moving and acting in the room.
use Prim.Native.Char.{code}
use Prim.Native.String.{[] as empty_text, ◌∷◌ as ◌then◌, ◌++◌ as ◌joined◌}
use text.Mathlib.Text.{◌==◌ as str_eq}
use alzendor.Prelude.{
  ℕ, String, Bool, true, false, not, ◌&&◌, ◌||◌, Option, none, some, List, [], ◌∷◌, ltb, ◌==◌,
  if◌then◌else◌,
}
use alzendor.Text.{
  Unicode, is_empty, or_else, chars, strip, words_of, join_words, partition, contains_text,
  is_number, join_texts, last_word, but_last,
}
use alzendor.Commands.Data.{Context, Around, Deed, calls, Tried, ok, hint, ◌>>=◌}
use alzendor.Commands.Parse.{directions, is_direction, long_direction, require, thing}

-- [w for w in words if w != "about"]
abbrev pub less_about : List String → List String
less_about [] = []
less_about (word ∷ more) =
    let rest = less_about more in if str_eq word "about" then rest else word ∷ rest

-- The topic is the last word, and the others are whom.
abbrev pub talk_words : String → String → List String → String × String
talk_words target whom [] = (or_else whom target, "")
talk_words target whom (word ∷ more) =
    (or_else whom (or_else (join_words (but_last word more)) target), last_word word more)

-- `_talk_to`
abbrev pub talk_to : Unicode → Context → String → String × String
talk_to u ctx rest =
    let text = thing u rest in
    let padded = " " joined (text joined " ") in
    let (topics, whom) =
      (if contains_text " with " padded then partition " with " padded else (text, empty_text)) in
    talk_words ctx.target (strip u.is_space whom) (less_about (words_of u.is_space topics))

-- What is typed, or else the target.
abbrev pub thing_or_target : Unicode → Context → String → String
thing_or_target u ctx rest = or_else (thing u rest) ctx.target

abbrev pub is_mark : ℕ → Bool
is_mark k = k == b'.' || (k == b'!' || k == b'?')

-- The text, with a full stop unless it ends with a mark.
abbrev pub stopped : String → String
stopped empty_text = empty_text
stopped (c then empty_text) = if is_mark (code c) then c then empty_text else c then "."
stopped (c then (d then text)) = c then stopped (d then text)

abbrev pub text_of : Option String → String
text_of none = ""
text_of (some text) = text

abbrev pub is_allowed : Option String → Bool
is_allowed none = false
is_allowed (some text) = true

module _ (u : Unicode) (ctx : Context) (w : Around) where
  abbrev pub look : String → Tried Deed
  look rest = ok (calls "look" (long_direction (thing u rest) ∷ []))

  abbrev pub inspect : String → Tried Deed
  inspect rest = do
    subject ← require (thing_or_target u ctx rest) "Inspect what?"
    ok (calls "inspect" (subject ∷ []))

  abbrev pub inventory : String → Tried Deed
  inventory rest = ok (calls "inventory" [])

  abbrev pub who : String → Tried Deed
  who rest = ok (calls "who" [])

  abbrev pub weather : String → Tried Deed
  weather rest = ok (calls "weather" [])

  abbrev pub discuss : String → Tried Deed
  discuss rest = let (whom, topic) = talk_to u ctx rest in ok (calls "discuss" (whom ∷ topic ∷ []))

  abbrev pub greet : String → Tried Deed
  greet rest = ok (calls "greet" (thing_or_target u ctx rest ∷ []))

  abbrev pub accept : String → Tried Deed
  accept rest = ok (calls "accept" [])

  abbrev pub decline : String → Tried Deed
  decline rest = ok (calls "decline" [])

  abbrev pub whatnow : String → Tried Deed
  whatnow rest = ok (calls "whatnow" [])

  abbrev pub what : String → Tried Deed
  what rest =
      if not (str_eq (strip (λ c. code c == b' ' || code c == b'?') (u.lower rest)) "now")
      then hint "What? Try WHAT NOW."
      else ok (calls "whatnow" [])

  abbrev pub give : String → Tried Deed
  give rest =
      let (item, whom) = partition " to " (" " joined (u.lower rest joined " ")) in
      require (thing u item) "Give what? e.g. GIVE SIGNET TO NAN." >>= λ gift.
      ok (calls "give" (gift ∷ or_else (thing u whom) ctx.target ∷ []))

  abbrev pub choose : String → Tried Deed
  choose rest =
      let number = strip u.is_space rest in
      if not (is_number u.is_digit number)
      then hint "Choose which? e.g. CHOOSE 1."
      else ok (calls "choose" (number ∷ []))

  abbrev pub flee : String → Tried Deed
  flee rest = ok (calls "flee" [])

  abbrev pub travel : String → Tried Deed
  travel rest = ok (calls "travel" (thing u rest ∷ []))

  abbrev pub move : String → Tried Deed
  move rest =
      let direction = long_direction (u.lower rest) in
      if not (is_direction direction)
      then hint ("Move where? Directions are " joined (join_texts ", " directions joined "."))
      else ok (calls "move" (direction ∷ []))

  abbrev pub creep : String → Tried Deed
  creep rest =
      let direction = long_direction (u.lower rest) in
      if not (is_direction direction)
      then hint ("Creep where? Directions are " joined (join_texts ", " directions joined "."))
      else ok (calls "move" (direction ∷ "careful" ∷ []))

  abbrev pub disarm : String → Tried Deed
  disarm rest =
      let direction = long_direction (u.lower rest) in
      if not (is_direction direction)
      then hint "Disarm which way? e.g. DISARM NORTH."
      else ok (calls "disarm" (direction ∷ []))

  abbrev pub say : String → Tried Deed
  say rest = do text ← require rest "Say what?"; ok (calls "say" (text ∷ ctx.target ∷ []))

  abbrev pub emote : String → Tried Deed
  emote rest = do
    text ← require rest "Emote what?"
    ok (calls "emote" ("" ∷ "" ∷ stopped text ∷ "" ∷ []))

  -- The handler of `_verb_handler`.
  abbrev pub fixed : String → Option String → Option String → String → Tried Deed
  fixed verb plain targeted rest =
      let target = or_else (thing u rest) (if is_allowed targeted then ctx.target else "") in
      if not (is_empty target) && not (is_allowed targeted)
      then hint ("Just " joined (u.upper verb joined "."))
      else if is_empty target && not (is_allowed plain)
      then hint (u.capitalize verb joined " what?")
      else ok (calls "emote" (verb ∷ target ∷ text_of plain ∷ text_of targeted ∷ []))

  abbrev pub describe : String → Tried Deed
  describe rest = do
    text ← require rest "Describe yourself how? e.g. DESCRIBE tall, with a scarred lip"
    (if ltb 80 (chars text)
        then hint "Keep it under 80 characters."
        else ok (calls "describe" (text ∷ [])))
